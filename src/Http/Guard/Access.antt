-- ===== src/Http/Guard/Access.antt =====
-- internal/httpapi/security.go: what `requireMerchant` lets through, with the rate limiter in memory.
use payment_ledger_platform.Base.{
  ◌≡◌, ◌≢◌, ℕ, String, eq_iff, none, some, List, [], ltb, if◌then◌else◌, arith,
}
use payment_ledger_platform.Base.Dict.{Dict, lookup, All-lookup}
use payment_ledger_platform.Http.Security.{
  new_merchant_authenticator, MemoryRateLimiter, new_memory_rate_limiter, allow,
}
use payment_ledger_platform.Http.Security.Keys.{IsNamed, authenticates, keys-IsNamed}
use payment_ledger_platform.Http.Security.Window.{
  Request, InOrder, answered, let_through, allow-let_through,
}
use payment_ledger_platform.Http.Handler.{World, Handler, refuse}
use payment_ledger_platform.Http.Guard.{RateLimiter, require_merchant}

-- The limiter in memory, at the instant `now`.
abbrev pub limiter_at : ℕ → RateLimiter MemoryRateLimiter
limiter_at now = record { allow = allow now }

module _ {S A : Type 0} (serialized key : String) (visit : Dict String → Dict String)
    (visits : (m : Dict String) → lookup key (visit m) ≡ lookup key m)
    (configured : (new_merchant_authenticator serialized).keys ≢ []) (limit window now : ℕ)
    (rs : List Request) (next : String → Handler S A) (w : World S) where
  abbrev limiter_after : MemoryRateLimiter
  limiter_after = answered (new_memory_rate_limiter limit window) rs

  -- When the configured text yields some key but not the request's, and a visit finds under the
  -- key what the map holds, `requireMerchant` over the limiter in memory answers with 401
  -- without calling the handler, and nothing changes.
  pub require_merchant-unknown :
      lookup key (new_merchant_authenticator serialized).keys ≡ none
      → require_merchant visit
          (new_merchant_authenticator serialized)
          (limiter_at now)
          key
          next
          (w, limiter_after)
        ≡ ((refuse {S = S} {A = A} 401 "valid x-api-key is required" w).0, (w, limiter_after))
  unfolding require_merchant
  require_merchant-unknown unknown = ground (
    arith,
    unknown,
    authenticates (new_merchant_authenticator serialized).keys key visit visits configured,
  )

  -- When the configured text gives the request's key to a merchant, a visit finds under the key
  -- what the map holds, and the requests so far came at instants that do not go backwards,
  -- `requireMerchant` over the limiter in memory calls the handler for exactly that merchant if
  -- fewer than the limit of its requests were let through within the window, and otherwise
  -- answers with 429 and changes neither the store nor a counter.
  pub require_merchant-keyed :
      (merchant : String)
      → lookup key (new_merchant_authenticator serialized).keys ≡ some merchant
      → InOrder now rs
      → let r =
          require_merchant visit
            (new_merchant_authenticator serialized)
            (limiter_at now)
            key
            next
            (w, limiter_after) in
        (r.0, r.1.0) ≡ (
          if ltb (let_through (new_memory_rate_limiter limit window) merchant now rs) limit
          then next merchant w
          else refuse 429 "rate limit exceeded" w)
  unfolding require_merchant
  require_merchant-keyed merchant known ordered =
      let named =
        All-lookup IsNamed key merchant (new_merchant_authenticator serialized).keys
          (keys-IsNamed serialized) known in
      ground (
        arith,
        known,
        authenticates (new_merchant_authenticator serialized).keys key visit visits configured,
        named.1,
        eq_iff merchant "",
        allow-let_through limit window now merchant rs ordered,
      )
