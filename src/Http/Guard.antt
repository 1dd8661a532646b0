-- ===== src/Http/Guard.antt =====
-- internal/httpapi/security.go: `requireMerchant`, over any rate limiter. `L` is the limiter's state.
pub mod Access
use payment_ledger_platform.Base.{Bool, true, false, String, ◌==◌, none, some, if◌then◌else◌}
use payment_ledger_platform.Base.Dict.{Dict}
use payment_ledger_platform.Error.{Exec, ok, err}
use payment_ledger_platform.Http.Security.{MerchantAuthenticator, authenticate}
use payment_ledger_platform.Http.Handler.{Response, World, Handler, refuse}

pub record RateLimiter (L : Type 0) : Type 0 where
  pub allow : String → Exec L Bool

module _ {S A L : Type 0} where
  -- `key` is the header x-api-key; the handler is given the merchant, empty when no keys are
  -- configured.
  unfoldable pub require_merchant :
      (Dict String → Dict String)
      → MerchantAuthenticator
      → RateLimiter L
      → String
      → (String → Handler S A)
      → World S × L
      → Response A × (World S × L)
  require_merchant visit authenticator limiter key next (w, l) =
      elim (authenticate visit authenticator key) [
        | none ↦ let (answer, w') = refuse 401 "valid x-api-key is required" w in (answer, (w', l))
        | some merchant ↦
            if merchant == ""
            then (let (answer, w') = next "" w in (answer, (w', l)))
            else let (allowed, l') = limiter.allow merchant l in
              elim allowed [
                | err e ↦
                    let (answer, w') = refuse 503 "rate limiter unavailable" w in (answer, (w', l'))
                | ok false ↦
                    let (answer, w') = refuse 429 "rate limit exceeded" w in (answer, (w', l'))
                | ok true ↦ let (answer, w') = next merchant w in (answer, (w', l'))
              ]
      ]
