-- ===== src/Http/Security.antt =====
-- internal/httpapi/security.go: merchant keys and the rate limiter in memory. Instants and
-- durations are numbers of nanoseconds.
pub mod Redis
pub mod Window
pub mod Keys
use payment_ledger_platform.Base.{
  ℕ, ◌-◌, Bool, true, false, not, ◌||◌, String, ◌==◌, List, [], ◌∷◌, ◌++◌, length, Option, none,
  some, leb, ltb, if◌then◌else◌,
}
use payment_ledger_platform.Base.Dict.{Dict, lookup, insert}
use payment_ledger_platform.Error.{ok, Exec}
use payment_ledger_platform.Text.{trim_space, split, cut}

pub record MerchantAuthenticator : Type 0 where
  pub keys : Dict String

-- One round of the loop of `NewMerchantAuthenticator`.
unfoldable pub add_key : String → Dict String → Dict String
add_key item keys = elim (cut ":" (trim_space item)) [
  | none ↦ keys
  | some (key, merchant) ↦ if key == "" || merchant == "" then keys else insert key merchant keys
]

unfoldable pub add_keys : List String → Dict String → Dict String
unfolding add_key
add_keys [] keys = keys
add_keys (item ∷ items) keys = add_keys items (add_key item keys)

unfoldable pub new_merchant_authenticator : String → MerchantAuthenticator
unfolding add_keys
new_merchant_authenticator serialized = record { keys = add_keys (split "," serialized) [] }

-- The loop of `Authenticate`, in the order of the visit.
unfoldable pub match_key : String → Dict String → Option String
match_key key [] = none
match_key key (e ∷ es) = if e.0 == key then some e.1 else match_key key es

-- The merchant, empty when no keys are configured; `none` for a key that is not valid.
unfoldable pub authenticate :
    (Dict String → Dict String) → MerchantAuthenticator → String → Option String
unfolding match_key
authenticate visit authenticator key = elim authenticator.keys [
  | [] ↦ some ""
  | e ∷ es ↦ match_key key (visit (e ∷ es))
]

pub record MemoryRateLimiter : Type 0 where
  pub hits : Dict (List ℕ)
  pub limit : ℕ
  pub window : ℕ

abbrev pub new_memory_rate_limiter : ℕ → ℕ → MemoryRateLimiter
new_memory_rate_limiter limit window = record { hits = []; limit = limit; window = window }

-- `l.hits[key]`, empty for a new key.
abbrev pub hits_of : String → MemoryRateLimiter → List ℕ
hits_of key l = elim (lookup key l.hits) [ none ↦ [] | some hits ↦ hits ]

-- The hits that are younger than the window. A hit is never later than `now`.
unfoldable pub recent_hits : ℕ → ℕ → List ℕ → List ℕ
recent_hits now window [] = []
recent_hits now window (hit ∷ hits) =
    let recent = recent_hits now window hits in
    if ltb (now - hit) window then hit ∷ recent else recent

-- `memoryRateLimiter.Allow`, at the instant `now`.
unfoldable pub allow : ℕ → String → Exec MemoryRateLimiter Bool
unfolding recent_hits
allow now key l =
    let recent = recent_hits now l.window (hits_of key l) in
    if leb l.limit (length recent)
    then (ok false, record l { hits = insert key recent l.hits })
    else (ok true, record l { hits = insert key (recent ++ now ∷ []) l.hits })
