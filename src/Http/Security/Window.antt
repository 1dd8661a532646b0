-- ===== src/Http/Security/Window.antt =====
-- internal/httpapi/security.go: how many requests the rate limiter in memory lets through.
use payment_ledger_platform.Base.{
  ◌≡◌, refl, ◌∙◌, ap, ◌≤◌, ◌+◌, ◌-◌, ℕ, Bool, false, String, ◌==◌, ◌&&◌, eq_iff, List, [], ◌∷◌,
  ◌++◌, length, length-append, ltb, leb, if◌then◌else◌, arith,
}
use payment_ledger_platform.Base.Dict.{lookup, lookup-insert}
use payment_ledger_platform.Error.{ok, Done}
use payment_ledger_platform.Http.Security.{
  MemoryRateLimiter, new_memory_rate_limiter, hits_of, recent_hits, allow,
}

-- A request: when it arrives, and the key that it counts for.
abbrev pub Request : Type 0
Request = ℕ × String

-- What the limiter answers, newest request first, with the limiter after all of them. The oldest
-- request is the last of the list.
abbrev pub answered : MemoryRateLimiter → List Request → MemoryRateLimiter
answered l [] = l
answered l (r ∷ rs) = (allow r.0 r.1 (answered l rs)).1

abbrev pub is_allowed : MemoryRateLimiter → Request → List Request → Bool
is_allowed l r rs = elim ((allow r.0 r.1 (answered l rs)).0) [ ok b ↦ b | _ ↦ false ]

-- How many requests for `key` were let through less than a window before the instant `t`.
abbrev pub let_through : MemoryRateLimiter → String → ℕ → List Request → ℕ
let_through l key t [] = 0
let_through l key t (r ∷ rs) =
    (if (r.1 == key && ltb (t - r.0) l.window) && is_allowed l r rs then 1 else 0)
    + let_through l key t rs

-- The clock does not run backwards, and has not passed `t`.
abbrev pub InOrder : ℕ → List Request → Type 0
InOrder t [] = Done
InOrder t (r ∷ rs) = (r.0 ≤ t) × InOrder r.0 rs

InOrder-mono : (rs : List Request) (t u : ℕ) → InOrder t rs → t ≤ u → InOrder u rs
InOrder-mono [] t u h le = tt
InOrder-mono (r ∷ rs) t u h le = (omega (arith, h.0, le), h.1)

-- How many of the hits are younger than the window at the instant `t`.
abbrev young : ℕ → ℕ → List ℕ → ℕ
young t window [] = 0
young t window (hit ∷ hits) = (if ltb (t - hit) window then 1 else 0) + young t window hits

young-append : (t w : ℕ) (xs ys : List ℕ) → young t w (xs ++ ys) ≡ young t w xs + young t w ys
young-append t w [] ys = omega arith
young-append t w (x ∷ xs) ys = ground (arith, young-append t w xs ys)

-- Forgetting the hits that are too old at `now` loses none that is young later.
young-recent :
    (now t w : ℕ) (hits : List ℕ) → now ≤ t → young t w (recent_hits now w hits) ≡ young t w hits
unfolding recent_hits
young-recent now t w [] h = refl
young-recent now t w (hit ∷ hits) h = ground (arith, h, young-recent now t w hits h)

length-recent : (now w : ℕ) (hits : List ℕ) → length (recent_hits now w hits) ≡ young now w hits
unfolding recent_hits
length-recent now w [] = refl
length-recent now w (hit ∷ hits) = ground (arith, length-recent now w hits)

young_le : (t w : ℕ) (hits : List ℕ) → young t w hits ≤ length hits
young_le t w [] = omega arith
young_le t w (hit ∷ hits) = ground (arith, young_le t w hits)

-- What one request does to the hits of every key.
hits-allow :
    (now : ℕ) (key other : String) (l : MemoryRateLimiter)
    → hits_of key (allow now other l).1 ≡ (
        if other == key
        then (if leb l.limit (young now l.window (hits_of key l))
            then recent_hits now l.window (hits_of key l)
            else recent_hits now l.window (hits_of key l) ++ now ∷ [])
        else hits_of key l)
unfolding allow
hits-allow now key other l = ground (
  arith,
  length-recent now l.window (hits_of key l),
  eq_iff other key,
  lookup-insert other key (recent_hits now l.window (hits_of other l)) l.hits,
  lookup-insert other key (recent_hits now l.window (hits_of other l) ++ now ∷ []) l.hits,
)

allow-settings :
    (now : ℕ) (key : String) (l : MemoryRateLimiter)
    → ((allow now key l).1.limit ≡ l.limit) × ((allow now key l).1.window ≡ l.window)
unfolding allow
allow-settings now key l = ground arith

allow-decision :
    (now : ℕ) (key : String) (l : MemoryRateLimiter)
    → (allow now key l).0 ≡ ok (ltb (young now l.window (hits_of key l)) l.limit)
unfolding allow
allow-decision now key l = ground (arith, length-recent now l.window (hits_of key l))

young-allow :
    (t now : ℕ) (key other : String) (l : MemoryRateLimiter)
    → now ≤ t
    → young t l.window (hits_of key (allow now other l).1) ≡ (
        if other == key
        then (if leb l.limit (young now l.window (hits_of key l))
            then young t l.window (hits_of key l)
            else young t l.window (hits_of key l) + (if ltb (t - now) l.window then 1 else 0))
        else young t l.window (hits_of key l))
young-allow t now key other l h =
    ap (young t l.window) (hits-allow now key other l)
    ∙ ground (
      arith,
      young-recent now t l.window (hits_of key l) h,
      young-append t l.window (recent_hits now l.window (hits_of key l)) (now ∷ []),
    )

length-allow :
    (now : ℕ) (key other : String) (l : MemoryRateLimiter)
    → length (hits_of key l) ≤ l.limit
    → length (hits_of key (allow now other l).1) ≤ l.limit
length-allow now key other l h = ground (
  arith,
  ap length (hits-allow now key other l),
  length-recent now l.window (hits_of key l),
  young_le now l.window (hits_of key l),
  length-append (recent_hits now l.window (hits_of key l)) (now ∷ []),
)

module _ (limit window : ℕ) where
  abbrev after : List Request → MemoryRateLimiter
  after rs = answered (new_memory_rate_limiter limit window) rs

  settings : (rs : List Request) → ((after rs).limit ≡ limit) × ((after rs).window ≡ window)
  settings [] = (refl, refl)
  settings (r ∷ rs) =
      let (same_limit, same_window) = settings rs in
      let (kept_limit, kept_window) = allow-settings r.0 r.1 (after rs) in
      (kept_limit ∙ same_limit, kept_window ∙ same_window)

  -- The hits that are kept tell how many requests were let through.
  let_through-young :
      (key : String) (t : ℕ) (rs : List Request)
      → InOrder t rs
      → let_through (new_memory_rate_limiter limit window) key t rs
        ≡ young t window (hits_of key (after rs))
  unfolding lookup
  let_through-young key t [] h = refl
  let_through-young key t (r ∷ rs) h =
      let l = after rs in
      let later = let_through-young key t rs (InOrder-mono rs r.0 t h.1 h.0) in
      let now = young-allow t r.0 key r.1 l h.0 in
      let decision = allow-decision r.0 r.1 l in
      ground (arith, later, now, decision, (settings rs).0, (settings rs).1, eq_iff r.1 key)

  -- No key has more hits than the limit.
  hits_le : (key : String) (rs : List Request) → length (hits_of key (after rs)) ≤ limit
  unfolding lookup
  hits_le key [] = omega arith
  hits_le key (r ∷ rs) =
      ground (arith, (settings rs).0, hits_le key rs, length-allow r.0 key r.1 (after rs))

  -- After any requests to a new rate limiter, at instants that do not go backwards, a further
  -- request at an instant that is not earlier is let through exactly when fewer than the limit
  -- were let through for its key less than a window before it.
  pub allow-let_through :
      (now : ℕ) (key : String) (rs : List Request)
      → InOrder now rs
      → (allow now key (after rs)).0
        ≡ ok (ltb (let_through (new_memory_rate_limiter limit window) key now rs) limit)
  allow-let_through now key rs h = ground (
    arith,
    allow-decision now key (after rs),
    let_through-young key now rs h,
    (settings rs).0,
    (settings rs).1,
  )

  -- After any requests to a new rate limiter, at instants that do not go backwards, at most the
  -- limit were let through for any key less than a window before any instant that is not
  -- earlier.
  pub let_through_le :
      (now : ℕ) (key : String) (rs : List Request)
      → InOrder now rs
      → let_through (new_memory_rate_limiter limit window) key now rs ≤ limit
  let_through_le now key rs h = ground (
    arith,
    let_through-young key now rs h,
    young_le now window (hits_of key (after rs)),
    hits_le key rs,
  )
