-- ===== src/Http/Security/Redis.antt =====
-- internal/httpapi/security.go: the rate limiter that counts in Redis. The client is a parameter.
use Prim.Native.String
use payment_ledger_platform.Base.{
  ◌≡◌, ◌≢◌, inl, inr, ℕ, suc, ◌≤◌, Bool, true, false, String, List, [], ◌∷◌, leb, eqb,
  if◌then◌else◌, Bool-cases, arith, ◌==◌, eq_iff,
}
use payment_ledger_platform.Error.{ok, Done, Exec, pure, ◌>>=◌, ◌>>◌, Result-cases}

-- `Incr` and `Expire` of a client of the state `S`.
pub record RedisClient (S : Type 0) : Type 0 where
  pub incr : String → Exec S ℕ
  pub expire : String → ℕ → Exec S Done

pub record RedisRateLimiter (S : Type 0) : Type 0 where
  pub client : RedisClient S
  pub limit : ℕ
  pub window : ℕ

abbrev pub bucket_of : String → String
bucket_of key = String.◌++◌ "payment-platform:rate:" key

module _ {S : Type 0} where
  -- `RedisRateLimiter.Allow`
  unfoldable pub allow : RedisRateLimiter S → String → Exec S Bool
  allow l key = do
    count ← l.client.incr (bucket_of key)
    (if eqb count 1 then l.client.expire (bucket_of key) l.window else pure tt)
    pure (leb count l.limit)

  -- What Redis documents: a key holds a count (0 where it is missing) and may have a time to
  -- live. INCR adds one and leaves the time to live of a key as it is; when it fails, the key may
  -- have been counted or not. EXPIRE sets the time to live of its key only. As time passes, only
  -- keys with a time to live are removed.
  pub record RedisKeys (client : RedisClient S) (pass : S → S) : Type 0 where
    pub count : S → String → ℕ
    pub expires : S → String → Bool
    pub incr_counts :
        (k : String) (s : S) {n : ℕ} → (client.incr k s).0 ≡ ok n → n ≡ suc (count s k)
    pub incr_adds : (k j : String) (s : S) → count s j ≤ count (client.incr k s).1 j
    pub incr_keeps :
        (k j : String) (s : S) → 1 ≤ count s j → expires (client.incr k s).1 j ≡ expires s j
    pub expire_counts : (k j : String) (w : ℕ) (s : S) → count (client.expire k w s).1 j ≡ count s j
    pub expire_keeps :
        (k j : String) (w : ℕ) (s : S) → k ≢ j → expires (client.expire k w s).1 j ≡ expires s j
    pub pass_keeps :
        (j : String) (s : S)
        → expires s j ≡ false
        → (count (pass s) j ≡ count s j) × (expires (pass s) j ≡ false)

-- A request with a key, or time that passes.
pub data Happening : Type 0 where
  a_request : String → Happening
  time_passes : Happening

module _ {S : Type 0} (l : RedisRateLimiter S) (pass : S → S) where
  unfoldable pub happen : List Happening → S → S
  unfolding allow
  happen [] s = s
  happen (a_request key ∷ hs) s = happen hs (allow l key s).1
  happen (time_passes ∷ hs) s = happen hs (pass s)

  module _ (keys : RedisKeys l.client pass) where
    -- The key's bucket has no time to live, and holds at least the count.
    abbrev pub IsStuck : ℕ → String → S → Type 0
    IsStuck n key s =
        (n ≤ keys.count s (bucket_of key))
        × (1 ≤ keys.count s (bucket_of key))
        × (keys.expires s (bucket_of key) ≡ false)

    allow-IsStuck :
        (n : ℕ) (key other : String) (s : S) → IsStuck n key s → IsStuck n key (allow l other s).1
    unfolding allow
    allow-IsStuck n key other s stuck =
        let s' = (l.client.incr (bucket_of other) s).1 in
        elim (Result-cases (l.client.incr (bucket_of other) s).0) [
          | inr (e, failed) ↦ ground (
            arith,
            failed,
            keys.incr_adds (bucket_of other) (bucket_of key) s,
            keys.incr_keeps (bucket_of other) (bucket_of key) s stuck.1,
          )
          | inl (count, done) ↦ elim (Bool-cases (bucket_of other == bucket_of key)) [
            | inl same ↦ ground (
              arith,
              done,
              (eq_iff (bucket_of other) (bucket_of key)).0 same,
              keys.incr_counts (bucket_of other) s done,
              keys.incr_adds (bucket_of other) (bucket_of key) s,
              keys.incr_keeps (bucket_of other) (bucket_of key) s stuck.1,
            )
            | inr differs ↦ ground (
              arith,
              done,
              keys.incr_adds (bucket_of other) (bucket_of key) s,
              keys.incr_keeps (bucket_of other) (bucket_of key) s stuck.1,
              keys.expire_counts (bucket_of other) (bucket_of key) l.window s',
              keys.expire_keeps (bucket_of other) (bucket_of key) l.window s'
                  (λ e. ground (arith, differs, (eq_iff (bucket_of other) (bucket_of key)).1 e)),
            )
          ]
        ]

    happen-IsStuck :
        (n : ℕ) (key : String) (hs : List Happening) (s : S)
        → IsStuck n key s
        → IsStuck n key (happen hs s)
    unfolding happen
    happen-IsStuck n key [] s stuck = stuck
    happen-IsStuck n key (a_request other ∷ hs) s stuck =
        happen-IsStuck n key hs (allow l other s).1 (allow-IsStuck n key other s stuck)
    happen-IsStuck n key (time_passes ∷ hs) s stuck =
        let kept = keys.pass_keeps (bucket_of key) s stuck.2 in
        happen-IsStuck n key hs (pass s)
          (ground (arith, stuck, kept), ground (arith, stuck, kept), kept.1)

    stuck_refuses : (key : String) (s : S) → IsStuck l.limit key s → (allow l key s).0 ≢ ok true
    unfolding allow
    stuck_refuses key s stuck answered =
        let s' = (l.client.incr (bucket_of key) s).1 in
        elim (Result-cases (l.client.incr (bucket_of key) s).0) [
          | inr (e, failed) ↦ ground (arith, failed)
          | inl (count, done) ↦ ground (arith, done, keys.incr_counts (bucket_of key) s done)
        ]

    -- When the bucket of a key in Redis holds at least one and at least the limit, and has no
    -- time to live, then after any requests with any keys, whether their commands fail or not,
    -- and any passing of time, the limiter never lets a request with the key through. (Redis
    -- behaves as documented.)
    pub allow_blocked :
        (key : String) (hs : List Happening) (s : S)
        → l.limit ≤ keys.count s (bucket_of key)
        → 1 ≤ keys.count s (bucket_of key)
        → keys.expires s (bucket_of key) ≡ false
        → (allow l key (happen hs s)).0 ≢ ok true
    allow_blocked key hs s full counted lasting =
        stuck_refuses key (happen hs s) (happen-IsStuck l.limit key hs s (full, counted, lasting))
