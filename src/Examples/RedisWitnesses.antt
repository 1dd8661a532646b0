-- ===== src/Examples/RedisWitnesses.antt =====
-- The theorem on the limiter in Redis, with a Redis that is a function from keys.
use payment_ledger_platform.Base.{
  ◌≢◌, refl, ℕ, suc, Bool, true, false, String, ◌==◌, eq_iff, [], ◌∷◌, if◌then◌else◌, arith,
}
use payment_ledger_platform.Error.{ok}
use payment_ledger_platform.Http.Security.Redis.{
  RedisClient, RedisRateLimiter, bucket_of, allow, RedisKeys, a_request, time_passes, happen,
  allow_blocked,
}

-- Of each key the count, and whether it has a time to live.
abbrev Redis : Type 0
Redis = String → ℕ × Bool

abbrev client : RedisClient Redis
client = record {
  incr = λ k s. (ok (suc (s k).0), λ j. if k == j then (suc (s j).0, (s j).1) else s j);
  expire = λ k w s. (ok tt, λ j. if k == j then ((s j).0, true) else s j);
}

-- Every key with a time to live is removed.
abbrev pass : Redis → Redis
pass s j = if (s j).1 then (0, false) else s j

abbrev redis_keys : RedisKeys client pass
redis_keys = record {
  count = λ s k. (s k).0;
  expires = λ s k. (s k).1;
  incr_counts = λ k s h. ground arith;
  incr_adds = λ k j s. ground arith;
  incr_keeps = λ k j s h. ground arith;
  expire_counts = λ k j w s. ground arith;
  expire_keeps = λ k j w s ne. ground (arith, eq_iff k j);
  pass_keeps = λ j s h. ground arith;
}

abbrev limiter : RedisRateLimiter Redis
limiter = record { client = client; limit = 2; window = 60 }

-- Two requests were counted, and the key has no time to live.
abbrev stuck : Redis
stuck k = if k == bucket_of "m1" then (2, false) else (0, false)

allow_blocked_example :
    (allow limiter "m1" (happen limiter pass (a_request "m2" ∷ time_passes ∷ []) stuck)).0 ≢ ok true
allow_blocked_example =
    allow_blocked limiter pass redis_keys "m1" (a_request "m2" ∷ time_passes ∷ []) stuck
      (omega arith) (omega arith) refl
