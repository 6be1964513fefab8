-- ===== src/RateLimiter/Tests.antt =====
-- The rate limiter on concrete requests.
use nginx_remake_v.Prelude.{
  ℕ, ◌+◌, ◌-◌, ◌*◌, ◌≤◌, ◌≡◌, refl, true, ◌&&◌, Option, none, some, List, [], ◌∷◌, arith,
  if◌then◌else◌, Text, codes, number_keys, text_keys,
}
use nginx_remake_v.Prelude.Dict.{insert}
use nginx_remake_v.RateLimiter.{
  TokenBucket, RateLimitConfig, RateLimiter, Readings, consume, rate_limiter, allow, client_bucket,
}
use nginx_remake_v.RateLimiter.Bound
use nginx_remake_v.RateLimiter.Clients
use nginx_remake_v.RateLimiter.Bound.{run_bound}
use nginx_remake_v.RateLimiter.Clients.{allow_both, allow_isolates, run_allow_bound}

-- Two tokens of 1000 units, and a unit for each tick.
abbrev limits : RateLimitConfig
limits = record { enabled = true; rate = 1; burst = 2; scale = 1000; per_client = true }

abbrev bucket : TokenBucket
bucket = record { rate = 1; burst = 2; scale = 1000; tokens = 2000; last_refill = 10 }

abbrev limiter : RateLimiter
limiter = record { config = limits; global_bucket = some bucket; clients = [] }

abbrev calls : List (ℕ × ℕ)
calls = (10, 1) ∷ (10, 1) ∷ (10, 1) ∷ (1010, 1) ∷ []

bucket_starts : rate_limiter limits 10 ≡ limiter
unfolding rate_limiter
bucket_starts = refl

granted_three : (Bound.run bucket calls).0 ≡ 3
unfolding Bound.run consume
granted_three = refl

run_bound_example :
    (Bound.run bucket calls).0 * 1000 + (Bound.run bucket calls).1.tokens ≤ 2000 + (1010 - 10) * 1
run_bound_example = run_bound calls bucket (omega arith)

abbrev reading : Readings
reading = record { at_global = 20; at_create = 21; at_client = 22 }

allow_both_example :
    let by_global = consume bucket 20 1 in
    let by_client = consume (client_bucket limiter (codes "10.0.0.1") 21) 22 1 in
    let (ok, r) = allow limiter (some (codes "10.0.0.1")) reading in
    (ok ≡ (by_global.0 && by_client.0))
    × (r.global_bucket ≡ some by_global.1)
    × (r.clients ≡ (if by_global.0 then insert (codes "10.0.0.1") by_client.1 [] else []))
allow_both_example = allow_both limiter bucket (codes "10.0.0.1") reading refl refl refl tt

abbrev requests : List (Option Text × Readings)
requests = (some (codes "a"), reading) ∷ (none, reading) ∷ []

run_allow_bound_example : (Clients.run_allow limiter requests).0 * 1000 ≤ 2000 + (20 - 10) * 1
run_allow_bound_example = run_allow_bound requests limiter bucket refl refl (omega arith)
