-- ===== src/RateLimiter.antt =====
-- proxy/rate_limiter.py and the rate-limit section of proxy/models.py.
--
-- Python's floats are exact fractions here: a bucket counts in units of 1 / `scale` of a token,
-- `rate` is the number of units that one tick of the clock adds, and a tick is the clock's
-- resolution. The readings of `time.monotonic()` are arguments.
pub mod Bound
pub mod Clients
mod Tests
use nginx_remake_v.Prelude.{
  ℕ, zero, suc, ◌+◌, ◌-◌, ◌*◌, ◌/◌, ◌%◌, ◌≤◌, ◌<◌, min, max, ◌≡◌, refl, sym, ap, ◌∙◌, subst, ◌≢◌,
  ◌↔◌, ◌⊎◌, inl, inr, Bool, true, false, not, ◌&&◌, ◌||◌, Option, none, some, List, [], ◌∷◌, ◌++◌,
  map, append-nil, append_assoc, arith, ltb, leb, eqb, if◌then◌else◌, ltb→lt, leb→le, eqb_iff,
  Bool-cases, Option-cases, length, get_elem?, take, drop, length-append, take-append-drop,
  length-take, length-drop, Text, Bytes, codes, text_eq, text_eq_iff, Key, ◌==◌, number_keys,
  text_keys,
}
use nginx_remake_v.Prelude.Dict.{
  Dict, lookup, insert, lookup-insert, lookup-insert_self, lookup-insert_ne,
}

pub record TokenBucket : Type 0 where
  pub rate : ℕ
  pub burst : ℕ
  pub scale : ℕ
  pub tokens : ℕ
  pub last_refill : ℕ

pub record RateLimitConfig : Type 0 where
  pub enabled : Bool
  pub rate : ℕ
  pub burst : ℕ
  pub scale : ℕ
  pub per_client : Bool

-- `TokenBucket(rate, burst)`, at the clock's reading `now`.
pub token_bucket : RateLimitConfig → ℕ → TokenBucket
token_bucket c now = record {
  rate = c.rate;
  burst = c.burst;
  scale = c.scale;
  tokens = c.burst * c.scale;
  last_refill = now;
}

refill : TokenBucket → ℕ → TokenBucket
refill b now = record b {
  tokens = min (b.burst * b.scale) (b.tokens + (now - b.last_refill) * b.rate);
  last_refill = now;
}

spend : TokenBucket → ℕ → Bool × TokenBucket
spend b n =
    if leb (n * b.scale) b.tokens
    then (true, record b { tokens = b.tokens - n * b.scale })
    else (false, b)

-- The whole body runs under the bucket's lock.
pub consume : TokenBucket → ℕ → ℕ → Bool × TokenBucket
unfolding refill spend
consume b now n = spend (refill b now) n

pub record RateLimiter : Type 0 where
  pub config : RateLimitConfig
  pub global_bucket : Option TokenBucket
  pub clients : Dict Text TokenBucket

-- `RateLimiter(config)`
pub rate_limiter : RateLimitConfig → ℕ → RateLimiter
unfolding token_bucket
rate_limiter c now = record {
  config = c;
  global_bucket = if c.enabled then some (token_bucket c now) else none;
  clients = [];
}

-- The clock's readings in one call of `allow`: in the global bucket's `consume`, at the creation
-- of the client's bucket, and in the `consume` of that bucket.
pub record Readings : Type 0 where
  pub at_global : ℕ
  pub at_create : ℕ
  pub at_client : ℕ

-- `if self._global and not await self._global.consume(): return False`
pub pass_global : RateLimiter → ℕ → Bool × RateLimiter
unfolding consume
pass_global r now = elim r.global_bucket [
  | none ↦ (true, r)
  | some g ↦ let (ok, g') = consume g now 1 in (ok, record r { global_bucket = some g' })
]

-- `if client_ip`: neither `None` nor the empty text.
pub present : Option Text → Option Text
present none = none
present (some []) = none
present (some (c ∷ s)) = some (c ∷ s)

-- The bucket of a client: made at the first request.
pub client_bucket : RateLimiter → Text → ℕ → TokenBucket
unfolding token_bucket
client_bucket r ip now = elim (lookup ip r.clients) [
  | some b ↦ b
  | none ↦ token_bucket r.config now
]

pub pass_client : RateLimiter → Text → Readings → Bool × RateLimiter
unfolding client_bucket consume
pass_client r ip t =
    let (ok, b) = consume (client_bucket r ip t.at_create) t.at_client 1 in
    (ok, record r { clients = insert ip b r.clients })

limit_client : RateLimiter → Option Text → Readings → Bool × RateLimiter
unfolding pass_client
limit_client r none t = (true, r)
limit_client r (some ip) t = if r.config.per_client then pass_client r ip t else (true, r)

pub allow : RateLimiter → Option Text → Readings → Bool × RateLimiter
unfolding pass_global limit_client present
allow r ip t =
    if not r.config.enabled
    then (true, r)
    else let (ok, r') = pass_global r t.at_global in
      if ok then limit_client r' (present ip) t else (false, r')
