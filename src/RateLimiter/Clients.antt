-- ===== src/RateLimiter/Clients.antt =====
-- What the limiter's `allow` decides from its buckets, and whom it touches.
use nginx_remake_v.Prelude.{
  ℕ, ◌+◌, ◌-◌, ◌*◌, ◌≤◌, ◌≡◌, sym, ap, ◌∙◌, subst, ◌≢◌, true, ◌&&◌, Option, none, some, List, [],
  ◌∷◌, arith, if◌then◌else◌, Text, number_keys, text_keys,
}
use nginx_remake_v.Prelude.Dict.{lookup, insert, lookup-insert_ne}
use nginx_remake_v.RateLimiter.{
  TokenBucket, RateLimiter, Readings, consume, client_bucket, pass_global, pass_client,
  limit_client, present, allow,
}
use nginx_remake_v.RateLimiter.Bound.{consume-Consumes, taken, join_spans}

-- A nonempty address.
abbrev pub IsAddress : Text → Type 0
IsAddress [] = ⊥
IsAddress (c ∷ s) = Unit

-- With limiting enabled, a global bucket and a bucket per client, a request from a nonempty
-- address passes exactly when the global bucket and then the client's bucket grant a token; a
-- refusal by the global bucket leaves the clients' buckets alone, one by the client's bucket has
-- taken the global token.
pub allow_both :
    (r : RateLimiter) (g : TokenBucket) (ip : Text) (t : Readings)
    → r.config.enabled ≡ true
    → r.config.per_client ≡ true
    → r.global_bucket ≡ some g
    → IsAddress ip
    → let by_global = consume g t.at_global 1 in
      let by_client = consume (client_bucket r ip t.at_create) t.at_client 1 in
      let (ok, r') = allow r (some ip) t in
      (ok ≡ (by_global.0 && by_client.0))
      × (r'.global_bucket ≡ some by_global.1)
      × (r'.clients ≡ (if by_global.0 then insert ip by_client.1 r.clients else r.clients))
unfolding allow pass_global limit_client pass_client client_bucket present
allow_both r g [] t he hp hg ha = elim ha [ ]
allow_both r g (c ∷ s) t he hp hg ha = ground arith

-- A request leaves the bucket of every other client as it was.
pub allow_isolates :
    (r : RateLimiter) (ip other : Text) (t : Readings)
    → ip ≢ other
    → lookup other (allow r (some ip) t).1.clients ≡ lookup other r.clients
unfolding allow pass_global limit_client pass_client present
allow_isolates r [] other t h = ground arith
allow_isolates r (c ∷ s) other t h = ground (
  arith,
  lookup-insert_ne (c ∷ s) other
      (consume (client_bucket (pass_global r t.at_global).1 (c ∷ s) t.at_create) t.at_client 1).1
      (pass_global r t.at_global).1.clients,
  lookup-insert_ne (c ∷ s) other (consume (client_bucket r (c ∷ s) t.at_create) t.at_client 1).1
      r.clients,
  h,
)

-- What one call does to the global bucket.
record Passes (r : RateLimiter) (g : TokenBucket) (ip : Option Text) (t : Readings) : Type 0 where
  config_same : (allow r ip t).1.config ≡ r.config
  global_next : (allow r ip t).1.global_bucket ≡ some (consume g t.at_global 1).1
  granted : taken (allow r ip t).0 1 ≤ taken (consume g t.at_global 1).0 1

allow-Passes :
    (r : RateLimiter) (g : TokenBucket) (ip : Option Text) (t : Readings)
    → r.config.enabled ≡ true
    → r.global_bucket ≡ some g
    → Passes r g ip t
unfolding allow pass_global limit_client pass_client present
allow-Passes r g none t h k = ground arith
allow-Passes r g (some []) t h k = ground arith
allow-Passes r g (some (c ∷ s)) t h k = ground arith

-- A series of requests: the number that passed, and the limiter after them.
pub run_allow : RateLimiter → List (Option Text × Readings) → ℕ × RateLimiter
run_allow r [] = (0, r)
run_allow r ((ip, t) ∷ calls) =
    let (ok, r') = allow r ip t in
    let (passed, r'') = run_allow r' calls in (taken ok 1 + passed, r'')

-- The clock is monotonic from one global `consume` to the next.
abbrev pub Rises : ℕ → List (Option Text × Readings) → Type 0
Rises now [] = Unit
Rises now ((ip, t) ∷ calls) = (now ≤ t.at_global) × Rises t.at_global calls

abbrev pub last_time : ℕ → List (Option Text × Readings) → ℕ
last_time now [] = now
last_time now ((ip, t) ∷ calls) = last_time t.at_global calls

le-last_time :
    (now : ℕ) (calls : List (Option Text × Readings)) → Rises now calls → now ≤ last_time now calls
le-last_time now [] h = omega arith
le-last_time now ((ip, t) ∷ calls) h = omega (arith, le-last_time t.at_global calls h.1)

scale_mono : (a c x s : ℕ) → a ≤ c → (a + x) * s ≤ (c + x) * s
scale_mono a c x s h = grind arith

-- With limiting enabled and a global bucket, no series of requests at rising times passes more
-- often than that bucket's tokens and the elapsed time allow.
pub run_allow_bound :
    (calls : List (Option Text × Readings)) (r : RateLimiter) (g : TokenBucket)
    → r.config.enabled ≡ true
    → r.global_bucket ≡ some g
    → Rises g.last_refill calls
    → (run_allow r calls).0 * g.scale
      ≤ g.tokens + (last_time g.last_refill calls - g.last_refill) * g.rate
unfolding run_allow
run_allow_bound [] r g h k m = omega arith
run_allow_bound ((ip, t) ∷ calls) r g h k m =
    let p = allow-Passes r g ip t h k in
    let c = consume-Consumes g t.at_global 1 in
    let g' = (consume g t.at_global 1).1 in
    let ih =
      run_allow_bound calls (allow r ip t).1 g' (ap (λ x. x.enabled) p.config_same ∙ h)
        p.global_next (subst (λ x. Rises x calls) (sym c.read) m.1) in
    let both =
      join_spans g.last_refill t.at_global (last_time t.at_global calls) g.rate g.scale
        (taken (consume g t.at_global 1).0 1) (run_allow (allow r ip t).1 calls).0 g.tokens
        g'.tokens 0 g'.last_refill (last_time g'.last_refill calls) g'.rate g'.scale m.0
        (le-last_time t.at_global calls m.1) c.spent c.read (ap (λ x. last_time x calls) c.read)
        c.rate_same c.scale_same (omega (arith, ih)) in
    omega (arith, both, scale_mono _ _ (run_allow (allow r ip t).1 calls).0 g.scale p.granted)
