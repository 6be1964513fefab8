-- ===== src/RateLimiter/Bound.antt =====
-- What a token bucket lets through in a span of time.
use nginx_remake_v.Prelude.{
  ℕ, ◌+◌, ◌-◌, ◌*◌, ◌≤◌, min, ◌≡◌, sym, ap, subst, ◌↔◌, Bool, true, false, List, [], ◌∷◌, arith,
  number_keys, text_keys,
}
use nginx_remake_v.RateLimiter.{TokenBucket, consume}

-- The units that a call took.
abbrev pub taken : Bool → ℕ → ℕ
taken true n = n
taken false n = 0

-- What one call does to the bucket: its fixed fields, its reading, its capacity and the units.
pub record Consumes (b : TokenBucket) (now n : ℕ) (r : Bool × TokenBucket) : Type 0 where
  pub rate_same : (r.1).rate ≡ b.rate
  pub burst_same : (r.1).burst ≡ b.burst
  pub scale_same : (r.1).scale ≡ b.scale
  pub read : (r.1).last_refill ≡ now
  pub capped : (r.1).tokens ≤ b.burst * b.scale
  pub spent : taken r.0 n * b.scale + (r.1).tokens ≤ b.tokens + (now - b.last_refill) * b.rate

pub consume-Consumes : (b : TokenBucket) (now n : ℕ) → Consumes b now n (consume b now n)
unfolding consume
consume-Consumes b now n = ground arith

-- A bucket grants a request exactly when the tokens refilled up to the burst cover it.
pub consume_grants :
    (b : TokenBucket) (now n : ℕ)
    → ((consume b now n).0 ≡ true)
      ↔ (n * b.scale ≤ min (b.burst * b.scale) (b.tokens + (now - b.last_refill) * b.rate))
unfolding consume
consume_grants b now n = ground arith

-- A series of calls, each with the clock's reading and the tokens that it asks for.
unfoldable pub run : TokenBucket → List (ℕ × ℕ) → ℕ × TokenBucket
run b [] = (0, b)
run b ((now, n) ∷ calls) =
    let (ok, b') = consume b now n in
    let (granted, b'') = run b' calls in (taken ok n + granted, b'')

-- The clock is monotonic.
abbrev pub Rises : ℕ → List (ℕ × ℕ) → Type 0
Rises t [] = Unit
Rises t ((now, n) ∷ calls) = (t ≤ now) × Rises now calls

abbrev pub last_time : ℕ → List (ℕ × ℕ) → ℕ
last_time t [] = t
last_time t ((now, n) ∷ calls) = last_time now calls

le-last_time : (t : ℕ) (calls : List (ℕ × ℕ)) → Rises t calls → t ≤ last_time t calls
le-last_time t [] h = omega arith
le-last_time t ((now, n) ∷ calls) h = omega (arith, le-last_time now calls h.1)

pub span_split : (s t u r : ℕ) → s ≤ t → t ≤ u → (t - s) * r + (u - t) * r ≡ (u - s) * r
span_split s t u r h k = omega (arith, ap (λ (x : ℕ). x * r) split)
  where
    split : (t - s) + (u - t) ≡ u - s
    split = omega arith

pub join_spans :
    (s t u rate scale k g x y z t' u' rate' scale' : ℕ)
    → s ≤ t
    → t ≤ u
    → k * scale + y ≤ x + (t - s) * rate
    → t' ≡ t
    → u' ≡ u
    → rate' ≡ rate
    → scale' ≡ scale
    → g * scale' + z ≤ y + (u' - t') * rate'
    → (k + g) * scale + z ≤ x + (u - s) * rate
join_spans s t u rate scale k g x y z t' u' rate' scale' h h' p et eu er es q =
    let q' : g * scale + z ≤ y + (u - t) * rate = rw (et, eu, er, es) at q in
    omega (arith, span_split s t u rate h h')

-- Whatever a token bucket is asked for at rising times, what it grants and what is left never
-- exceed what was there and what the time added.
pub run_bound :
    (calls : List (ℕ × ℕ)) (b : TokenBucket)
    → Rises b.last_refill calls
    → let (granted, b') = run b calls in
      granted * b.scale + b'.tokens
      ≤ b.tokens + (last_time b.last_refill calls - b.last_refill) * b.rate
unfolding run
run_bound [] b h = omega arith
run_bound ((now, n) ∷ calls) b h =
    step (consume b now n) (consume-Consumes b now n) (run_bound calls (consume b now n).1)
  where
    step :
        (r : Bool × TokenBucket)
        → Consumes b now n r
        → (Rises (r.1).last_refill calls
            → (run r.1 calls).0 * (r.1).scale + (run r.1 calls).1.tokens
              ≤ (r.1).tokens + (last_time (r.1).last_refill calls - (r.1).last_refill) * (r.1).rate)
        → (taken r.0 n + (run r.1 calls).0) * b.scale + (run r.1 calls).1.tokens
          ≤ b.tokens + (last_time now calls - b.last_refill) * b.rate
    step r c ih =
        join_spans b.last_refill now (last_time now calls) b.rate b.scale (taken r.0 n) _ b.tokens
          (r.1).tokens _ (r.1).last_refill (last_time (r.1).last_refill calls) (r.1).rate
          (r.1).scale h.0 (le-last_time now calls h.1) c.spent c.read
          (ap (λ x. last_time x calls) c.read) c.rate_same c.scale_same
          (ih (subst (λ x. Rises x calls) (sym c.read) h.1))
