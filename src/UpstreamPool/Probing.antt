-- ===== src/UpstreamPool/Probing.antt =====
-- What becomes of an upstream whose breaker waits for the outcome of its probe.
use native.Mathlib.Nat.{mod-lt}
use nginx_remake_v.Prelude.{
  ℕ, ◌-◌, ◌<◌, ◌≡◌, ap, ◌∙◌, subst, ◌≢◌, inl, inr, Bool, true, false, Option, none, some, List, [],
  ◌∷◌, arith, Option-cases, length, number_keys, text_keys,
}
use nginx_remake_v.Prelude.Dict.{lookup, lookup-insert_ne}
use nginx_remake_v.Exec.{Result, ok, err, spinning}
use nginx_remake_v.CircuitBreaker
use nginx_remake_v.CircuitBreaker.{CircuitBreaker, half_open, allow_request}
use nginx_remake_v.UpstreamPool.{
  Upstream, UpstreamsPool, upstream_keys, get_next_alive, record_success, record_failure,
  set_status,
}
use nginx_remake_v.UpstreamPool.Selection.{
  breaker_allows, can_take, Selects, get_next_alive-Selects,
}

-- A call of a method of the pool.
pub data Call : Type 0 where
  chooses : List Upstream → (ℕ → ℕ) → Call
  succeeds : Upstream → Call
  fails : Upstream → ℕ → Call
  marks : Upstream → Bool → Call

-- The upstream that a call returns.
abbrev pub choice : UpstreamsPool → Call → Result (Option Upstream)
choice p (chooses excluded clock) = (get_next_alive p excluded clock).0
choice p (succeeds v) = ok none
choice p (fails v now) = ok none
choice p (marks v alive) = ok none

abbrev pub step : UpstreamsPool → Call → UpstreamsPool
step p (chooses excluded clock) = (get_next_alive p excluded clock).1
step p (succeeds v) = record_success p v
step p (fails v now) = record_failure p v now
step p (marks v alive) = set_status p v alive

abbrev pub run : UpstreamsPool → List Call → UpstreamsPool
run p [] = p
run p (c ∷ cs) = run (step p c) cs

-- No outcome of this upstream is recorded.
abbrev pub Awaits : Upstream → List Call → Type 0
Awaits u [] = Unit {0}
Awaits u (chooses excluded clock ∷ cs) = Awaits u cs
Awaits u (succeeds v ∷ cs) = (v ≢ u) × Awaits u cs
Awaits u (fails v now ∷ cs) = (v ≢ u) × Awaits u cs
Awaits u (marks v alive ∷ cs) = Awaits u cs

-- No call returns this upstream.
abbrev pub PassesOver : Upstream → UpstreamsPool → List Call → Type 0
PassesOver u p [] = Unit {0}
PassesOver u p (c ∷ cs) = (choice p c ≢ ok (some u)) × PassesOver u (step p c) cs

breaker_blocks :
    (p : UpstreamsPool) (u : Upstream) (b : CircuitBreaker) (now : ℕ)
    → lookup u p.breakers ≡ some b
    → b.state ≡ half_open
    → breaker_allows p now u ≡ false
unfolding breaker_allows allow_request
breaker_blocks p u b now e h = ground (arith, e, h)

not_taken :
    (p : UpstreamsPool) (u : Upstream) (b : CircuitBreaker) (excluded : List Upstream) (now : ℕ)
    → lookup u p.breakers ≡ some b
    → b.state ≡ half_open
    → can_take p excluded now u ≢ true
not_taken p u b excluded now e h takes = ground (arith, breaker_blocks p u b now e h, takes)

-- The pool can choose, and the breaker of `u` is `b`.
record Waits (u : Upstream) (b : CircuitBreaker) (p : UpstreamsPool) : Type 0 where
  pub in_range : p.next_index < length p.upstreams
  pub breaker : lookup u p.breakers ≡ some b

chosen-Waits :
    (u : Upstream) (b : CircuitBreaker) (p : UpstreamsPool) (excluded : List Upstream)
    (clock : ℕ → ℕ) (x : Result (Option Upstream) × UpstreamsPool)
    → b.state ≡ half_open
    → Waits u b p
    → Selects p excluded clock (length p.upstreams) x
    → (x.0 ≢ ok (some u)) × Waits u b x.1
chosen-Waits u b p excluded clock (ok (some v), q) h w
      (m, lt, there, takes, before, index, us, st, br, pools, down) =
    let other : v ≢ u = λ same. not_taken p u b excluded _ w.breaker h (
      subst (λ (y : Upstream). can_take p excluded (clock (length p.upstreams - 1 - m)) y ≡ true)
        same takes) in
    (
      (λ e. other cc),
      record {
        in_range = rw (us, index) (mod-lt _ (omega (arith, w.in_range)));
        breaker = br u other ∙ w.breaker;
      },
    )
chosen-Waits u b p excluded clock (ok none, q) h w (before, us, st, br, index, pools, down) = (
  (λ e. cc),
  record {
    in_range = rw (us, index) (mod-lt _ (omega (arith, w.in_range)));
    breaker = ap (lookup u) br ∙ w.breaker;
  },
)
chosen-Waits u b p excluded clock (err e, q) h w s = absurd s
chosen-Waits u b p excluded clock (spinning, q) h w s = absurd s

success-Waits :
    (u v : Upstream) (b : CircuitBreaker) (p : UpstreamsPool)
    → v ≢ u
    → Waits u b p
    → Waits u b (record_success p v)
unfolding record_success
success-Waits u v b p ne w = elim (Option-cases (lookup v p.breakers)) [
  | inl e ↦ record {
    in_range = ground (arith, e, w.in_range);
    breaker = ground (arith, e, w.breaker);
  }
  | inr (c, e) ↦ record {
    in_range = ground (arith, e, w.in_range);
    breaker =
        ground (
          arith,
          e,
          lookup-insert_ne v u (CircuitBreaker.record_success c) p.breakers ne,
          w.breaker,
        );
  }
]

failure-Waits :
    (u v : Upstream) (now : ℕ) (b : CircuitBreaker) (p : UpstreamsPool)
    → v ≢ u
    → Waits u b p
    → Waits u b (record_failure p v now)
unfolding record_failure
failure-Waits u v now b p ne w = elim (Option-cases (lookup v p.breakers)) [
  | inl e ↦ record {
    in_range = ground (arith, e, w.in_range);
    breaker = ground (arith, e, w.breaker);
  }
  | inr (c, e) ↦ record {
    in_range = ground (arith, e, w.in_range);
    breaker = ground (
      arith,
      e,
      lookup-insert_ne v u (CircuitBreaker.record_failure c now) p.breakers ne,
      w.breaker,
    );
  }
]

set_status-Waits :
    (u v : Upstream) (alive : Bool) (b : CircuitBreaker) (p : UpstreamsPool)
    → Waits u b p
    → Waits u b (set_status p v alive)
unfolding set_status
set_status-Waits u v alive b p w = elim (Option-cases (lookup v p.status)) [
  | inl e ↦ record {
    in_range = ground (arith, e, w.in_range);
    breaker = ground (arith, e, w.breaker);
  }
  | inr (old, e) ↦ record {
    in_range = ground (arith, e, w.in_range);
    breaker = ground (arith, e, w.breaker);
  }
]

stays :
    (u : Upstream) (b : CircuitBreaker)
    → b.state ≡ half_open
    → (cs : List Call) (p : UpstreamsPool) → Waits u b p
    → Awaits u cs
    → PassesOver u p cs × (lookup u (run p cs).breakers ≡ some b)
stays u b h [] p w a = (tt, w.breaker)
stays u b h (chooses excluded clock ∷ cs) p w a =
    let (other, w') =
      chosen-Waits u b p excluded clock (get_next_alive p excluded clock) h w
        (get_next_alive-Selects p excluded clock w.in_range) in
    let (rest, same) = stays u b h cs (get_next_alive p excluded clock).1 w' a in
    ((other, rest), same)
stays u b h (succeeds v ∷ cs) p w (ne, a) =
    let (rest, same) = stays u b h cs (record_success p v) (success-Waits u v b p ne w) a in
    (((λ e. cc), rest), same)
stays u b h (fails v now ∷ cs) p w (ne, a) =
    let (rest, same) = stays u b h cs (record_failure p v now) (failure-Waits u v now b p ne w) a in
    (((λ e. cc), rest), same)
stays u b h (marks v alive ∷ cs) p w a =
    let (rest, same) = stays u b h cs (set_status p v alive) (set_status-Waits u v alive b p w) a in
    (((λ e. cc), rest), same)

-- An upstream whose breaker is half-open is returned by no get_next_alive and its breaker stays as
-- it is, whatever the clock reads, through any series of choices, status changes and outcomes of
-- other upstreams, as long as no outcome of its own is recorded.
pub half_open_blocks :
    (u : Upstream) (b : CircuitBreaker) (p : UpstreamsPool) (cs : List Call)
    → p.next_index < length p.upstreams
    → lookup u p.breakers ≡ some b
    → b.state ≡ half_open
    → Awaits u cs
    → PassesOver u p cs × (lookup u (run p cs).breakers ≡ some b)
half_open_blocks u b p cs in_range e h a =
    stays u b h cs p (record { in_range = in_range; breaker = e }) a
