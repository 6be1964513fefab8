-- ===== src/UpstreamPool/Rotation.antt =====
-- Requests go round the upstreams in turn.
use nginx_remake_v.Prelude.{
  ℕ, zero, suc, ◌-◌, ◌<◌, ◌≡◌, ap, ◌∙◌, inl, inr, true, Option, some, [], arith, Option-cases,
  length, get_elem?, number_keys, text_keys,
}
use nginx_remake_v.Prelude.Dict.{lookup, insert_same}
use nginx_remake_v.Exec.{Result, ok}
use nginx_remake_v.CircuitBreaker.{CircuitBreaker, closed, allow_request}
use nginx_remake_v.CircuitBreaker.Probe.{allow_request_iff}
use nginx_remake_v.UpstreamPool.{
  Upstream, UpstreamsPool, upstream_keys, member, is_alive, visit, advance, search_alive,
  get_next_alive,
}
use nginx_remake_v.UpstreamPool.Selection.{
  at_offset, get_elem?-total, advance_in_range, offset_advance, offset_zero,
}

-- Every upstream is alive, and no breaker is open.
pub record IsReady (p : UpstreamsPool) : Type 0 where
  pub alive : (i : ℕ) (u : Upstream) → get_elem? p.upstreams i ≡ some u → is_alive p u ≡ true
  pub shut : (u : Upstream) (b : CircuitBreaker) → lookup u p.breakers ≡ some b → b.state ≡ closed

closed_allows : (b : CircuitBreaker) (now : ℕ) → b.state ≡ closed → allow_request b now ≡ (true, b)
closed_allows b now e =
    let (iff, same) = allow_request_iff b now in
    let passes = iff.1 (inl e) in ground (arith, passes, same, e)

visit_ready :
    (p : UpstreamsPool) (now : ℕ) (u : Upstream)
    → is_alive p u ≡ true
    → ((b : CircuitBreaker) → lookup u p.breakers ≡ some b → b.state ≡ closed)
    → visit p [] now u ≡ (some u, p)
unfolding visit member
visit_ready p now u alive shut = elim (Option-cases (lookup u p.breakers)) [
  | inl e ↦ ground (arith, e, alive)
  | inr (b, e) ↦
      ground (arith, e, alive, closed_allows b now (shut b e), insert_same u b p.breakers e)
]

search_ready :
    (k : ℕ) (p : UpstreamsPool) (clock : ℕ → ℕ) (u : Upstream)
    → IsReady p
    → get_elem? p.upstreams p.next_index ≡ some u
    → search_alive (suc k) p [] clock ≡ (ok (some u), advance p)
unfolding search_alive
search_ready k p clock u r there =
    let e : visit (advance p) [] (clock k) u ≡ (some u, advance p) =
      unfold advance in
      visit_ready (advance p) (clock k) u (r.alive p.next_index u there) (r.shut u) in
    let e0 = ap (λ (x : Option Upstream × UpstreamsPool). x.0) e in
    let e1 = ap (λ (x : Option Upstream × UpstreamsPool). x.1) e in
    rw (there, e0, search_alive) (ap (λ (q : UpstreamsPool). (ok (some u), q)) e1)

next_ready :
    (p : UpstreamsPool) (clock : ℕ → ℕ)
    → IsReady p
    → p.next_index < length p.upstreams
    → get_next_alive p [] clock ≡ (ok (at_offset p 0), advance p)
unfolding get_next_alive
next_ready p clock r h =
    let (u, there) = get_elem?-total p.upstreams p.next_index h in
    let size : length p.upstreams ≡ suc (length p.upstreams - 1) = omega arith in
    rw (offset_zero p h, there)
      (ap (λ (k : ℕ). search_alive k p [] clock) size
        ∙ search_ready (length p.upstreams - 1) p clock u r there)

advance-IsReady : (p : UpstreamsPool) → IsReady p → IsReady (advance p)
unfolding advance
advance-IsReady p r = record { alive = r.alive; shut = r.shut }

-- The pool after `m` calls of `get_next_alive()`.
pub after_calls : ℕ → UpstreamsPool → (ℕ → ℕ) → UpstreamsPool
after_calls zero p clock = p
after_calls (suc m) p clock = after_calls m (get_next_alive p [] clock).1 clock

-- With next_index in range, while every upstream is alive and no breaker is open, successive calls
-- of get_next_alive go round the upstreams in their order.
pub round_robin :
    (m : ℕ) (p : UpstreamsPool) (clock : ℕ → ℕ)
    → IsReady p
    → p.next_index < length p.upstreams
    → (get_next_alive (after_calls m p clock) [] clock).0 ≡ ok (at_offset p m)
unfolding after_calls
round_robin zero p clock r h =
    ap (λ (x : Result (Option Upstream) × UpstreamsPool). x.0) (next_ready p clock r h)
round_robin (suc m) p clock r h =
    let next : (get_next_alive p [] clock).1 ≡ advance p =
      ap (λ (x : Result (Option Upstream) × UpstreamsPool). x.1) (next_ready p clock r h) in
    ap (λ (q : UpstreamsPool). (get_next_alive (after_calls m q clock) [] clock).0) next
    ∙ round_robin m (advance p) clock (advance-IsReady p r) (advance_in_range p h)
    ∙ ap ok (offset_advance p m ∙ ap (at_offset p) (omega arith))
