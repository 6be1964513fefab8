-- ===== src/UpstreamPool/Selection.antt =====
-- Which upstream `get_next_alive` takes.
use native.Mathlib.Nat.{add_assoc, mod-add-mod, mod-eq_of_lt, mod-lt}
use nginx_remake_v.Prelude.{
  ℕ, zero, suc, ◌+◌, ◌-◌, ◌%◌, ◌<◌, ◌≡◌, refl, sym, ap, ◌∙◌, subst, ◌≢◌, inl, inr, Bool, true,
  false, not, ◌&&◌, Option, none, some, List, [], ◌∷◌, arith, Bool-cases, Option-cases, length,
  get_elem?, number_keys, text_keys,
}
use nginx_remake_v.Prelude.Dict.{lookup, lookup-insert_ne, insert_same}
use nginx_remake_v.Exec.{Result, ok, err, spinning}
use nginx_remake_v.CircuitBreaker.{CircuitBreaker, allow_request}
use nginx_remake_v.CircuitBreaker.Probe.{allow_request_iff}
use nginx_remake_v.UpstreamPool.{
  Upstream, UpstreamsPool, upstream_keys, member, is_alive, visit, advance, search_alive,
  get_next_alive,
}

-- The breaker of an upstream, where it has one, lets a request through.
unfoldable pub breaker_allows : UpstreamsPool → ℕ → Upstream → Bool
breaker_allows p now u = elim (lookup u p.breakers) [
  | none ↦ true
  | some b ↦ (allow_request b now).0
]

-- An upstream that `get_next_alive` may return: not excluded, alive, and let through.
abbrev pub can_take : UpstreamsPool → List Upstream → ℕ → Upstream → Bool
can_take p excluded now u = not (member u excluded) && (is_alive p u && breaker_allows p now u)

refused_same :
    (b : CircuitBreaker) (now : ℕ) → (allow_request b now).0 ≡ false → (allow_request b now).1 ≡ b
refused_same b now h = (allow_request_iff b now).1 ∙ rw h

-- A round that passes an upstream over changes nothing.
visit_skip :
    (p : UpstreamsPool) (excluded : List Upstream) (now : ℕ) (u : Upstream)
    → can_take p excluded now u ≡ false
    → visit p excluded now u ≡ (none, p)
unfolding visit breaker_allows
visit_skip p excluded now u h = elim (Option-cases (lookup u p.breakers)) [
  | inl e ↦ ground (arith, e)
  | inr (b, e) ↦ elim (Bool-cases (allow_request b now).0) [
    | inl a ↦ ground (arith, e, a)
    | inr a ↦ ground (arith, e, a, refused_same b now a, insert_same u b p.breakers e)
  ]
]

-- A round that takes its upstream changes that upstream's breaker alone.
record Takes (p p' : UpstreamsPool) (u : Upstream) : Type 0 where
  pub same_upstreams : p'.upstreams ≡ p.upstreams
  pub same_status : p'.status ≡ p.status
  pub same_index : p'.next_index ≡ p.next_index
  pub same_pools : p'.pools ≡ p.pools
  pub same_shutdown : p'.is_shutdown ≡ p.is_shutdown
  pub others : (v : Upstream) → u ≢ v → lookup v p'.breakers ≡ lookup v p.breakers

visit_take :
    (p : UpstreamsPool) (excluded : List Upstream) (now : ℕ) (u : Upstream)
    → can_take p excluded now u ≡ true
    → ((visit p excluded now u).0 ≡ some u) × Takes p (visit p excluded now u).1 u
unfolding visit breaker_allows
visit_take p excluded now u h = elim (Option-cases (lookup u p.breakers)) [
  | inl e ↦ (
    ground (arith, e),
    record {
      same_upstreams = ground (arith, e);
      same_status = ground (arith, e);
      same_index = ground (arith, e);
      same_pools = ground (arith, e);
      same_shutdown = ground (arith, e);
      others = λ v ne. ground (arith, e);
    },
  )
  | inr (b, e) ↦ (
    ground (arith, e),
    record {
      same_upstreams = ground (arith, e);
      same_status = ground (arith, e);
      same_index = ground (arith, e);
      same_pools = ground (arith, e);
      same_shutdown = ground (arith, e);
      others =
          λ v ne. ground (arith, e, lookup-insert_ne u v (allow_request b now).1 p.breakers ne);
    },
  )
]

-- The upstream that stands `m` places behind the next one, cyclically.
abbrev pub at_offset : UpstreamsPool → ℕ → Option Upstream
at_offset p m = get_elem? p.upstreams ((p.next_index + m) % length p.upstreams)

-- The upstream at an offset may not be taken, at the clock's reading of its round.
pub record Skips (p : UpstreamsPool) (excluded : List Upstream) (clock : ℕ → ℕ) (k m : ℕ)
    : Type 0 where
  pub who : Upstream
  pub there : at_offset p m ≡ some who
  pub refused : can_take p excluded (clock (k - 1 - m)) who ≡ false

-- The upstream that was returned is the first, in cyclic order from `next_index`, that may be taken;
-- `next_index` stands behind it, and all else but its breaker is as it was. Where none was returned,
-- none of the `k` upstreams visited may be taken, `next_index` is `k` places further, and all else is
-- as it was.
abbrev pub Selects :
    UpstreamsPool → List Upstream → (ℕ → ℕ) → ℕ → Result (Option Upstream) × UpstreamsPool → Type 0
Selects p excluded clock k (ok (some u), p') =
    (m : ℕ) × (m < k)
    × (at_offset p m ≡ some u)
    × (can_take p excluded (clock (k - 1 - m)) u ≡ true)
    × ((j : ℕ) → j < m → Skips p excluded clock k j)
    × (p'.next_index ≡ (p.next_index + m + 1) % length p.upstreams)
    × (p'.upstreams ≡ p.upstreams)
    × (p'.status ≡ p.status)
    × ((v : Upstream) → u ≢ v → lookup v p'.breakers ≡ lookup v p.breakers)
    × (p'.pools ≡ p.pools)
    × (p'.is_shutdown ≡ p.is_shutdown)
Selects p excluded clock k (ok none, p') =
    ((j : ℕ) → j < k → Skips p excluded clock k j)
    × (p'.upstreams ≡ p.upstreams)
    × (p'.status ≡ p.status)
    × (p'.breakers ≡ p.breakers)
    × (p'.next_index ≡ (p.next_index + k) % length p.upstreams)
    × (p'.pools ≡ p.pools)
    × (p'.is_shutdown ≡ p.is_shutdown)
Selects p excluded clock k (err e, p') = ⊥
Selects p excluded clock k (spinning, p') = ⊥

pub get_elem?-total {ℓ} :
    {A : Type ℓ} (xs : List A) (i : ℕ) → i < length xs → (a : A) × (get_elem? xs i ≡ some a)
get_elem?-total [] i h = absurd (omega arith)
get_elem?-total (x ∷ xs) zero h = (x, refl)
get_elem?-total (x ∷ xs) (suc i) h = get_elem?-total xs i (omega arith)

-- One place further from the pool with its index advanced.
pub offset_advance : (p : UpstreamsPool) (m : ℕ) → at_offset (advance p) m ≡ at_offset p (m + 1)
unfolding advance
offset_advance p m = ap (get_elem? p.upstreams) (
    mod-add-mod (p.next_index + 1) (length p.upstreams) m
    ∙ ap (λ (i : ℕ). i % length p.upstreams) (omega arith))

pub offset_zero :
    (p : UpstreamsPool)
    → p.next_index < length p.upstreams
    → at_offset p 0 ≡ get_elem? p.upstreams p.next_index
offset_zero p h =
    ap (get_elem? p.upstreams)
      (ap (λ (i : ℕ). i % length p.upstreams) (omega arith) ∙ mod-eq_of_lt h)

Skips-advance :
    (p : UpstreamsPool) (excluded : List Upstream) (clock : ℕ → ℕ) (k m : ℕ)
    → Skips (advance p) excluded clock k m
    → Skips p excluded clock (suc k) (m + 1)
unfolding advance breaker_allows
Skips-advance p excluded clock k m s = record {
  who = s.who;
  there = sym (offset_advance p m) ∙ s.there;
  refused = ap (λ (i : ℕ). can_take p excluded (clock i) s.who) (omega arith) ∙ s.refused;
}

Skips-all :
    (p : UpstreamsPool) (excluded : List Upstream) (clock : ℕ → ℕ) (k n : ℕ)
    → Skips p excluded clock (suc k) 0
    → ((j : ℕ) → j < n → Skips (advance p) excluded clock k j)
    → (j : ℕ) → j < suc n
    → Skips p excluded clock (suc k) j
Skips-all p excluded clock k n first rest zero h = first
Skips-all p excluded clock k n first rest (suc j) h =
    subst (Skips p excluded clock (suc k)) (omega arith)
      (Skips-advance p excluded clock k j (rest j (omega arith)))

-- The rest of the search after a round that passed its upstream over.
Selects-advance :
    (p : UpstreamsPool) (excluded : List Upstream) (clock : ℕ → ℕ) (k : ℕ)
    (x : Result (Option Upstream) × UpstreamsPool)
    → Skips p excluded clock (suc k) 0
    → Selects (advance p) excluded clock k x
    → Selects p excluded clock (suc k) x
unfolding advance breaker_allows
Selects-advance p excluded clock k (ok (some u), q) first
      (m, lt, there, takes, before, index, us, st, br, pools, down) =
    (
      m + 1,
      omega arith,
      sym (offset_advance p m) ∙ there,
      ap (λ (i : ℕ). can_take p excluded (clock i) u) (omega arith) ∙ takes,
      (λ j h. Skips-all p excluded clock k m first before j (omega arith)),
      index
          ∙ ap (λ (i : ℕ). i % length p.upstreams)
              (add_assoc ((p.next_index + 1) % length p.upstreams) m 1)
          ∙ mod-add-mod (p.next_index + 1) (length p.upstreams) (m + 1)
          ∙ ap (λ (i : ℕ). i % length p.upstreams) (omega arith),
      us,
      st,
      br,
      pools,
      down,
    )
Selects-advance p excluded clock k (ok none, q) first (before, us, st, br, index, pools, down) = (
  Skips-all p excluded clock k k first before,
  us,
  st,
  br,
  index
      ∙ mod-add-mod (p.next_index + 1) (length p.upstreams) k
      ∙ ap (λ (i : ℕ). i % length p.upstreams) (omega arith),
  pools,
  down,
)
Selects-advance p excluded clock k (err e, q) first s = s
Selects-advance p excluded clock k (spinning, q) first s = s

can_take-advance :
    (p : UpstreamsPool) (excluded : List Upstream) (now : ℕ) (u : Upstream)
    → can_take (advance p) excluded now u ≡ can_take p excluded now u
unfolding advance breaker_allows
can_take-advance p excluded now u = refl

pub advance_in_range :
    (p : UpstreamsPool)
    → p.next_index < length p.upstreams
    → (advance p).next_index < length (advance p).upstreams
unfolding advance
advance_in_range p h = mod-lt (p.next_index + 1) (omega arith)

-- A round that takes its upstream.
taken_here :
    (p q : UpstreamsPool) (excluded : List Upstream) (clock : ℕ → ℕ) (k : ℕ) (u : Upstream)
    → p.next_index < length p.upstreams
    → get_elem? p.upstreams p.next_index ≡ some u
    → can_take p excluded (clock k) u ≡ true
    → Takes (advance p) q u
    → Selects p excluded clock (suc k) (ok (some u), q)
unfolding advance
taken_here p q excluded clock k u h there takes t = (
  0,
  omega arith,
  offset_zero p h ∙ there,
  ap (λ (i : ℕ). can_take p excluded (clock i) u) (omega arith) ∙ takes,
  (λ j lt. absurd (omega arith)),
  t.same_index ∙ ap (λ (i : ℕ). i % length p.upstreams) (omega arith),
  t.same_upstreams,
  t.same_status,
  t.others,
  t.same_pools,
  t.same_shutdown,
)

search_alive-Selects :
    (k : ℕ) (p : UpstreamsPool) (excluded : List Upstream) (clock : ℕ → ℕ)
    → p.next_index < length p.upstreams
    → Selects p excluded clock k (search_alive k p excluded clock)
unfolding search_alive
search_alive-Selects zero p excluded clock h = (
  (λ j lt. absurd (omega arith)),
  refl,
  refl,
  refl,
  sym (ap (λ (i : ℕ). i % length p.upstreams) (omega arith) ∙ mod-eq_of_lt h),
  refl,
  refl,
)
search_alive-Selects (suc k) p excluded clock h =
    let (u, there) = get_elem?-total p.upstreams p.next_index h in
    elim (Bool-cases (can_take p excluded (clock k) u)) [
      | inl yes' ↦
          let (e, t) =
            visit_take (advance p) excluded (clock k) u
              (can_take-advance p excluded (clock k) u ∙ yes') in
          rw (there, e, search_alive) (taken_here p _ excluded clock k u h there yes' t)
      | inr no' ↦
          let e =
            visit_skip (advance p) excluded (clock k) u
              (can_take-advance p excluded (clock k) u ∙ no') in
          let first : Skips p excluded clock (suc k) 0 = record {
            who = u;
            there = offset_zero p h ∙ there;
            refused = ap (λ (i : ℕ). can_take p excluded (clock i) u) (omega arith) ∙ no';
          } in
          let still : (visit (advance p) excluded (clock k) u).1 ≡ advance p =
            ap (λ (x : Option Upstream × UpstreamsPool). x.1) e in
          rw (there, e, search_alive)
            (rw still (
              Selects-advance p excluded clock k _ first
                (search_alive-Selects k (advance p) excluded clock (advance_in_range p h))))
    ]

-- With next_index in range get_next_alive never raises and returns the first upstream in cyclic
-- order that is not excluded, is alive and is let through by its breaker, changing nothing but
-- next_index and the breaker of the one returned; it returns none exactly when all were passed
-- over.
pub get_next_alive-Selects :
    (p : UpstreamsPool) (excluded : List Upstream) (clock : ℕ → ℕ)
    → p.next_index < length p.upstreams
    → Selects p excluded clock (length p.upstreams) (get_next_alive p excluded clock)
unfolding get_next_alive
get_next_alive-Selects p excluded clock h =
    search_alive-Selects (length p.upstreams) p excluded clock h
