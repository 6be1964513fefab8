-- ===== src/UpstreamPool/Permits.antt =====
-- The permits of the pools: a connection taken and given back leaves them as they were.
use nginx_remake_v.Prelude.{
  ℕ, zero, suc, ◌+◌, ◌≡◌, refl, ap, ◌∙◌, inl, inr, Option, none, some, List, arith, Bool-cases,
  Option-cases, length, get_elem?, number_keys, text_keys,
}
use nginx_remake_v.Prelude.Dict.{Dict, lookup, insert, lookup-insert, lookup-insert_self}
use nginx_remake_v.Exec.{Result, ok, err, spinning}
use nginx_remake_v.ConnectionPool.{PerUpstreamPool, PooledConnection, Opened, release, acquire}
use nginx_remake_v.ConnectionPool.Reuse.{Acquires, acquire-Acquires, release_cases}
use nginx_remake_v.UpstreamPool.{
  Upstream, UpstreamsPool, upstream_keys, upstream_eq_iff, visit, advance, search_alive,
  get_next_alive, record_success, record_failure, enter_connection, exit_connection,
}

-- The free permits of an upstream's pool.
abbrev pub permits_in : Option PerUpstreamPool → ℕ
permits_in none = 0
permits_in (some c) = c.permits

abbrev pub permits_of : UpstreamsPool → Upstream → ℕ
permits_of p v = permits_in (lookup v p.pools)

visit_pools :
    (p : UpstreamsPool) (excluded : List Upstream) (now : ℕ) (u : Upstream)
    → (visit p excluded now u).1.pools ≡ p.pools
unfolding visit
visit_pools p excluded now u = ground arith

search_alive_pools :
    (k : ℕ) (p : UpstreamsPool) (excluded : List Upstream) (clock : ℕ → ℕ)
    → (search_alive k p excluded clock).1.pools ≡ p.pools
unfolding search_alive advance
search_alive_pools zero p excluded clock = refl
search_alive_pools (suc k) p excluded clock =
    elim (Option-cases (get_elem? p.upstreams p.next_index)) [
      | inl e ↦ ground (arith, e)
      | inr (u, e) ↦ ground (
        arith,
        e,
        visit_pools (advance p) excluded (clock k) u,
        search_alive_pools k (visit (advance p) excluded (clock k) u).1 excluded clock,
      )
    ]

-- Choosing an upstream touches no pool of connections.
pub get_next_alive_pools :
    (p : UpstreamsPool) (excluded : List Upstream) (clock : ℕ → ℕ)
    → (get_next_alive p excluded clock).1.pools ≡ p.pools
unfolding get_next_alive
get_next_alive_pools p excluded clock = search_alive_pools (length p.upstreams) p excluded clock

pub record_success_pools : (p : UpstreamsPool) (u : Upstream) → (record_success p u).pools ≡ p.pools
unfolding record_success
record_success_pools p u = ground arith

pub record_failure_pools :
    (p : UpstreamsPool) (u : Upstream) (now : ℕ) → (record_failure p u now).pools ≡ p.pools
unfolding record_failure
record_failure_pools p u now = ground arith

-- The pools after `acquire_connection` was entered: one permit less for the upstream of a connection
-- that was given, and no change where it raised.
abbrev pub Enters : UpstreamsPool → Upstream → Result PooledConnection → UpstreamsPool → Type 0
Enters p u (ok c) p' =
    (before : PerUpstreamPool) × (after : PerUpstreamPool) × (lookup u p.pools ≡ some before)
    × (p'.pools ≡ insert u after p.pools)
    × (after.permits + 1 ≡ before.permits)
Enters p u (err e) p' = (v : Upstream) → permits_of p' v ≡ permits_of p v
Enters p u spinning p' = ⊥

Acquires-Enters :
    (p : UpstreamsPool) (u : Upstream) (c : PerUpstreamPool) (now : ℕ) (o : Opened)
    (x : Result PooledConnection × PerUpstreamPool × List PooledConnection)
    → lookup u p.pools ≡ some c
    → Acquires c now o x
    → Enters p u x.0 (record p { pools = insert u x.1 p.pools })
Acquires-Enters p u c now o (ok conn, c', closed) found (fewer, more) = (c, c', found, refl, fewer)
Acquires-Enters p u c now o (err e, c', closed) found (same, more) =
    λ v. ground (arith, lookup-insert u v c' p.pools, upstream_eq_iff u v, found, same)
Acquires-Enters p u c now o (spinning, c', closed) found a = absurd a

pub enter_connection-Enters :
    (p : UpstreamsPool) (u : Upstream) (now : ℕ) (o : Opened)
    → let (x, p', closed) = enter_connection p u now o in Enters p u x p'
unfolding enter_connection
enter_connection-Enters p u now o = elim (Bool-cases p.is_shutdown) [
  | inl e ↦ rw (e, enter_connection) (λ v. refl)
  | inr e ↦ elim (Option-cases (lookup u p.pools)) [
    | inl e' ↦ rw (e, e', enter_connection) (λ v. refl)
    | inr (c, e') ↦
        rw (e, e', enter_connection)
          (Acquires-Enters p u c now o (acquire c now o) e' (acquire-Acquires c now o))
  ]
]

exit_connection_lem :
    (q : UpstreamsPool) (u : Upstream) (c : PerUpstreamPool) (conn : PooledConnection) (now : ℕ)
    → lookup u q.pools ≡ some c
    → (exit_connection q u conn now).0.pools ≡ insert u (release c conn now).0 q.pools
unfolding exit_connection
exit_connection_lem q u c conn now e = ground (arith, e)

-- The exit gives back the permit that the entry took, whatever was done with the connection, and
-- with the rest of the pools' state, in between.
pub exit-enter_permits :
    (p p' q : UpstreamsPool) (u v : Upstream) (c conn : PooledConnection) (now : ℕ)
    → Enters p u (ok c) p'
    → q.pools ≡ p'.pools
    → permits_of (exit_connection q u conn now).0 v ≡ permits_of p v
exit-enter_permits p p' q u v c conn now (before, after, found, taken, fewer) same =
    let there : lookup u q.pools ≡ some after =
      rw (same, taken) (lookup-insert_self u after p.pools) in
    let (more, rest) = release_cases after conn now in
    let back = (release after conn now).0 in
    let end : (exit_connection q u conn now).0.pools ≡ insert u back (insert u after p.pools) =
      exit_connection_lem q u after conn now there ∙ ap (insert u back) (same ∙ taken) in
    ap (λ (d : Dict Upstream PerUpstreamPool). permits_in (lookup v d)) end
    ∙ ground (
      arith,
      lookup-insert u v back (insert u after p.pools),
      lookup-insert u v after p.pools,
      upstream_eq_iff u v,
      found,
      more,
      fewer,
    )
