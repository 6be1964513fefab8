-- ===== src/UpstreamPool/Status.antt =====
-- Healthchecks decide which upstreams are taken; a pool that was shut down serves nothing.
use nginx_remake_v.Prelude.{
  ℕ, ◌<◌, ◌≡◌, refl, sym, subst, ◌≢◌, inl, inr, Bool, true, false, not, ◌&&◌, Option, none, some,
  List, [], ◌∷◌, arith, if◌then◌else◌, Bool-cases, Option-cases, length, ◌==◌, number_keys,
  text_keys,
}
use nginx_remake_v.Prelude.Dict.{Dict, lookup, lookup-insert}
use nginx_remake_v.Exec.{Exception, runtime_error, Result, ok, err, spinning}
use nginx_remake_v.ConnectionPool.{PerUpstreamPool, Opened}
use nginx_remake_v.ConnectionPool.Reuse.{shutdown_idle}
use nginx_remake_v.CircuitBreaker.{CircuitBreakerConfig}
use nginx_remake_v.ConnectionPool.{UpstreamKeepAliveConfig}
use nginx_remake_v.Exec.{value_error, spinning}
use nginx_remake_v.UpstreamPool.{
  search_alive, visit, advance, has_duplicate, member, upstream_eq_iff,
}
use nginx_remake_v.Prelude.{zero, suc, Option-cases, get_elem?, length, inl, inr}
use nginx_remake_v.UpstreamPool.{is_valid_init, upstreams_pool}
use nginx_remake_v.UpstreamPool.{
  Upstream, UpstreamsPool, upstream_keys, upstream_eq_iff, bool_eq, member, is_alive,
  get_next_alive, set_status, healthcheck, enter_connection, shutdown, shut_pools,
}
use nginx_remake_v.UpstreamPool.Selection.{Selects, get_next_alive-Selects}

-- set_status changes the status of the given upstream alone, and of that only if it is known.
pub set_status_lem :
    (p : UpstreamsPool) (u v : Upstream) (a : Bool)
    → lookup v (set_status p u a).status ≡ (
        if u == v
        then (elim (lookup u p.status) [ none ↦ none | some b ↦ some a ])
        else lookup v p.status)
unfolding set_status
set_status_lem p u v a = elim (Option-cases (lookup u p.status)) [
  | inl e ↦ ground (arith, e, upstream_eq_iff u v)
  | inr (b, e) ↦ elim (Bool-cases (bool_eq b a)) [
    | inl same ↦ ground (arith, e, same, same_bool b a same, upstream_eq_iff u v)
    | inr differs ↦ ground (arith, e, differs, lookup-insert u v a p.status, upstream_eq_iff u v)
  ]
]
  where
    same_bool : (b c : Bool) → bool_eq b c ≡ true → b ≡ c
    same_bool true true h = refl
    same_bool true false h = cc
    same_bool false true h = cc
    same_bool false false h = refl

set_status-same :
    (p : UpstreamsPool) (u : Upstream) (a : Bool)
    → ((set_status p u a).upstreams ≡ p.upstreams) × ((set_status p u a).next_index ≡ p.next_index)
unfolding set_status
set_status-same p u a = ground arith

selected_alive :
    (q : UpstreamsPool) (excluded : List Upstream) (clock : ℕ → ℕ) (k : ℕ) (v : Upstream)
    (x : Result (Option Upstream) × UpstreamsPool)
    → Selects q excluded clock k x
    → x.0 ≡ ok (some v)
    → is_alive q v ≡ true
selected_alive q excluded clock k v (ok (some u), q')
      (m, lt, there, takes, before, index, us, st, br, pools, down) e =
    let here : u ≡ v = ground (arith, e) in
    rw (← here) (and_parts (not (member u excluded)) (is_alive q u) _ takes)
  where
    and_parts : (a b c : Bool) → (a && (b && c)) ≡ true → b ≡ true
    and_parts true b c h = ground (arith, h)
    and_parts false b c h = cc
selected_alive q excluded clock k v (ok none, q') s e = ground (arith, e)
selected_alive q excluded clock k v (err y, q') s e = elim s [ ]
selected_alive q excluded clock k v (spinning, q') s e = elim s [ ]

now_dead : (p : UpstreamsPool) (u : Upstream) → is_alive (set_status p u false) u ≡ false
now_dead p u =
    let law = set_status_lem p u u false in
    elim (Option-cases (lookup u p.status)) [
      | inl e ↦ ground (arith, law, e, upstream_eq_iff u u)
      | inr (b, e) ↦ ground (arith, law, e, upstream_eq_iff u u)
    ]

-- With next_index in range, an upstream whose healthcheck failed, by whatever exception, is not
-- returned by the next get_next_alive.
pub dead_not_selected :
    (p : UpstreamsPool) (u v : Upstream) (e : Exception) (excluded : List Upstream) (clock : ℕ → ℕ)
    → p.next_index < length p.upstreams
    → (get_next_alive (healthcheck p u (err e)).1 excluded clock).0 ≡ ok (some v)
    → u ≢ v
unfolding healthcheck
dead_not_selected p u v e excluded clock h r same =
    let q = set_status p u false in
    let (us, index) = set_status-same p u false in
    let alive =
      selected_alive q excluded clock (length q.upstreams) v _
        (get_next_alive-Selects q excluded clock (rw (us, index) h)) r in
    ground (arith, now_dead p u, subst (λ (x : Upstream). is_alive q x ≡ true) (sym same) alive)

-- No pool holds an idle connection.
abbrev pub AreEmpty : Dict Upstream PerUpstreamPool → Type 0
AreEmpty [] = Unit
AreEmpty ((u, c) ∷ d) = (c.idle ≡ []) × AreEmpty d

shut_pools-AreEmpty : (d : Dict Upstream PerUpstreamPool) → AreEmpty (shut_pools d)
unfolding shut_pools
shut_pools-AreEmpty [] = tt
shut_pools-AreEmpty ((u, c) ∷ d) = (shutdown_idle c, shut_pools-AreEmpty d)

-- After shutdown get_next_alive returns none, acquire_connection raises RuntimeError, and no pool
-- holds an idle connection.
pub shutdown_stops :
    (p : UpstreamsPool) (u : Upstream) (now : ℕ) (o : Opened) (excluded : List Upstream)
    (clock : ℕ → ℕ)
    → ((get_next_alive (shutdown p) excluded clock).0 ≡ ok none)
      × ((enter_connection (shutdown p) u now o).0 ≡ err runtime_error)
      × AreEmpty (shutdown p).pools
unfolding shutdown get_next_alive enter_connection
shutdown_stops p u now o excluded clock = (refl, refl, shut_pools-AreEmpty p.pools)

pub upstreams_pool_invalid :
    (us : List Upstream) (max_conns : ℕ) (cb : Option CircuitBreakerConfig)
    (ka : Option UpstreamKeepAliveConfig) (second : ℕ)
    → is_valid_init us max_conns ≡ false
    → upstreams_pool us max_conns cb ka second ≡ err value_error
unfolding upstreams_pool
upstreams_pool_invalid us max_conns cb ka second bad = ground (arith, bad)

-- A pool that was shut down says so, and selects nothing.
pub shutdown_selects_none :
    (p : UpstreamsPool) (excluded : List Upstream) (clock : ℕ → ℕ)
    → ((get_next_alive (shutdown p) excluded clock).0 ≡ ok none) × ((shutdown p).is_shutdown ≡ true)
unfolding shutdown get_next_alive
shutdown_selects_none p excluded clock = (refl, refl)

search_alive_ends :
    (k : ℕ) (p : UpstreamsPool) (excluded : List Upstream) (clock : ℕ → ℕ)
    → (search_alive k p excluded clock).0 ≢ spinning
unfolding search_alive
search_alive_ends zero p excluded clock = λ e. cc
search_alive_ends (suc k) p excluded clock =
    elim (Option-cases (get_elem? p.upstreams p.next_index)) [
      | inl e ↦ rw (e, search_alive) (λ f. cc)
      | inr (u, e) ↦ elim (Option-cases (visit (advance p) excluded (clock k) u).0) [
        | inl f ↦
            rw (e, f, search_alive)
              (search_alive_ends k (visit (advance p) excluded (clock k) u).1 excluded clock)
        | inr (v, f) ↦ rw (e, f, search_alive) (λ g. cc)
      ]
    ]

-- It returns or raises.
pub get_next_alive_ends :
    (p : UpstreamsPool) (excluded : List Upstream) (clock : ℕ → ℕ)
    → (get_next_alive p excluded clock).0 ≢ spinning
unfolding get_next_alive
get_next_alive_ends p excluded clock = search_alive_ends (length p.upstreams) p excluded clock

-- A list that begins with an upstream twice is refused.
pub repeated_invalid :
    (u : Upstream) (us : List Upstream) (max_conns : ℕ)
    → is_valid_init (u ∷ u ∷ us) max_conns ≡ false
unfolding is_valid_init has_duplicate member
repeated_invalid u us max_conns = ground (arith, (upstream_eq_iff u u).1 refl)
