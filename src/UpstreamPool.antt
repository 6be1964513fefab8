-- ===== src/UpstreamPool.antt =====
-- `UpstreamsPool` of proxy/upstream_pool.py, and `Upstream` of proxy/models.py.
--
-- A method runs with no other task between its parts; how tasks interleave on one connection pool is
-- in ConnectionPool/Permits. How a healthcheck's connection ends and how a connection opens are
-- arguments, and so are the readings of the clock; log lines are left out.
pub mod Selection
pub mod Rotation
pub mod Probing
pub mod Status
pub mod Permits
mod Tests
use nginx_remake_v.Prelude.{
  ℕ, zero, suc, ◌+◌, ◌-◌, ◌*◌, ◌/◌, ◌%◌, ◌≤◌, ◌<◌, min, max, ◌≡◌, refl, sym, ap, ◌∙◌, subst, ◌≢◌,
  ◌↔◌, ◌⊎◌, inl, inr, Bool, true, false, not, ◌&&◌, ◌||◌, Option, none, some, List, [], ◌∷◌, ◌++◌,
  map, append-nil, append_assoc, arith, ap₂, ltb, leb, eqb, if◌then◌else◌, ltb→lt, leb→le, eqb_iff,
  Bool-cases, Option-cases, length, get_elem?, take, drop, length-append, take-append-drop,
  length-take, length-drop, Text, Bytes, codes, text_eq, text_eq_iff, Key, ◌==◌, number_keys,
  text_keys,
}
use nginx_remake_v.Prelude.Dict.{
  Dict, lookup, insert, lookup-insert, lookup-insert_self, lookup-insert_ne,
}
use nginx_remake_v.Exec.{
  Exception, index_error, runtime_error, value_error, Result, ok, err, spinning,
}
use nginx_remake_v.CircuitBreaker
use nginx_remake_v.CircuitBreaker.{
  CircuitBreaker, CircuitBreakerConfig, circuit_breaker, allow_request,
}
use nginx_remake_v.ConnectionPool
use nginx_remake_v.ConnectionPool.{
  PooledConnection, PerUpstreamPool, UpstreamKeepAliveConfig, per_upstream_pool, Opened,
}

pub record Upstream : Type 0 where
  pub host : Text
  pub port : ℕ
  pub tls : Bool

abbrev pub bool_eq : Bool → Bool → Bool
bool_eq true b = b
bool_eq false b = not b

-- The equality that `@dataclass(frozen=True)` derives.
abbrev pub upstream_eq : Upstream → Upstream → Bool
upstream_eq u v = text_eq u.host v.host && (eqb u.port v.port && bool_eq u.tls v.tls)

pub upstream_eq_iff : (u v : Upstream) → (upstream_eq u v ≡ true) ↔ (u ≡ v)
upstream_eq_iff u v = ground (arith, text_eq_iff u.host v.host)

instance abbrev pub upstream_keys : Key Upstream
upstream_keys = record { equal = upstream_eq; equal_iff = upstream_eq_iff }

pub record UpstreamsPool : Type 0 where
  pub upstreams : List Upstream
  pub next_index : ℕ
  pub status : Dict Upstream Bool
  pub is_shutdown : Bool
  pub pools : Dict Upstream PerUpstreamPool
  pub breakers : Dict Upstream CircuitBreaker

-- `u in ...`
pub member : Upstream → List Upstream → Bool
member u [] = false
member u (v ∷ vs) = u == v || member u vs

-- `if upstream in seen: raise`, with the upstreams seen so far.
has_duplicate : List Upstream → List Upstream → Bool
unfolding member
has_duplicate seen [] = false
has_duplicate seen (u ∷ us) = member u seen || has_duplicate (u ∷ seen) us

-- `_validate_init_params`
pub is_valid_init : List Upstream → ℕ → Bool
unfolding has_duplicate
is_valid_init [] max_conns = false
is_valid_init (u ∷ us) max_conns = not (eqb max_conns 0) && not (has_duplicate [] (u ∷ us))

-- `upstream_keepalive or UpstreamKeepAliveConfig()`
or_default : Option UpstreamKeepAliveConfig → ℕ → UpstreamKeepAliveConfig
or_default (some c) second = c
or_default none second = record { max_idle = 50; idle_timeout = 30 * second; max_requests = 200 }

-- `UpstreamsPool(...)`; `second` is the number of ticks in a second, for the default timeout of 30 s.
pub upstreams_pool :
    List Upstream
    → ℕ
    → Option CircuitBreakerConfig
    → Option UpstreamKeepAliveConfig
    → ℕ
    → Result UpstreamsPool
unfolding or_default
upstreams_pool us max_conns cb ka second =
    if is_valid_init us max_conns
    then ok (record {
      upstreams = us;
      next_index = 0;
      status = map (λ u. (u, true)) us;
      is_shutdown = false;
      pools = map (λ u. (u, per_upstream_pool max_conns (or_default ka second))) us;
      breakers = elim cb [ none ↦ [] | some c ↦ map (λ u. (u, circuit_breaker c)) us ];
    })
    else err value_error

alive_in : Dict Upstream Bool → List Upstream
alive_in [] = []
alive_in ((u, a) ∷ d) = if a then u ∷ alive_in d else alive_in d

-- `alive_upstreams`
pub alive_upstreams : UpstreamsPool → List Upstream
unfolding alive_in
alive_upstreams p = alive_in p.status

-- `self._status.get(upstream, False)`
abbrev pub is_alive : UpstreamsPool → Upstream → Bool
is_alive p u = elim (lookup u p.status) [ none ↦ false | some a ↦ a ]

-- The tests of one round of `get_next_alive` on its upstream.
pub visit : UpstreamsPool → List Upstream → ℕ → Upstream → Option Upstream × UpstreamsPool
visit p excluded now u =
    if member u excluded
    then (none, p)
    else if not (is_alive p u)
    then (none, p)
    else elim (lookup u p.breakers) [
      | none ↦ (some u, p)
      | some b ↦
          let (allowed, b') = allow_request b now in
          (if allowed then some u else none, record p { breakers = insert u b' p.breakers })
    ]

-- `self._next_index = (self._next_index + 1) % count`
pub advance : UpstreamsPool → UpstreamsPool
advance p = record p { next_index = (p.next_index + 1) % length p.upstreams }

-- The rounds that are left; `clock k` is what the clock reads with `k` rounds to go.
search_alive :
    ℕ → UpstreamsPool → List Upstream → (ℕ → ℕ) → Result (Option Upstream) × UpstreamsPool
search_alive zero p excluded clock = (ok none, p)
search_alive (suc k) p excluded clock = elim (get_elem? p.upstreams p.next_index) [
  | none ↦ (err index_error, p)
  | some u ↦
      let rest = search_alive k (visit (advance p) excluded (clock k) u).1 excluded clock in
      elim (visit (advance p) excluded (clock k) u).0 [
        | some v ↦ (ok (some v), (visit (advance p) excluded (clock k) u).1)
        | none ↦ rest
      ]
]

pub get_next_alive :
    UpstreamsPool → List Upstream → (ℕ → ℕ) → Result (Option Upstream) × UpstreamsPool
unfolding search_alive
get_next_alive p excluded clock = search_alive (length p.upstreams) p excluded clock

pub record_success : UpstreamsPool → Upstream → UpstreamsPool
record_success p u = elim (lookup u p.breakers) [
  | none ↦ p
  | some b ↦ record p { breakers = insert u (CircuitBreaker.record_success b) p.breakers }
]

pub record_failure : UpstreamsPool → Upstream → ℕ → UpstreamsPool
record_failure p u now = elim (lookup u p.breakers) [
  | none ↦ p
  | some b ↦ record p { breakers = insert u (CircuitBreaker.record_failure b now) p.breakers }
]

pub set_status : UpstreamsPool → Upstream → Bool → UpstreamsPool
set_status p u alive = elim (lookup u p.status) [
  | none ↦ p
  | some old ↦ if bool_eq old alive then p else record p { status = insert u alive p.status }
]

-- `healthcheck(upstream)`, by how its connection ended: any exception counts as dead.
pub healthcheck : UpstreamsPool → Upstream → Result (Unit {0}) → Bool × UpstreamsPool
healthcheck p u (ok _) = (true, set_status p u true)
healthcheck p u (err e) = (false, set_status p u false)
healthcheck p u spinning = (false, p)

-- `run_initial_healthcheck`, by the order in which the checks end.
pub run_healthchecks : UpstreamsPool → List (Upstream × Result (Unit {0})) → UpstreamsPool
run_healthchecks p [] = p
run_healthchecks p ((u, x) ∷ ends) = run_healthchecks (healthcheck p u x).1 ends

-- The entry of `acquire_connection`, and the connections that it closed.
pub enter_connection :
    UpstreamsPool
    → Upstream
    → ℕ
    → Opened
    → Result PooledConnection × UpstreamsPool × List PooledConnection
enter_connection p u now o =
    if p.is_shutdown then (err runtime_error, p, []) else elim (lookup u p.pools) [
      | none ↦ (err runtime_error, p, [])
      | some c ↦
          let (r, c', closed) = ConnectionPool.acquire c now o in
          (r, record p { pools = insert u c' p.pools }, closed)
    ]

-- Its exit: the pool object found at the entry takes the connection back.
pub exit_connection :
    UpstreamsPool → Upstream → PooledConnection → ℕ → UpstreamsPool × List PooledConnection
exit_connection p u conn now = elim (lookup u p.pools) [
  | none ↦ (p, [])
  | some c ↦
      let (c', closed) = ConnectionPool.release c conn now in
      (record p { pools = insert u c' p.pools }, closed)
]

shut_pools : Dict Upstream PerUpstreamPool → Dict Upstream PerUpstreamPool
shut_pools [] = []
shut_pools ((u, c) ∷ d) = (u, (ConnectionPool.shutdown c).0) ∷ shut_pools d

pub shutdown : UpstreamsPool → UpstreamsPool
unfolding shut_pools
shutdown p = record p {
  is_shutdown = true;
  pools = shut_pools p.pools;
  upstreams = [];
  status = [];
}
