-- ===== src/UpstreamPool/Tests.antt =====
-- The pool of upstreams on concrete states.
use nginx_remake_v.Prelude.{
  ℕ, zero, suc, ◌≡◌, refl, ◌≢◌, true, false, none, some, [], ◌∷◌, arith, get_elem?, codes,
  number_keys, text_keys,
}
use nginx_remake_v.Exec.{ok, err, runtime_error, connection_refused}
use nginx_remake_v.Stream.{stall}
use nginx_remake_v.CircuitBreaker.{CircuitBreaker, open_state, allow_request}
use nginx_remake_v.ConnectionPool.{
  PerUpstreamPool, PooledConnection, UpstreamKeepAliveConfig, failed, is_closed, at_eof,
}
use nginx_remake_v.UpstreamPool.{
  Upstream, UpstreamsPool, upstream_keys, member, is_alive, visit, advance, search_alive,
  get_next_alive, set_status, healthcheck, enter_connection, shutdown, is_valid_init,
}
use nginx_remake_v.UpstreamPool.Selection.{at_offset, Selects, get_next_alive-Selects}
use nginx_remake_v.UpstreamPool.Rotation.{IsReady, after_calls, round_robin}
use nginx_remake_v.Prelude.{List, ap}
use nginx_remake_v.Prelude.Dict.{lookup}
use nginx_remake_v.CircuitBreaker.{half_open}
use nginx_remake_v.UpstreamPool.Probing.{
  Call, chooses, succeeds, fails, marks, PassesOver, run, half_open_blocks,
}
use nginx_remake_v.UpstreamPool.Status.{dead_not_selected, AreEmpty, shutdown_stops}

abbrev server : ℕ → Upstream
server n = record { host = codes "a"; port = n; tls = false }

abbrev pool : UpstreamsPool
pool = record {
  upstreams = server 1 ∷ server 2 ∷ server 3 ∷ [];
  next_index = 0;
  status = (server 1, true) ∷ (server 2, true) ∷ (server 3, true) ∷ [];
  is_shutdown = false;
  pools = [];
  breakers = [];
}

abbrev config : UpstreamKeepAliveConfig
config = record { max_idle = 2; idle_timeout = 30; max_requests = 3 }

abbrev one : PerUpstreamPool
one = record { max_conns = 2; keepalive_cfg = config; permits = 1; idle = [] }

abbrev opened : CircuitBreaker
opened = record {
  config = record { failure_threshold = 2; cooldown = 30 };
  state = open_state;
  failure_count = 2;
  last_open_time = 7;
}

abbrev guarded : UpstreamsPool
guarded = record pool { breakers = (server 1, opened) ∷ [] }

abbrev clock : ℕ → ℕ
clock k = 20

-- The first upstream's breaker is open, so the second is taken.
passes_over : (get_next_alive guarded [] clock).0 ≡ ok (some (server 2))
unfolding get_next_alive search_alive visit advance member allow_request
passes_over = refl

excluded_all : (get_next_alive pool (server 1 ∷ server 2 ∷ server 3 ∷ []) clock).0 ≡ ok none
unfolding get_next_alive search_alive visit advance member
excluded_all = refl

rejects_duplicates : is_valid_init (server 1 ∷ server 2 ∷ server 1 ∷ []) 5 ≡ false
unfolding is_valid_init member
rejects_duplicates = refl

get_next_alive-Selects_example : Selects guarded [] clock 3 (get_next_alive guarded [] clock)
get_next_alive-Selects_example = get_next_alive-Selects guarded [] clock (omega arith)

alive_at : (i : ℕ) (u : Upstream) → get_elem? pool.upstreams i ≡ some u → is_alive pool u ≡ true
alive_at zero u h = ground (arith, h)
alive_at (suc zero) u h = ground (arith, h)
alive_at (suc (suc zero)) u h = ground (arith, h)
alive_at (suc (suc (suc i))) u h = cc

pool-IsReady : IsReady pool
pool-IsReady = record { alive = alive_at; shut = λ u b h. cc }

round_robin_example : (get_next_alive (after_calls 4 pool clock) [] clock).0 ≡ ok (at_offset pool 4)
round_robin_example = round_robin 4 pool clock pool-IsReady (omega arith)

abbrev failed_check : UpstreamsPool
failed_check = (healthcheck pool (server 1) (err connection_refused)).1

takes_next : (get_next_alive failed_check [] clock).0 ≡ ok (some (server 2))
unfolding get_next_alive search_alive visit advance member healthcheck set_status
takes_next = refl

dead_not_selected_example : server 1 ≢ server 2
dead_not_selected_example =
    dead_not_selected pool (server 1) (server 2) connection_refused [] clock (omega arith)
      takes_next

shutdown_stops_example :
    ((get_next_alive (shutdown pool) [] clock).0 ≡ ok none)
    × ((enter_connection (shutdown pool) (server 1) 5 (failed connection_refused)).0
        ≡ err runtime_error)
    × AreEmpty (shutdown pool).pools
shutdown_stops_example = shutdown_stops pool (server 1) 5 (failed connection_refused) [] clock

abbrev connection : PooledConnection
connection = record {
  reader = record { buffer = []; coming = stall ∷ [] };
  writer = record { written = []; closing = false; drains = [] };
  last_used = 4;
  request_count = 1;
}

connection_open : is_closed connection ≡ false
unfolding is_closed at_eof
connection_open = refl

abbrev probing : CircuitBreaker
probing = record opened { state = half_open }

abbrev probed : UpstreamsPool
probed = record pool { breakers = (server 1, probing) ∷ (server 2, opened) ∷ [] }

abbrev traffic : List Call
traffic =
    chooses [] clock
    ∷ succeeds (server 2)
    ∷ marks (server 1) false
    ∷ chooses (server 2 ∷ []) clock
    ∷ fails (server 3) 21
    ∷ marks (server 1) true
    ∷ chooses [] clock
    ∷ []

second_first : server 2 ≢ server 1
second_first e = omega (arith, ap (λ (u : Upstream). u.port) e)

third_first : server 3 ≢ server 1
third_first e = omega (arith, ap (λ (u : Upstream). u.port) e)

half_open_blocks_example :
    PassesOver (server 1) probed traffic
    × (lookup (server 1) (run probed traffic).breakers ≡ some probing)
half_open_blocks_example =
    half_open_blocks (server 1) probing probed traffic (omega arith) refl refl
      (second_first, (third_first, tt))
