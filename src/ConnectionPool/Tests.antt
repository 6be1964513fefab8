-- ===== src/ConnectionPool/Tests.antt =====
-- The connection pool on concrete states.
use nginx_remake_v.Prelude.{
  ℕ, ◌+◌, ◌-◌, ◌≤◌, ◌<◌, ◌≡◌, refl, ◌⊎◌, true, false, [], ◌∷◌, ◌++◌, arith, length, number_keys,
  text_keys,
}
use nginx_remake_v.Exec.{ok, err, timeout_error, connection_refused}
use nginx_remake_v.Stream.{StreamReader, StreamWriter, stall}
use nginx_remake_v.ConnectionPool.{
  PooledConnection, UpstreamKeepAliveConfig, PerUpstreamPool, per_upstream_pool, connected, failed,
  start, finish_open, acquire, release, scan, is_usable, is_closed, close_connection,
}
use nginx_remake_v.ConnectionPool.Reuse.{Acquires, acquire-Acquires, release_cases}
use nginx_remake_v.ConnectionPool.Permits.{
  Shared, Reach, here, next, open_begin, open_ends, give_back, Inv, fresh, reachable_bounds,
}

abbrev config : UpstreamKeepAliveConfig
config = record { max_idle = 2; idle_timeout = 30; max_requests = 3 }

abbrev alive : StreamReader
alive = record { buffer = []; coming = stall ∷ [] }

abbrev fresh_writer : StreamWriter
fresh_writer = record { written = []; closing = false; drains = [] }

abbrev connection : ℕ → PooledConnection
connection n = record { reader = alive; writer = fresh_writer; last_used = 10; request_count = n }

abbrev pool : PerUpstreamPool
pool = record {
  max_conns = 2;
  keepalive_cfg = config;
  permits = 2;
  idle = connection 3 ∷ connection 2 ∷ [];
}

-- The first idle connection has served its share, the second is taken.
takes_second :
    (acquire pool 20 (failed connection_refused)).0 ≡ ok (record (connection 2) { last_used = 20 })
unfolding acquire start scan is_usable is_closed
takes_second = refl

-- A connection is opened with the count 1 and released with 2: with a limit of 2 it serves once.
serves_once :
    (release
      (record pool { keepalive_cfg = record config { max_requests = 2 } })
      (connection 1)
      20).0.idle
    ≡ pool.idle
unfolding release is_closed
serves_once = refl

acquires_nothing :
    (acquire (record pool { permits = 0 }) 20 (connected alive fresh_writer)).0 ≡ err timeout_error
unfolding acquire
acquires_nothing = refl

abbrev reached : Shared
reached = record {
  pool =
      (release
        (finish_open (start (per_upstream_pool 1 config) 5).1 6 (connected alive fresh_writer)).1
        (connection 1) 7).0;
  opens = 0 + 1 - 1;
  held = 0 + 1 - 1;
}

path_reached : Reach (fresh 1 config) reached
unfolding per_upstream_pool start scan finish_open
path_reached =
    next
      (next (next here (open_begin 5 (omega arith) refl))
        (open_ends 6 alive fresh_writer (omega arith)))
      (give_back (connection 1) 7 (omega arith))

reachable_bounds_example : Inv 1 2 reached
reachable_bounds_example = reachable_bounds 1 config reached path_reached

abbrev pool_of_two : PerUpstreamPool
pool_of_two = record pool { permits = 1 }

acquire-Acquires_example :
    Acquires pool_of_two 20
      (failed connection_refused)
      (acquire pool_of_two 20 (failed connection_refused))
acquire-Acquires_example = acquire-Acquires pool_of_two 20 (failed connection_refused)

release_cases_example :
    let (p', closed) = release pool_of_two (connection 1) 20 in
    let c' : PooledConnection = record (connection 1) { last_used = 20; request_count = 1 + 1 } in
    (p'.permits ≡ 1 + 1)
    × (((is_closed (connection 1) ≡ true) × (p'.idle ≡ pool.idle) × (closed ≡ []))
        ⊎ ((is_closed (connection 1) ≡ false)
            × (1 + 1 < 3)
            × (length pool.idle < 2)
            × (p'.idle ≡ pool.idle ++ c' ∷ [])
            × (closed ≡ []))
        ⊎ ((is_closed (connection 1) ≡ false)
            × ((3 ≤ 1 + 1) ⊎ (2 ≤ length pool.idle))
            × (p'.idle ≡ pool.idle)
            × (closed ≡ close_connection c' ∷ [])))
release_cases_example = release_cases pool_of_two (connection 1) 20
