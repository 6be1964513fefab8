-- ===== src/ProxyServer/Control.antt =====
-- The control of the server of proxy/proxy_server.py: `_stop`, `_reload_config`, and a round each of
-- `periodic_healthcheck` and `reap_idle_connections`.
use nginx_remake_v.Prelude.{
  ℕ, zero, suc, ◌+◌, ◌/◌, true, false, Option, some, List, [], ◌∷◌, ltb, eqb, if◌then◌else◌,
  number_keys, text_keys,
}
use nginx_remake_v.Prelude.Dict.{Dict}
use nginx_remake_v.Exec.{Result, ok, err, spinning}
use nginx_remake_v.RateLimiter.{RateLimiter}
use nginx_remake_v.ConnectionPool.{PerUpstreamPool, UpstreamKeepAliveConfig, close_idle}
use nginx_remake_v.CircuitBreaker.{CircuitBreakerConfig}
use nginx_remake_v.UpstreamPool
use nginx_remake_v.UpstreamPool.{Upstream, UpstreamsPool, upstreams_pool, run_healthchecks}
use nginx_remake_v.ClientHandler.{KeepAliveConfig}
use nginx_remake_v.ProxyServer.{ReverseProxy, Timeouts}

-- How often `_stop` sleeps, with so many steps left, from check number `n` on; `active n` is the number
-- of active connections that the check reads.
unfoldable pub polls : ℕ → ℕ → (ℕ → ℕ) → ℕ
polls zero n active = n
polls (suc k) n active = let later = polls k (n + 1) active in if eqb (active n) 0 then n else later

-- What `_stop` did: its sleeps of a tenth of a second, and the tasks that it cancelled.
pub record Stop : Type 0 where
  pub sleeps : ℕ
  pub cancelled : List ℕ
  pub server : ReverseProxy

-- `_stop`; `running` are the tasks of clients that are left after the wait.
unfoldable pub stop : (ℕ → ℕ) → List ℕ → ReverseProxy → Stop
stop active running s =
    if s.is_shutting_down
    then record { sleeps = 0; cancelled = []; server = s }
    else let n = polls (s.timeouts.total_ms / 100) 0 active in
      record {
        sleeps = n;
        cancelled = (if ltb 0 (active n) then running else []);
        server = record s {
          is_shutting_down = true;
          listening = false;
          pool = UpstreamPool.shutdown s.pool;
          shutdown_event = true;
        };
      }

-- What `_reload_config` takes of the new configuration.
pub record NewConfig : Type 0 where
  pub upstreams : List Upstream
  pub timeouts : Timeouts
  pub max_client_conns : ℕ
  pub max_conns_per_upstream : ℕ
  pub keep_alive : KeepAliveConfig
  pub circuit_breaker : CircuitBreakerConfig
  pub upstream_keepalive : UpstreamKeepAliveConfig
  pub rate_limiter : Option RateLimiter

-- The part behind the making of the new pool.
unfoldable pub change_pool : Result UpstreamsPool → NewConfig → ReverseProxy → ReverseProxy
change_pool (ok pool) c s = record s { pool = pool; rate_limiter = c.rate_limiter }
change_pool (err e) c s = s
change_pool spinning c s = s

-- `_reload_config`, by what `from_yaml` gives; `second` is the number of ticks in a second. Every
-- exception is only logged.
unfoldable pub reload_config : ℕ → Result NewConfig → ReverseProxy → ReverseProxy
reload_config second (err e) s = s
reload_config second spinning s = s
reload_config second (ok c) s =
    change_pool
      (upstreams_pool c.upstreams c.max_conns_per_upstream (some c.circuit_breaker)
        (some c.upstream_keepalive) second)
      c
      (record s {
        timeouts = c.timeouts;
        max_conns = c.max_client_conns;
        keepalive = c.keep_alive;
        pool = UpstreamPool.shutdown s.pool;
      })

-- One round of `reap_idle_connections`, with the clock's reading for each upstream.
unfoldable pub reap_pools :
    (Upstream → ℕ) → Dict Upstream PerUpstreamPool → Dict Upstream PerUpstreamPool
reap_pools clock [] = []
reap_pools clock ((u, c) ∷ d) = (u, (close_idle c (clock u)).0) ∷ reap_pools clock d

unfoldable pub reap_round : (Upstream → ℕ) → ReverseProxy → ReverseProxy
reap_round clock s = record s { pool = record s.pool { pools = reap_pools clock s.pool.pools } }

-- One round of `periodic_healthcheck`, by the order in which the checks end.
unfoldable pub healthcheck_round : List (Upstream × Result (Unit {0})) → ReverseProxy → ReverseProxy
healthcheck_round ends s = record s { pool = run_healthchecks s.pool ends }
