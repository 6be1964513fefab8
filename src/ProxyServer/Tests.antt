-- ===== src/ProxyServer/Tests.antt =====
-- `ReverseProxy` on concrete values.
use nginx_remake_v.Prelude.{
  ℕ, zero, suc, ◌+◌, ◌-◌, ◌/◌, ◌≤◌, ◌<◌, ◌≡◌, refl, ◌≢◌, ◌⊎◌, Bool, true, false, none, [], ◌∷◌,
  arith, codes, number_keys, text_keys,
}
use nginx_remake_v.Exec.{ok, Coro}
use nginx_remake_v.Stream
use nginx_remake_v.Stream.{StreamReader, StreamWriter}
use nginx_remake_v.RateLimiter.{Readings}
use nginx_remake_v.ConnectionPool.{PerUpstreamPool, UpstreamKeepAliveConfig}
use nginx_remake_v.UpstreamPool.{Upstream, UpstreamsPool, get_next_alive, is_valid_init}
use nginx_remake_v.UpstreamPool.Status.{repeated_invalid}
use nginx_remake_v.ClientHandler.{ClientHandler, KeepAliveConfig}
use nginx_remake_v.ProxyServer.{ReverseProxy, Connection, Turn, Timeouts, handle_connection}
use nginx_remake_v.ProxyServer.Control.{stop, NewConfig, reload_config}
use nginx_remake_v.ProxyServer.Loop.{Serves}
use nginx_remake_v.ProxyServer.Closing.{Closed, handle_connection-Closed}
use nginx_remake_v.ProxyServer.Rounds.{max_requests_agree}
use nginx_remake_v.ProxyServer.Stopping.{Turned, stop-refuses, stop_waits, reload_duplicate}

abbrev server : ℕ → Upstream
server n = record { host = codes "a"; port = n; tls = false }

abbrev upstream_keep_alive : UpstreamKeepAliveConfig
upstream_keep_alive = record { max_idle = 2; idle_timeout = 30; max_requests = 3 }

abbrev connections : PerUpstreamPool
connections = record { max_conns = 2; keepalive_cfg = upstream_keep_alive; permits = 2; idle = [] }

abbrev upstreams : UpstreamsPool
upstreams = record {
  upstreams = server 1 ∷ [];
  next_index = 0;
  status = (server 1, true) ∷ [];
  is_shutdown = false;
  pools = (server 1, connections) ∷ [];
  breakers = [];
}

abbrev two_requests : KeepAliveConfig
two_requests = record { enabled = true; timeout_ms = 60000; max_requests = 2 }

abbrev half_second : Timeouts
half_second = record { connect_ms = 100; read_ms = 200; write_ms = 200; total_ms = 500 }

abbrev proxy : ReverseProxy
proxy = record {
  pool = upstreams;
  timeouts = half_second;
  max_conns = 5;
  keepalive = two_requests;
  rate_limiter = none;
  retry_config = record { max_retries = 1; base_delay_ms = 100; max_delay_ms = 1000 };
  listening = true;
  is_shutting_down = false;
  shutdown_event = false;
  metrics = record {
    total_requests = 0;
    active_connections = 3;
    total_bytes_in = 0;
    total_bytes_out = 0;
    status_counts = [];
    latency_buckets = [];
  };
  permits = 2;
  client_tasks = 4 ∷ 6 ∷ 8 ∷ [];
}

abbrev client : Connection
client = record {
  server = proxy;
  reader = record { buffer = []; coming = [] };
  writer = record { written = []; closing = false; drains = [] };
}

abbrev quiet_turn : ℕ → Turn
quiet_turn n = record { stopping = false; chosen_at = λ k. n; made_at = n; cut_at = n }

abbrev readings : Readings
readings = record { at_global = 1; at_create = 1; at_client = 1 }

-- A handler that answers with one letter and keeps the connection alive.
abbrev letters : ℕ → Coro ClientHandler Bool
letters n h = (ok true, record h { client_writer = Stream.write ((65 + n) ∷ []) h.client_writer })

letters-Serves : Serves letters
letters-Serves = record { ends = λ n h e. cc; quiet = λ n h. refl }

handle_connection-Closed_example :
    Closed proxy (handle_connection 1 quiet_turn letters 9 none readings client)
handle_connection-Closed_example =
    handle_connection-Closed 1 quiet_turn letters 9 none readings client letters-Serves
      (omega arith)

-- The same for two requests, and silent after them.
abbrev two_only : ℕ → Coro ClientHandler Bool
two_only zero h = letters 0 h
two_only (suc zero) h = letters 1 h
two_only (suc (suc n)) h = (ok true, h)

same_first : (n : ℕ) (h : ClientHandler) → n < 2 → letters n h ≡ two_only n h
same_first zero h few = refl
same_first (suc zero) h few = refl
same_first (suc (suc n)) h few = absurd (omega arith)

max_requests_agree_example :
    handle_connection 1 quiet_turn letters 9 none readings client
    ≡ handle_connection 1 quiet_turn two_only 9 none readings client
max_requests_agree_example =
    max_requests_agree 1 quiet_turn letters two_only 9 none readings client same_first

-- The active connections as the checks read them: fewer with each.
abbrev leaving : ℕ → ℕ
leaving n = 3 - n

stop-refuses_example :
    let c' : Connection = record client { server = (stop leaving [] proxy).server } in
    Turned 503 c' (handle_connection 1 quiet_turn letters 9 none readings c')
stop-refuses_example = stop-refuses leaving [] 1 quiet_turn letters 9 none readings client refl

stop_waits_example :
    let d = stop leaving (4 ∷ []) proxy in
    (d.sleeps ≤ 500 / 100)
    × ((i : ℕ) → i < d.sleeps → leaving i ≢ 0)
    × (((leaving d.sleeps ≡ 0) × (d.cancelled ≡ []))
        ⊎ ((0 < leaving d.sleeps) × (d.sleeps ≡ 500 / 100) × (d.cancelled ≡ 4 ∷ [])))
    × (stop leaving (4 ∷ []) d.server ≡ record { sleeps = 0; cancelled = []; server = d.server })
stop_waits_example = stop_waits leaving (4 ∷ []) proxy refl

abbrev twice : NewConfig
twice = record {
  upstreams = server 1 ∷ server 1 ∷ [];
  timeouts = half_second;
  max_client_conns = 5;
  max_conns_per_upstream = 2;
  keep_alive = two_requests;
  circuit_breaker = record { failure_threshold = 3; cooldown = 30 };
  upstream_keepalive = upstream_keep_alive;
  rate_limiter = none;
}

twice_invalid : is_valid_init (server 1 ∷ server 1 ∷ []) 2 ≡ false
twice_invalid = repeated_invalid (server 1) [] 2

reload_duplicate_example :
    let s' = reload_config 1000 (ok twice) proxy in
    ((get_next_alive s'.pool [] (λ k. 5)).0 ≡ ok none)
    × (s'.pool.is_shutdown ≡ true)
    × (s'.rate_limiter ≡ none)
    × (s'.keepalive ≡ two_requests)
reload_duplicate_example = reload_duplicate 1000 twice proxy [] (λ k. 5) twice_invalid
