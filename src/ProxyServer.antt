-- ===== src/ProxyServer.antt =====
-- `ReverseProxy` of proxy/proxy_server.py: a client's connection with its requests in turn, the stop,
-- the reload of the configuration, and the reaping of idle connections.
pub mod Control
pub mod Loop
pub mod Closing
pub mod Serving
pub mod Rounds
pub mod Stopping
mod Tests
use nginx_remake_v.Prelude.{
  ℕ, zero, suc, ◌+◌, ◌-◌, ◌*◌, ◌/◌, ◌%◌, ◌^◌, ◌≤◌, ◌<◌, min, max, ◌≡◌, refl, sym, ap, ◌∙◌, subst,
  ◌≢◌, ◌↔◌, ◌⊎◌, inl, inr, Bool, true, false, not, ◌&&◌, ◌||◌, Option, none, some, List, [], ◌∷◌,
  ◌++◌, map, append-nil, append_assoc, arith, ap₂, ltb, leb, eqb, if◌then◌else◌, ltb→lt, leb→le,
  eqb_iff, Bool-cases, Option-cases, length, get_elem?, take, drop, length-append, take-append-drop,
  length-take, length-drop, Text, Bytes, codes, text_eq, text_eq_iff, Key, ◌==◌, number_keys,
  text_keys,
}
use nginx_remake_v.Prelude.Dict.{
  Dict, lookup, insert, lookup-insert, lookup-insert_self, lookup-insert_ne,
}
use nginx_remake_v.Exec.{
  Exception, timeout_error, body_streamer_error, connection_refused, connection_reset, os_error,
  runtime_error, value_error, incomplete_read, index_error, Result, ok, err, spinning, Coro, pure,
  raise, ◌>>=◌, ◌>>◌,
}
use nginx_remake_v.Stream
use nginx_remake_v.Stream.{StreamReader, StreamWriter}
use nginx_remake_v.Messages.{send_error_response, is_os_error}
use nginx_remake_v.RateLimiter.{RateLimiter, Readings, allow}
use nginx_remake_v.ConnectionPool
use nginx_remake_v.ConnectionPool.{PerUpstreamPool, PooledConnection, UpstreamKeepAliveConfig}
use nginx_remake_v.CircuitBreaker.{CircuitBreakerConfig}
use nginx_remake_v.UpstreamPool
use nginx_remake_v.UpstreamPool.{
  Upstream, UpstreamsPool, upstreams_pool, get_next_alive, upstream_keys,
}
use nginx_remake_v.Metrics.{ProxyMetrics, inc_active, dec_active}
use nginx_remake_v.ClientHandler.{
  ClientHandler, KeepAliveConfig, RetryConfig, client_handler, record_metrics,
}

-- The limits of proxy/timeouts.py, in milliseconds.
pub record Timeouts : Type 0 where
  pub connect_ms : ℕ
  pub read_ms : ℕ
  pub write_ms : ℕ
  pub total_ms : ℕ

-- The server; `listening` says whether its socket is open, `permits` what the semaphore over all
-- connections has left. Tasks have numbers.
pub record ReverseProxy : Type 0 where
  pub pool : UpstreamsPool
  pub timeouts : Timeouts
  pub max_conns : ℕ
  pub keepalive : KeepAliveConfig
  pub rate_limiter : Option RateLimiter
  pub retry_config : RetryConfig
  pub listening : Bool
  pub is_shutting_down : Bool
  pub shutdown_event : Bool
  pub metrics : ProxyMetrics
  pub permits : ℕ
  pub client_tasks : List ℕ

-- `ReverseProxy(...)`, as `start` goes on with it: the semaphore is made, and the socket is open.
unfoldable pub reverse_proxy :
    UpstreamsPool
    → Timeouts
    → ℕ
    → ProxyMetrics
    → KeepAliveConfig
    → RetryConfig
    → Option RateLimiter
    → ReverseProxy
reverse_proxy pool timeouts max_conns metrics keepalive retry_config limiter = record {
  pool = pool;
  timeouts = timeouts;
  max_conns = max_conns;
  keepalive = keepalive;
  rate_limiter = limiter;
  retry_config = retry_config;
  listening = true;
  is_shutting_down = false;
  shutdown_event = false;
  metrics = metrics;
  permits = max_conns;
  client_tasks = [];
}

-- A task of `handle_connection`: the server, and the streams of its client.
pub record Connection : Type 0 where
  pub server : ReverseProxy
  pub reader : StreamReader
  pub writer : StreamWriter

-- `set.discard`, of a set without repetitions.
unfoldable pub discard : ℕ → List ℕ → List ℕ
discard t [] = []
discard t (u ∷ us) = let rest = u ∷ discard t us in if eqb t u then us else rest

-- What the world does in one round of the loop: whether another task has begun the stop when the loop
-- tests for it, and the clock's readings in `get_next_alive`, at the making of the handler, and in the
-- `record_metrics` behind a timeout.
pub record Turn : Type 0 where
  pub stopping : Bool
  pub chosen_at : ℕ → ℕ
  pub made_at : ℕ
  pub cut_at : ℕ

unfoldable pub close_writer : Coro Connection (Unit {0})
close_writer c = (ok tt, record c { writer = Stream.close c.writer })

unfoldable pub answer_error : ℕ → Coro Connection ℕ
answer_error code c = let (x, w) = send_error_response code c.writer in (x, record c { writer = w })

-- `_send_error_response`
unfoldable pub send_error : ℕ → Coro Connection (Unit {0})
send_error code = answer_error code >> close_writer

unfoldable pub pick : (ℕ → ℕ) → Coro Connection (Option Upstream)
pick clock c =
    let (x, pool) = get_next_alive c.server.pool [] clock in
    (x, record c { server = record c.server { pool = pool } })

unfoldable pub new_handler : Connection → Upstream → ℕ → ClientHandler
new_handler c u now = client_handler c.reader c.writer u c.server.pool c.server.metrics now

-- The pool, the metrics and the streams are objects that the handler shares; the wrapper that it put
-- round the reader is dropped, with the bytes put back in it.
unfoldable pub with_handler : Connection → ClientHandler → Connection
with_handler c h = record {
  server = record c.server { pool = h.pool; metrics = h.metrics };
  reader = h.client_reader.inner;
  writer = h.client_writer;
}

-- `self._is_shutting_down`, as a round reads it.
unfoldable pub notice : Turn → Connection → Connection
notice t c = record c {
  server = record c.server { is_shutting_down = c.server.is_shutting_down || t.stopping };
}

-- The `except TimeoutError` round a handler.
unfoldable pub time_out : ℕ → ℕ → Connection → ClientHandler → Result (Unit {0}) × Connection
time_out ms now c h =
    let c' = with_handler c (record_metrics ms now h) in
    if h.response_committed then (ok tt, c') else send_error 504 c'

-- What follows a handler; `again` is the next round.
unfoldable pub after_handler :
    ℕ
    → ℕ
    → (Bool → Coro Connection (Unit {0}))
    → Connection
    → Result Bool × ClientHandler
    → Result (Unit {0}) × Connection
after_handler ms now again c (ok keep_alive, h) =
    let rest = again keep_alive (with_handler c h) in
    if h.client_writer.closing then (ok tt, with_handler c h) else rest
after_handler ms now again c (err timeout_error, h) = time_out ms now c h
after_handler ms now again c (err body_streamer_error, h) =
    (err body_streamer_error, with_handler c h)
after_handler ms now again c (err connection_refused, h) =
    (err connection_refused, with_handler c h)
after_handler ms now again c (err connection_reset, h) = (err connection_reset, with_handler c h)
after_handler ms now again c (err (os_error n), h) = (err (os_error n), with_handler c h)
after_handler ms now again c (err runtime_error, h) = (err runtime_error, with_handler c h)
after_handler ms now again c (err value_error, h) = (err value_error, with_handler c h)
after_handler ms now again c (err incomplete_read, h) = (err incomplete_read, with_handler c h)
after_handler ms now again c (err index_error, h) = (err index_error, with_handler c h)
after_handler ms now again c (spinning, h) = (spinning, with_handler c h)

-- The exceptions that the `except` clauses round the loop catch.
unfoldable pub recover : Exception → Coro Connection (Unit {0})
recover timeout_error = pure tt
recover body_streamer_error = raise body_streamer_error
recover connection_refused = pure tt
recover connection_reset = pure tt
recover (os_error n) = pure tt
recover runtime_error = send_error 503
recover value_error = send_error 503
recover incomplete_read = raise incomplete_read
recover index_error = raise index_error

unfoldable pub recovered : Result (Unit {0}) × Connection → Result (Unit {0}) × Connection
recovered (ok _, c) = (ok tt, c)
recovered (err e, c) = recover e c
recovered (spinning, c) = (spinning, c)

-- The `finally` of the loop, the exit of the semaphore, and the `finally` of the task.
unfoldable pub clean_up : ℕ → Connection → Connection
clean_up task c = record c {
  writer = Stream.close c.writer;
  server = record c.server {
    metrics = dec_active c.server.metrics;
    permits = c.server.permits + 1;
    client_tasks = discard task c.server.client_tasks;
  };
}

unfoldable pub finish : ℕ → Result (Unit {0}) × Connection → Result (Unit {0}) × Connection
finish task (ok _, c) = (ok tt, clean_up task c)
finish task (err e, c) = (err e, clean_up task c)
finish task (spinning, c) = (spinning, c)

-- Once the semaphore is passed.
unfoldable pub admit : ℕ → ℕ → Connection → Connection
admit task left c = record c {
  server = record c.server {
    client_tasks = task ∷ c.server.client_tasks;
    permits = left;
    metrics = inc_active c.server.metrics;
  };
}

-- `peer` is the client's address; `serve n` is `asyncio.wait_for(handler.handle(), ...)` in round `n`:
-- what `handle` comes to, or a `TimeoutError` with the handler where it was cut.
module _ (ms : ℕ) (turn : ℕ → Turn) (serve : ℕ → Coro ClientHandler Bool) where
  unfoldable pub serve_with :
      (Bool → Coro Connection (Unit {0})) → ℕ → Option Upstream → Coro Connection (Unit {0})
  serve_with again n none c = send_error 503 c
  serve_with again n (some u) c =
      after_handler ms (turn n).cut_at again c (serve n (new_handler c u (turn n).made_at))

  -- The `while` loop from the round that is number `requests_handled`; the fuel is what is left of
  -- max_requests and one.
  unfoldable pub request_loop : ℕ → ℕ → Bool → Coro Connection (Unit {0})
  request_loop zero handled keep_alive c = (spinning, c)
  request_loop (suc k) handled keep_alive c =
      let c' = notice (turn handled) c in
      let next =
        (pick (turn handled).chosen_at >>= serve_with (request_loop k (handled + 1)) handled) c' in
      if not (keep_alive && not c'.server.is_shutting_down)
      then (ok tt, c')
      else if leb c'.server.keepalive.max_requests handled
      then (ok tt, c')
      else next

  -- With no permit left the task waits for another to give one back.
  unfoldable pub accept : ℕ → Coro Connection (Unit {0})
  accept task c = elim c.server.permits [
    | zero ↦ (spinning, c)
    | suc left ↦
        finish task (
          recovered (request_loop (c.server.keepalive.max_requests + 1) 0 true (admit task left c)))
  ]

  unfoldable pub limited : ℕ → Bool → Coro Connection (Unit {0})
  limited task true = accept task
  limited task false = send_error 429

  unfoldable pub handle_connection : ℕ → Option Text → Readings → Coro Connection (Unit {0})
  handle_connection task peer t c =
      if c.server.is_shutting_down then send_error 503 c else elim c.server.rate_limiter [
        | none ↦ accept task c
        | some r ↦
            let (passes, r') = allow r peer t in
            limited task passes (record c { server = record c.server { rate_limiter = some r' } })
      ]
