-- ===== src/ClientHandler.antt =====
-- `ClientHandler` of proxy/client_handler.py: one request of a client, with its retries.
pub mod ReadHead
pub mod Attempt
pub mod Handle
pub mod Passing
pub mod Answers
pub mod Forwarded
pub mod Handled
pub mod Concluding
pub mod Rounds
pub mod Permits
pub mod Balance
pub mod Rewriting
pub mod Recording
pub mod Recorded
pub mod Errors
pub mod Heads
mod Tests
use nginx_remake_v.Prelude.{
  ℕ, zero, suc, ◌+◌, ◌-◌, ◌*◌, ◌/◌, ◌%◌, ◌^◌, ◌≤◌, ◌<◌, min, max, ◌≡◌, refl, sym, ap, ◌∙◌, subst,
  ◌≢◌, ◌↔◌, ◌⊎◌, inl, inr, Bool, true, false, not, ◌&&◌, ◌||◌, Option, none, some, List, [], ◌∷◌,
  ◌++◌, map, append-nil, append_assoc, arith, ap₂, ltb, leb, eqb, if◌then◌else◌, ltb→lt, leb→le,
  eqb_iff, Bool-cases, Option-cases, length, get_elem?, take, drop, length-append, take-append-drop,
  length-take, length-drop, Text, Bytes, codes, text_eq, text_eq_iff, Key, ◌==◌, number_keys,
  text_keys,
}
use nginx_remake_v.Prelude.Dict.{
  Dict, lookup, insert, lookup-insert, lookup-insert_self, lookup-insert_ne,
}
use nginx_remake_v.Exec.{
  Exception, timeout_error, body_streamer_error, connection_refused, connection_reset, os_error,
  runtime_error, value_error, incomplete_read, index_error, Result, ok, err, spinning, Coro, pure,
  raise, ◌>>=◌, ◌>>◌,
}
use nginx_remake_v.Stream
use nginx_remake_v.Stream.{StreamWriter}
use nginx_remake_v.BufferedReader
use nginx_remake_v.BufferedReader.{UnreadableStreamReader, wrap}
use nginx_remake_v.BodyStreamer.{Link}
use nginx_remake_v.Python.{Unicode}
use nginx_remake_v.Headers.{HttpRequest}
use nginx_remake_v.Messages.{
  HttpResponse, request_to_bytes, response_to_bytes, parse_request, parse_response, safe_method,
  is_connection_close, get_or_empty, stream_request, stream_response, send_error_response,
}
use nginx_remake_v.ConnectionPool.{PooledConnection, Opened, close_connection}
use nginx_remake_v.UpstreamPool
use nginx_remake_v.UpstreamPool.{
  Upstream, UpstreamsPool, get_next_alive, enter_connection, exit_connection,
}
use nginx_remake_v.Metrics.{ProxyMetrics, inc_requests, add_bytes, record_status, record_latency}
use nginx_remake_v.ClientHandler.ReadHead.{Intake, read_head}

pub record KeepAliveConfig : Type 0 where
  pub enabled : Bool
  pub timeout_ms : ℕ
  pub max_requests : ℕ

pub record RetryConfig : Type 0 where
  pub max_retries : ℕ
  pub base_delay_ms : ℕ
  pub max_delay_ms : ℕ

-- What does not change while a request is handled: the configuration, the address of the client, the
-- fuel for the loops, and how many ticks of the clock make a millisecond.
pub record Settings : Type 0 where
  pub unicode : Unicode
  pub keepalive : KeepAliveConfig
  pub retry_config : RetryConfig
  pub chunk_size : ℕ
  pub peer : Option Text
  pub fuel : ℕ
  pub ms : ℕ

-- What the world does in one attempt: the clock's readings at `acquire`, in `get_next_alive` and at
-- `release`, and how a connection opens.
pub record Surroundings : Type 0 where
  pub acquired_at : ℕ
  pub opened : Opened
  pub chosen_at : ℕ → ℕ
  pub released_at : ℕ

pub record ClientHandler : Type 0 where
  pub client_reader : UnreadableStreamReader
  pub client_writer : StreamWriter
  pub upstream : Upstream
  pub pool : UpstreamsPool
  pub metrics : ProxyMetrics
  pub bytes_in : ℕ
  pub bytes_out : ℕ
  pub status_code : ℕ
  pub successful_request : Bool
  pub response_committed : Bool
  pub metrics_recorded : Bool
  pub start_request_time : ℕ
  -- how long it has slept before retries, in milliseconds
  pub sleeps : List ℕ

-- `ClientHandler(...)`
unfoldable pub client_handler :
    Stream.StreamReader → StreamWriter → Upstream → UpstreamsPool → ProxyMetrics → ℕ → ClientHandler
client_handler r w u pool metrics now = record {
  client_reader = wrap r;
  client_writer = w;
  upstream = u;
  pool = pool;
  metrics = metrics;
  bytes_in = 0;
  bytes_out = 0;
  status_code = 0;
  successful_request = true;
  response_committed = false;
  metrics_recorded = false;
  start_request_time = now;
  sleeps = [];
}

module _ (s : Settings) where
  unfoldable pub should_keep_alive : HttpRequest → Bool
  should_keep_alive req =
      if not s.keepalive.enabled
      then false
      else if is_connection_close s.unicode req.headers
      then false
      else if text_eq req.version (codes "HTTP/1.1")
      then true
      else if text_eq req.version (codes "HTTP/1.0")
      then text_eq (s.unicode.lower (get_or_empty (codes "connection") req.headers))
          (codes "keep-alive")
      else false

  unfoldable pub should_retry : Text → HttpResponse → Bool
  should_retry method resp =
      safe_method s.unicode method && (leb 500 resp.status_code && ltb resp.status_code 600)

  abbrev pub connection_value : Bool → Text
  connection_value keep_alive = if keep_alive then codes "keep-alive" else codes "close"

  -- `f"{existing}, {peer[0]}" if existing else peer[0]`
  unfoldable pub forwarded_for : Text → Text → Text
  forwarded_for [] address = address
  forwarded_for (c ∷ existing) address = (c ∷ existing) ++ (codes ", " ++ address)

  unfoldable pub add_forwarded_for : Dict Text Text → Dict Text Text
  add_forwarded_for h = elim s.peer [
    | none ↦ h
    | some address ↦
        insert (codes "x-forwarded-for")
          (forwarded_for (get_or_empty (codes "x-forwarded-for") h) address) h
  ]

  unfoldable pub request_headers : Dict Text Text → Bool → Dict Text Text
  request_headers headers keep_alive =
      let h1 = add_forwarded_for headers in
      let h2 = insert (codes "x-forwarded-proto") (codes "http") h1 in
      let h3 = insert (codes "x-forwarded-host") (get_or_empty (codes "host") h2) h2 in
      let h4 = insert (codes "via") (codes "1.1 nginx_remake") h3 in
      insert (codes "connection") (connection_value keep_alive) h4

  unfoldable pub modify_request_headers : HttpRequest → Bool → HttpRequest
  modify_request_headers req keep_alive = record req {
    headers = request_headers req.headers keep_alive;
  }

  unfoldable pub modify_response_headers : HttpResponse → Bool → HttpResponse
  modify_response_headers resp keep_alive = record resp {
    headers =
        insert (codes "connection") (connection_value keep_alive)
          (insert (codes "via") (codes "1.1 nginx_remake") resp.headers);
  }

  -- `min(base_delay * (2**attempt), max_delay)`, in milliseconds.
  unfoldable pub retry_delay : ℕ → ℕ
  retry_delay attempt = min (s.retry_config.base_delay_ms * 2 ^ attempt) s.retry_config.max_delay_ms

pub answered : ClientHandler → Result ℕ × StreamWriter → Result (Unit {0}) × ClientHandler
answered h (ok n, w) = (ok tt, record h { client_writer = w; bytes_out = h.bytes_out + n })
answered h (err e, w) = (err e, record h { client_writer = w })
answered h (spinning, w) = (spinning, record h { client_writer = w })

unfoldable pub fail_request : ℕ → Coro ClientHandler (Unit {0})
unfolding answered
fail_request code h =
    if h.response_committed
    then (ok tt, h)
    else answered
        (record h { response_committed = true; successful_request = false; status_code = code })
        (send_error_response code h.client_writer)

-- The metrics of a request that took `duration` ticks, and its outcome for the breaker.
unfoldable pub record_metrics : ℕ → ℕ → ClientHandler → ClientHandler
record_metrics ms now h =
    if h.metrics_recorded
    then h
    else let m1 = inc_requests h.metrics in
      let m2 = add_bytes m1 h.bytes_in h.bytes_out in
      let m3 = record_status m2 h.status_code in
      record h {
        metrics_recorded = true;
        metrics = record_latency m3 ms (now - h.start_request_time);
        pool =
            (if h.successful_request
              then UpstreamPool.record_success h.pool h.upstream
              else UpstreamPool.record_failure h.pool h.upstream now);
      }
