-- ===== src/ClientHandler/Attempt.antt =====
-- `ClientHandler.handle` of proxy/client_handler.py: an attempt on an upstream.
use nginx_remake_v.Prelude.{
  ℕ, ◌+◌, Bool, true, false, ◌&&◌, Option, none, some, [], ◌∷◌, ◌++◌, ltb, leb, Bytes, number_keys,
  text_keys,
}
use nginx_remake_v.Exec.{Result, ok, err, spinning, Coro, pure, ◌>>=◌, ◌>>◌}
use nginx_remake_v.Stream
use nginx_remake_v.Stream.{StreamWriter}
use nginx_remake_v.BufferedReader.{UnreadableStreamReader, wrap}
use nginx_remake_v.Headers.{HttpRequest}
use nginx_remake_v.Messages.{
  HttpResponse, request_to_bytes, response_to_bytes, parse_request, parse_response, stream_request,
  stream_response,
}
use nginx_remake_v.ConnectionPool.{PooledConnection, close_connection}
use nginx_remake_v.UpstreamPool.{
  Upstream, UpstreamsPool, get_next_alive, enter_connection, exit_connection,
}
use nginx_remake_v.ClientHandler.ReadHead.{read_head}
use nginx_remake_v.ClientHandler.{
  Settings, Surroundings, ClientHandler, should_retry, modify_request_headers,
  modify_response_headers, retry_delay, fail_request,
}

-- The handler inside `async with acquire_connection`: the connection, and `up_reader` round its reader.
pub record Serving : Type 0 where
  pub handler : ClientHandler
  pub up_reader : UnreadableStreamReader
  pub connection : PooledConnection

-- How the body of the `try` ends, unless it raises: at its end, by `break` with `keep_alive` set to
-- `False`, or by `continue`.
pub data Outcome : Type 0 where
  finished : Outcome
  gave_up : Outcome
  again : Outcome

-- A step of the handler's own.
unfoldable pub of_handler {ℓ} :
    {A : Type ℓ} → (ClientHandler → Result A × ClientHandler) → Serving → Result A × Serving
of_handler step v = let (x, h) = step v.handler in (x, record v { handler = h })

unfoldable pub update : (ClientHandler → ClientHandler) → Coro Serving (Unit {0})
update f v = (ok tt, record v { handler = f v.handler })

-- A value that may be an exception.
unfoldable pub lift : {A : Type 0} → Result A → Coro Serving A
lift x v = (x, v)

-- `up_writer.write(...)`
unfoldable pub send_up : Bytes → Coro Serving (Unit {0})
send_up d v = (
  ok tt,
  record v { connection = record v.connection { writer = Stream.write d v.connection.writer } },
)

-- `wait_for_write(up_writer.drain())`
unfoldable pub drain_up : Coro Serving (Unit {0})
drain_up v =
    let (x, w) = Stream.drain v.connection.writer in
    (x, record v { connection = record v.connection { writer = w } })

-- `await pooled_connection.close()`
unfoldable pub close_up : Coro Serving (Unit {0})
close_up v = (ok tt, record v { connection = close_connection v.connection })

-- `client_writer.write(...)` and `response_committed = True`
unfoldable pub commit : Bytes → ClientHandler → ClientHandler
commit d h = record h { client_writer = Stream.write d h.client_writer; response_committed = true }

-- `wait_for_write(client_writer.drain())`
unfoldable pub drain_client : Coro ClientHandler (Unit {0})
drain_client h = let (x, w) = Stream.drain h.client_writer in (x, record h { client_writer = w })

module _ (s : Settings) where
  -- `_read_request_headers`
  unfoldable pub read_request_headers : Coro ClientHandler (Option HttpRequest)
  read_request_headers h =
      let (x, i) =
        read_head (parse_request s.unicode) s.chunk_size s.fuel
          (record { reader = h.client_reader; bytes = h.bytes_in }) in
      (x, record h { client_reader = i.reader; bytes_in = i.bytes })

  -- `_read_response_headers(up_reader)`
  unfoldable pub read_response_headers : Coro Serving (Option HttpResponse)
  read_response_headers v =
      let (x, i) =
        read_head (parse_response s.unicode) s.chunk_size s.fuel
          (record { reader = v.up_reader; bytes = v.handler.bytes_out }) in
      (x, record v { up_reader = i.reader; handler = record v.handler { bytes_out = i.bytes } })

  -- `framer.stream_request(self.client_reader, up_writer, req_meta.headers)`
  unfoldable pub forward_request : HttpRequest → Coro Serving ℕ
  forward_request req v =
      let (x, l) =
        stream_request s.unicode s.fuel s.chunk_size req.headers
          (record { reader = v.handler.client_reader; writer = v.connection.writer }) in
      (
        x,
        record v {
          handler = record v.handler { client_reader = l.reader };
          connection = record v.connection { writer = l.writer };
        },
      )

  -- `framer.stream_response(up_reader, self.client_writer, resp_meta.headers)`
  unfoldable pub forward_response : HttpResponse → Coro Serving ℕ
  forward_response resp v =
      let (x, l) =
        stream_response s.unicode s.fuel s.chunk_size resp.headers
          (record { reader = v.up_reader; writer = v.handler.client_writer }) in
      (
        x,
        record v { up_reader = l.reader; handler = record v.handler { client_writer = l.writer } },
      )

  -- The answer 502 of the branches that `break`.
  unfoldable pub give_up : Coro Serving Outcome
  give_up = do of_handler (fail_request 502); close_up; pure gave_up

  -- The next upstream, if there is another.
  unfoldable pub chosen : Result (Option Upstream) → UpstreamsPool → Coro ClientHandler (Unit {0})
  chosen (ok (some u)) pool h = (ok tt, record h { pool = pool; upstream = u })
  chosen (ok none) pool h = (ok tt, record h { pool = pool })
  chosen (err e) pool h = (err e, record h { pool = pool })
  chosen Result.spinning pool h = (spinning, record h { pool = pool })

  unfoldable pub move_on : (ℕ → ℕ) → Coro ClientHandler (Unit {0})
  move_on clock h = let (x, pool) = get_next_alive h.pool (h.upstream ∷ []) clock in chosen x pool h

  unfoldable pub retry : (ℕ → ℕ) → ℕ → Coro Serving Outcome
  retry clock attempt = do
    of_handler (move_on clock)
    close_up
    update (λ h. record h { sleeps = h.sleeps ++ retry_delay s attempt ∷ [] })
    pure again

  -- The response goes to the client.
  unfoldable pub pass_on : HttpResponse → Bool → Coro Serving Outcome
  pass_on resp keep_alive = do
    head ← lift (response_to_bytes (modify_response_headers s resp keep_alive))
    update (commit head)
    of_handler drain_client
    n ← forward_response resp
    update (λ h. record h { bytes_out = h.bytes_out + n })
    pure finished

  -- A response that is retried, one that fails for good, or one for the client.
  unfoldable pub route : Bool → Bool → Bool → (ℕ → ℕ) → ℕ → HttpResponse → Coro Serving Outcome
  route true fails keep_alive clock attempt resp = retry clock attempt
  route false true keep_alive clock attempt resp = give_up
  route false false keep_alive clock attempt resp = pass_on resp keep_alive

  unfoldable pub on_response :
      HttpRequest → Bool → (ℕ → ℕ) → ℕ → HttpResponse → Coro Serving Outcome
  on_response req keep_alive clock attempt resp = do
    update (λ h. record h { status_code = resp.status_code })
    route (should_retry s req.method resp && ltb attempt s.retry_config.max_retries)
        (leb 500 resp.status_code && ltb resp.status_code 600) keep_alive clock attempt resp

  -- Where the upstream closes the connection without a response, the request fails.
  unfoldable pub on_headers :
      HttpRequest → Bool → (ℕ → ℕ) → ℕ → Option HttpResponse → Coro Serving Outcome
  on_headers req keep_alive clock attempt none = give_up
  on_headers req keep_alive clock attempt (some resp) =
      on_response req keep_alive clock attempt resp

  -- The body of the `async with`.
  unfoldable pub exchange : HttpRequest → Bool → (ℕ → ℕ) → ℕ → Coro Serving Outcome
  exchange req keep_alive clock attempt = do
    head ← lift (request_to_bytes (modify_request_headers s req keep_alive))
    send_up head
    drain_up
    n ← forward_request req
    update (λ h. record h { bytes_in = h.bytes_in + n })
    resp ← read_response_headers
    on_headers req keep_alive clock attempt resp

  -- The exit of the `async with`: the connection, its reader as the wrapper leaves it, goes back to
  -- the pool of the upstream that it was taken from, however the body ended.
  unfoldable pub leave : Upstream → ℕ → Result Outcome × Serving → Result Outcome × ClientHandler
  leave u now (x, v) = (
    x,
    record v.handler {
      pool =
          (exit_connection v.handler.pool u (record v.connection { reader = v.up_reader.inner })
            now).0;
    },
  )

  unfoldable pub with_connection :
      HttpRequest → Bool → Surroundings → ℕ → Result PooledConnection → Coro ClientHandler Outcome
  with_connection req keep_alive env attempt (ok c) h = leave h.upstream env.released_at (
      exchange req keep_alive env.chosen_at attempt
        (record { handler = h; up_reader = wrap c.reader; connection = c }))
  with_connection req keep_alive env attempt (err e) h = (err e, h)
  with_connection req keep_alive env attempt Result.spinning h = (spinning, h)

  -- The `try` with its `async with`.
  unfoldable pub try_upstream : HttpRequest → Bool → Surroundings → ℕ → Coro ClientHandler Outcome
  try_upstream req keep_alive env attempt h =
      let (x, pool, closed) = enter_connection h.pool h.upstream env.acquired_at env.opened in
      with_connection req keep_alive env attempt x (record h { pool = pool })
