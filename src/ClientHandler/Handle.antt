-- ===== src/ClientHandler/Handle.antt =====
-- `ClientHandler.handle` of proxy/client_handler.py: what the exceptions of an attempt come to, and the
-- loop of attempts.
use nginx_remake_v.Prelude.{
  ℕ, zero, suc, ◌+◌, Bool, true, false, Option, none, some, if◌then◌else◌, number_keys, text_keys,
}
use nginx_remake_v.Exec.{
  Exception, timeout_error, body_streamer_error, connection_refused, connection_reset, os_error,
  runtime_error, value_error, incomplete_read, index_error, Result, ok, err, spinning, Coro,
}
use nginx_remake_v.Stream
use nginx_remake_v.Stream.{StreamWriter}
use nginx_remake_v.Headers.{HttpRequest}
use nginx_remake_v.ClientHandler.{
  Settings, Surroundings, ClientHandler, should_keep_alive, fail_request, record_metrics,
}
use nginx_remake_v.ClientHandler.Attempt.{
  Outcome, finished, gave_up, again, read_request_headers, try_upstream,
}

-- The status with which an `except` clause answers; `none` for an exception that has no clause.
abbrev pub error_status : Exception → Option ℕ
error_status timeout_error = some 504
error_status body_streamer_error = some 502
error_status connection_refused = some 502
error_status connection_reset = some 502
error_status (os_error n) = some 502
error_status runtime_error = some 503
error_status value_error = none
error_status incomplete_read = none
error_status index_error = none

-- The `finally`: unless the connection is kept alive, the client's writer is closed.
unfoldable pub finally : Bool → ClientHandler → ClientHandler
finally keep_alive h =
    if keep_alive then h else record h { client_writer = Stream.close h.client_writer }

-- After `_fail_request` in an `except` clause.
unfoldable pub failed : Result (Unit {0}) × ClientHandler → Result (Outcome × Bool) × ClientHandler
failed (ok _, h) = (ok (finished, false), finally false h)
failed (err e, h) = (err e, finally false h)
failed (spinning, h) = (spinning, h)

-- An exception whose clause answers with a status, or that has no clause and goes on.
unfoldable pub caught :
    Bool → Exception → Option ℕ → ClientHandler → Result (Outcome × Bool) × ClientHandler
caught keep_alive e none h = (err e, finally keep_alive h)
caught keep_alive e (some code) h = failed (fail_request code h)

-- The `except` clauses, and the `finally`, with `keep_alive` as it is then.
unfoldable pub conclude :
    Bool → Result Outcome × ClientHandler → Result (Outcome × Bool) × ClientHandler
conclude keep_alive (ok finished, h) = (ok (finished, keep_alive), finally keep_alive h)
conclude keep_alive (ok gave_up, h) = (ok (gave_up, false), finally false h)
conclude keep_alive (ok again, h) = (ok (again, keep_alive), finally keep_alive h)
conclude keep_alive (err e, h) = caught keep_alive e (error_status e) h
conclude keep_alive (spinning, h) = (spinning, h)

-- What follows the `finally`, where `rest` is the next round of the loop: the loop ends if the request
-- was successful or the connection is not kept alive.
unfoldable pub next_round :
    (Bool → Coro ClientHandler Bool)
    → Result (Outcome × Bool) × ClientHandler
    → Result Bool × ClientHandler
next_round rest (ok (again, keep_alive), h) = rest keep_alive h
next_round rest (ok (gave_up, keep_alive), h) = (ok keep_alive, h)
next_round rest (ok (finished, false), h) = (ok false, h)
next_round rest (ok (finished, true), h) = elim h.successful_request [
  | true ↦ (ok true, h)
  | false ↦ rest true h
]
next_round rest (err e, h) = (err e, h)
next_round rest (spinning, h) = (spinning, h)

module _ (s : Settings) (env : ℕ → Surroundings) where
  -- The rounds that are left, from number `attempt` on.
  unfoldable pub attempts : HttpRequest → ℕ → ℕ → Bool → Coro ClientHandler Bool
  attempts req zero attempt keep_alive h = (ok keep_alive, h)
  attempts req (suc k) attempt keep_alive h =
      next_round (attempts req k (attempt + 1))
        (conclude keep_alive (try_upstream s req keep_alive (env attempt) attempt h))

  -- `record_metrics` after the loop; an exception goes past it.
  unfoldable pub ended : ℕ → Result Bool × ClientHandler → Result Bool × ClientHandler
  ended now (ok keep_alive, h) = (ok keep_alive, record_metrics s.ms now h)
  ended now (err e, h) = (err e, h)
  ended now (spinning, h) = (spinning, h)

  unfoldable pub on_request :
      ℕ → Result (Option HttpRequest) × ClientHandler → Result Bool × ClientHandler
  on_request now (ok none, h) = (ok false, h)
  on_request now (ok (some req), h) =
      ended now (attempts req (s.retry_config.max_retries + 1) 0 (should_keep_alive s req) h)
  on_request now (err e, h) = (err e, h)
  on_request now (spinning, h) = (spinning, h)

  -- `handle()`; `now` is the clock's reading at its end.
  unfoldable pub handle : ℕ → Coro ClientHandler Bool
  handle now h = on_request now (read_request_headers s h)
