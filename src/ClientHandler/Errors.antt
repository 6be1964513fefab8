-- ===== src/ClientHandler/Errors.antt =====
-- What the exceptions of an attempt come to.
use nginx_remake_v.Prelude.{ℕ, ◌≡◌, refl, ◌≢◌, inl, inr, Bool, true, false, number_keys, text_keys}
use nginx_remake_v.Exec.{
  Exception, timeout_error, body_streamer_error, connection_refused, connection_reset, os_error,
  runtime_error, value_error, incomplete_read, index_error, Result, ok, err, spinning, Coro,
}
use nginx_remake_v.Stream
use nginx_remake_v.Stream.{StreamWriter}
use nginx_remake_v.Messages.{send_error_response}
use nginx_remake_v.Messages.ErrorResponse.{send_error_response-ends}
use nginx_remake_v.ClientHandler.{ClientHandler, fail_request, answered}
use nginx_remake_v.ClientHandler.Attempt.{Outcome}
use nginx_remake_v.ClientHandler.Handle.{next_round, finally, failed, caught, conclude}
use nginx_remake_v.ClientHandler.Passing.{Before}
use nginx_remake_v.ClientHandler.Answers.{
  IsOwnStatus, answered_lem, Quiet, Refused, fail_request-Refused,
}
use nginx_remake_v.ClientHandler.Concluding.{finally-Quiet}

-- The client was refused with this status, its writer is closed, and the loop of attempts ends as it
-- is, whatever its next round would do: the connection is not kept alive.
pub record RefusedWith (b : Before) (code : ℕ) (x : Result (Outcome × Bool)) (h : ClientHandler)
    : Type 0 where
  pub status : h.status_code ≡ code
  pub refused : Refused b h
  pub shut : h.client_writer.closing ≡ true
  pub stops : (rest : Bool → Coro ClientHandler Bool) → (next_round rest (x, h)).1 ≡ h
  pub drops : (rest : Bool → Coro ClientHandler Bool) → (next_round rest (x, h)).0 ≢ ok true

-- The client's writer; closed before the answer only if it is closed now.
abbrev pub as_it_is : StreamWriter → Before
as_it_is w = record { written = w.written; shut = w.closing }

-- What an exception comes to before anything was sent: an answer with the status of its clause, or,
-- where it has none, nothing, and the exception goes on.
abbrev pub Comes : Before → Exception → Result (Outcome × Bool) × ClientHandler → Type 0
Comes b timeout_error x = RefusedWith b 504 x.0 x.1
Comes b body_streamer_error x = RefusedWith b 502 x.0 x.1
Comes b connection_refused x = RefusedWith b 502 x.0 x.1
Comes b connection_reset x = RefusedWith b 502 x.0 x.1
Comes b (os_error n) x = RefusedWith b 502 x.0 x.1
Comes b runtime_error x = RefusedWith b 503 x.0 x.1
Comes b value_error x = (x.0 ≡ err value_error) × Quiet b x.1
Comes b incomplete_read x = (x.0 ≡ err incomplete_read) × Quiet b x.1
Comes b index_error x = (x.0 ≡ err index_error) × Quiet b x.1

fail_request_status :
    (code : ℕ) (h : ClientHandler)
    → h.response_committed ≡ false
    → (fail_request code h).1.status_code ≡ code
unfolding fail_request
fail_request_status code h uncommitted =
    let marked : ClientHandler = record h {
      response_committed = true;
      successful_request = false;
      status_code = code;
    } in
    simp uncommitted (answered_lem marked (send_error_response code h.client_writer)).same_status

answered_ends :
    (h : ClientHandler) (x : Result ℕ × StreamWriter) → x.0 ≢ spinning → (answered h x).0 ≢ spinning
unfolding answered
answered_ends h (ok n, w) p = λ e. cc
answered_ends h (err e, w) p = λ e'. cc
answered_ends h (spinning, w) p = absurd (p refl)

fail_request_ends :
    (code : ℕ) (h : ClientHandler)
    → h.response_committed ≡ false
    → (fail_request code h).0 ≢ spinning
unfolding fail_request
fail_request_ends code h uncommitted =
    let marked : ClientHandler = record h {
      response_committed = true;
      successful_request = false;
      status_code = code;
    } in
    simp uncommitted (
      answered_ends marked (send_error_response code h.client_writer)
        (send_error_response-ends code h.client_writer))

failed-RefusedWith :
    (b : Before) (code : ℕ) (x : Result (Unit {0}) × ClientHandler)
    → x.0 ≢ spinning
    → x.1.status_code ≡ code
    → Refused b x.1
    → RefusedWith b code (failed x).0 (failed x).1
unfolding failed finally Stream.close next_round
failed-RefusedWith b code (ok a, h) ends same r = record {
  status = same;
  refused = record {
    committed = r.committed;
    unsuccessful = r.unsuccessful;
    own = r.own;
    sent = elim r.sent [ inl e ↦ inl e | inr (e, c, may) ↦ inr (e, refl, may) ];
  };
  shut = refl;
  stops = λ rest. refl;
  drops = λ rest e. cc;
}
failed-RefusedWith b code (err e, h) ends same r = record {
  status = same;
  refused = record {
    committed = r.committed;
    unsuccessful = r.unsuccessful;
    own = r.own;
    sent = elim r.sent [ inl e ↦ inl e | inr (e, c, may) ↦ inr (e, refl, may) ];
  };
  shut = refl;
  stops = λ rest. refl;
  drops = λ rest e. cc;
}
failed-RefusedWith b code (spinning, h) ends same r = absurd (ends refl)

refused_with :
    (code : ℕ) (h : ClientHandler)
    → IsOwnStatus code
    → h.response_committed ≡ false
    → h.successful_request ≡ true
    → RefusedWith
        (as_it_is h.client_writer)
        code
        (failed (fail_request code h)).0
        (failed (fail_request code h)).1
refused_with code h own uncommitted hopeful =
    failed-RefusedWith (as_it_is h.client_writer) code (fail_request code h)
      (fail_request_ends code h uncommitted) (fail_request_status code h uncommitted)
      (fail_request-Refused (as_it_is h.client_writer) code h own
        (record { uncommitted = uncommitted; hopeful = hopeful; silent = refl }, λ e. e))

-- Before anything was sent, an exception of an attempt is answered with 504 for a timeout, 503 for
-- a RuntimeError, and 502 for a framing error, a refused or reset connection and any other
-- OSError, whole unless the client's writer was closed already; then that writer is closed, and
-- the loop of attempts goes no further, whatever its next round would do, and does not keep the
-- connection alive. A ValueError, an IncompleteReadError and an IndexError are not caught, and
-- nothing is sent.
pub conclude-Comes :
    (keep : Bool) (e : Exception) (h : ClientHandler)
    → h.response_committed ≡ false
    → h.successful_request ≡ true
    → Comes (as_it_is h.client_writer) e (conclude keep (err e, h))
unfolding conclude caught
conclude-Comes keep timeout_error h u p = refused_with 504 h (inr (inr refl)) u p
conclude-Comes keep body_streamer_error h u p = refused_with 502 h (inl refl) u p
conclude-Comes keep connection_refused h u p = refused_with 502 h (inl refl) u p
conclude-Comes keep connection_reset h u p = refused_with 502 h (inl refl) u p
conclude-Comes keep (os_error n) h u p = refused_with 502 h (inl refl) u p
conclude-Comes keep runtime_error h u p = refused_with 503 h (inr (inl refl)) u p
conclude-Comes keep value_error h u p =
    (refl, finally-Quiet _ keep h (record { uncommitted = u; hopeful = p; silent = refl }))
conclude-Comes keep incomplete_read h u p =
    (refl, finally-Quiet _ keep h (record { uncommitted = u; hopeful = p; silent = refl }))
conclude-Comes keep index_error h u p =
    (refl, finally-Quiet _ keep h (record { uncommitted = u; hopeful = p; silent = refl }))
