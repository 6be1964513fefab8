-- ===== src/ClientHandler/Answers.antt =====
-- What a client is answered: nothing, one error response, or the response of an upstream.
use nginx_remake_v.Prelude.{
  ℕ, ◌<◌, ◌≡◌, refl, sym, ap, ◌∙◌, subst, ◌⊎◌, inl, inr, Bool, true, false, Option, none, some, [],
  ◌∷◌, ◌++◌, Text, number_keys, text_keys,
}
use nginx_remake_v.Exec.{Result, ok, err, spinning, pure, ◌>>◌}
use nginx_remake_v.Exec.Rules.{Ensures, Ensures-bind}
use nginx_remake_v.Stream.{StreamWriter}
use nginx_remake_v.Messages.{safe_method, error_response, send_error_response}
use nginx_remake_v.Messages.ErrorResponse.{send_error_response-sends}
use nginx_remake_v.UpstreamPool.{Upstream, UpstreamsPool, get_next_alive}
use nginx_remake_v.ClientHandler.{Settings, ClientHandler, fail_request, retry_delay, answered}
use nginx_remake_v.ClientHandler.Attempt.{
  Serving, Outcome, finished, gave_up, again, of_handler, update, close_up, give_up, chosen,
  move_on, retry,
}
use nginx_remake_v.ClientHandler.Passing.{Before, Drops, Passed}

-- The statuses with which the proxy itself answers.
abbrev pub IsOwnStatus : ℕ → Type 0
IsOwnStatus code = (code ≡ 502) ⊎ (code ≡ 503) ⊎ (code ≡ 504)

-- Nothing has been sent to the client, whose writer held `b`.
pub record Quiet (b : Before) (h : ClientHandler) : Type 0 where
  pub uncommitted : h.response_committed ≡ false
  pub hopeful : h.successful_request ≡ true
  pub silent : h.client_writer.written ≡ b.written

-- The same, and the writer is still open unless `b` excuses it.
abbrev pub Fresh : Before → ClientHandler → Type 0
Fresh b h = Quiet b h × (h.client_writer.closing ≡ true → b.shut ≡ true)

-- The client was sent one error response of the proxy's own and nothing else, unless its writer had
-- been closed before.
pub record Refused (b : Before) (h : ClientHandler) : Type 0 where
  pub committed : h.response_committed ≡ true
  pub unsuccessful : h.successful_request ≡ false
  pub own : IsOwnStatus h.status_code
  pub sent :
      (h.client_writer.written ≡ b.written ++ error_response h.status_code)
      ⊎ Drops b h.client_writer

-- What the client was sent: nothing, an error response, or an upstream's; `keep` is `keep_alive`.
abbrev pub Answered : Settings → Bool → Before → ClientHandler → Type 0
Answered s keep b h = Quiet b h ⊎ Refused b h ⊎ Passed s keep b h

-- The same before the `finally`.
abbrev pub Stands : Settings → Bool → Before → ClientHandler → Type 0
Stands s keep b h = Fresh b h ⊎ Refused b h ⊎ Passed s keep b h

-- How the body of the `try` may end: `continue` only for a safe method before the last attempt.
abbrev pub Ends : Settings → Text → Bool → ℕ → Before → Result Outcome → ClientHandler → Type 0
Ends s method keep attempt b (ok finished) h = Passed s keep b h
Ends s method keep attempt b (ok gave_up) h = Refused b h
Ends s method keep attempt b (ok again) h =
    Fresh b h × (safe_method s.unicode method ≡ true) × (attempt < s.retry_config.max_retries)
Ends s method keep attempt b (err e) h = Stands s keep b h
Ends s method keep attempt b spinning h = Stands s keep b h

-- An answer changes the writer and the count of bytes alone.
pub record Answers (h : ClientHandler) (w : StreamWriter) (h' : ClientHandler) : Type 0 where
  pub writer : h'.client_writer ≡ w
  pub same_commit : h'.response_committed ≡ h.response_committed
  pub same_success : h'.successful_request ≡ h.successful_request
  pub same_status : h'.status_code ≡ h.status_code

pub answered_lem :
    (h : ClientHandler) (x : Result ℕ × StreamWriter) → Answers h x.1 (answered h x).1
unfolding answered
answered_lem h (ok n, w) = record {
  writer = refl;
  same_commit = refl;
  same_success = refl;
  same_status = refl;
}
answered_lem h (err e, w) = record {
  writer = refl;
  same_commit = refl;
  same_success = refl;
  same_status = refl;
}
answered_lem h (spinning, w) = record {
  writer = refl;
  same_commit = refl;
  same_success = refl;
  same_status = refl;
}

pub fail_request-Refused :
    (b : Before) (code : ℕ) (h : ClientHandler)
    → IsOwnStatus code
    → Fresh b h
    → Refused b (fail_request code h).1
unfolding fail_request
fail_request-Refused b code h own (q, may) =
    let marked : ClientHandler = record h {
      response_committed = true;
      successful_request = false;
      status_code = code;
    } in
    let a = answered_lem marked (send_error_response code h.client_writer) in
    let (sent, state) = send_error_response-sends code h.client_writer in
    let writer = a.writer in
    rw (q.uncommitted) (record {
      committed = a.same_commit;
      unsuccessful = a.same_success;
      own = rw a.same_status own;
      sent = elim sent [
        | inl e ↦
            inl (ap (λ (w : StreamWriter). w.written) writer ∙ rw (a.same_status, ← q.silent) e)
        | inr (e, c) ↦ inr (
          ap (λ (w : StreamWriter). w.written) writer ∙ e ∙ q.silent,
          ap (λ (w : StreamWriter). w.closing) writer ∙ c,
          may (sym state ∙ c),
        )
      ];
    })

fail_request-committed :
    (code : ℕ) (h : ClientHandler) → h.response_committed ≡ true → fail_request code h ≡ (ok tt, h)
unfolding fail_request
fail_request-committed code h c = simp c

-- `_fail_request` answers once.
pub fail_request-Answered :
    (s : Settings) (keep : Bool) (b : Before) (code : ℕ) (h : ClientHandler)
    → IsOwnStatus code
    → Stands s keep b h
    → Refused b (fail_request code h).1 ⊎ Passed s keep b (fail_request code h).1
fail_request-Answered s keep b code h own (inl q) = inl (fail_request-Refused b code h own q)
fail_request-Answered s keep b code h own (inr (inl r)) = inl (
    subst (λ (x : Result (Unit {0}) × ClientHandler). Refused b x.1)
      (sym (fail_request-committed code h r.committed)) r)
fail_request-Answered s keep b code h own (inr (inr p)) = inr (
    subst (λ (x : Result (Unit {0}) × ClientHandler). Passed s keep b x.1)
      (sym (fail_request-committed code h p.committed)) p)

module _ (s : Settings) (b : Before) where
  -- A step of an attempt before anything was sent.
  abbrev pub IsQuiet : Serving → Type 0
  IsQuiet v = Fresh b v.handler

  abbrev pub Post : Text → Bool → ℕ → Result Outcome × Serving → Type 0
  Post method keep attempt x = Ends s method keep attempt b x.0 x.1.handler

  pub give_up-Ends :
      (method : Text) (keep : Bool) (n : ℕ) → Ensures IsQuiet (give_up s) (Post method keep n)
  unfolding give_up of_handler close_up
  give_up-Ends method keep n =
      Ensures-bind IsQuiet (λ v. Refused b v.handler) (Post method keep n)
        (of_handler (fail_request 502)) (λ _. close_up >> pure gave_up)
        (λ v q. fail_request-Refused b 502 v.handler (inl refl) q) (λ e v r. inr (inl r))
        (λ v r. inr (inl r)) (λ _ v r. r)

  chosen-Quiet :
      (x : Result (Option Upstream)) (pool : UpstreamsPool) (h : ClientHandler)
      → Fresh b h
      → Fresh b (chosen s x pool h).1
  unfolding chosen
  chosen-Quiet (ok (some u)) pool h (q, may) =
      (record { uncommitted = q.uncommitted; hopeful = q.hopeful; silent = q.silent }, may)
  chosen-Quiet (ok none) pool h (q, may) =
      (record { uncommitted = q.uncommitted; hopeful = q.hopeful; silent = q.silent }, may)
  chosen-Quiet (err e) pool h (q, may) =
      (record { uncommitted = q.uncommitted; hopeful = q.hopeful; silent = q.silent }, may)
  chosen-Quiet spinning pool h (q, may) =
      (record { uncommitted = q.uncommitted; hopeful = q.hopeful; silent = q.silent }, may)

  pub retry-Ends :
      (method : Text) (keep : Bool) (clock : ℕ → ℕ) (n : ℕ)
      → safe_method s.unicode method ≡ true
      → n < s.retry_config.max_retries
      → Ensures IsQuiet (retry s clock n) (Post method keep n)
  unfolding retry of_handler close_up update move_on
  retry-Ends method keep clock n safe more =
      Ensures-bind IsQuiet IsQuiet (Post method keep n) (of_handler (move_on s clock))
        (λ _.
          close_up
          >> (update (λ h. record h { sleeps = h.sleeps ++ retry_delay s n ∷ [] }) >> pure again))
        (λ v q.
          chosen-Quiet (get_next_alive v.handler.pool (v.handler.upstream ∷ []) clock).0
            (get_next_alive v.handler.pool (v.handler.upstream ∷ []) clock).1 v.handler q)
        (λ e v q. inl q) (λ v q. inl q)
        (λ _ v q. (
          (
            record { uncommitted = q.0.uncommitted; hopeful = q.0.hopeful; silent = q.0.silent },
            q.1,
          ),
          safe,
          more,
        ))
