-- ===== src/ClientHandler/Concluding.antt =====
-- How an attempt's end is concluded: what the client was sent stays as it is.
use nginx_remake_v.Prelude.{
  ℕ, ◌<◌, ◌≡◌, refl, ◌⊎◌, inl, inr, Bool, true, false, Option, none, some, arith, Text, number_keys,
  text_keys,
}
use nginx_remake_v.Exec.{
  Exception, timeout_error, body_streamer_error, connection_refused, connection_reset, os_error,
  runtime_error, value_error, incomplete_read, index_error, Result, ok, err, spinning,
}
use nginx_remake_v.Stream
use nginx_remake_v.Stream.{StreamWriter}
use nginx_remake_v.Messages.{safe_method}
use nginx_remake_v.ClientHandler.{Settings, ClientHandler, fail_request}
use nginx_remake_v.ClientHandler.Attempt.{Outcome, finished, gave_up, again}
use nginx_remake_v.ClientHandler.Handle.{error_status, finally, failed, caught, conclude}
use nginx_remake_v.ClientHandler.Answers.{
  IsOwnStatus, Quiet, Fresh, Refused, Answered, Stands, Ends, fail_request-Answered,
}
use nginx_remake_v.ClientHandler.Passing.{Before, Passed, Bears-close}

-- An attempt after its `finally`; `keep` is `keep_alive` before it.
abbrev pub Settles :
    Settings → Text → ℕ → Bool → Before → Result (Outcome × Bool) × ClientHandler → Type 0
Settles s method n keep b (ok (finished, true), h) = Passed s keep b h × (keep ≡ true)
Settles s method n keep b (ok (finished, false), h) = Refused b h ⊎ Passed s keep b h
Settles s method n keep b (ok (gave_up, true), h) = ⊥
Settles s method n keep b (ok (gave_up, false), h) = Refused b h
Settles s method n keep b (ok (again, k), h) =
    Fresh b h
    × (safe_method s.unicode method ≡ true)
    × (n < s.retry_config.max_retries)
    × (k ≡ keep)
Settles s method n keep b (err e, h) = Answered s keep b h
Settles s method n keep b (spinning, h) = Answered s keep b h

module _ (b : Before) where
  pub finally-Quiet : (k : Bool) (h : ClientHandler) → Quiet b h → Quiet b (finally k h)
  unfolding finally Stream.close
  finally-Quiet true h q = q
  finally-Quiet false h q = record {
    uncommitted = q.uncommitted;
    hopeful = q.hopeful;
    silent = q.silent;
  }

  finally-Refused : (k : Bool) (h : ClientHandler) → Refused b h → Refused b (finally k h)
  unfolding finally Stream.close
  finally-Refused true h r = r
  finally-Refused false h r = record {
    committed = r.committed;
    unsuccessful = r.unsuccessful;
    own = r.own;
    sent = elim r.sent [ inl e ↦ inl e | inr (e, c, may) ↦ inr (e, refl, may) ];
  }

  finally-Passed :
      (s : Settings) (keep k : Bool) (h : ClientHandler)
      → Passed s keep b h
      → Passed s keep b (finally k h)
  unfolding finally
  finally-Passed s keep true h p = p
  finally-Passed s keep false h p = record {
    response = p.response;
    head = p.head;
    received = p.received;
    no_failure = p.no_failure;
    serialised = p.serialised;
    same_status = p.same_status;
    committed = p.committed;
    successful = p.successful;
    sent = Bears-close b p.head h.client_writer p.sent;
  }

  finally-Answered :
      (s : Settings) (keep k : Bool) (h : ClientHandler)
      → Stands s keep b h
      → Answered s keep b (finally k h)
  finally-Answered s keep k h (inl (q, may)) = inl (finally-Quiet k h q)
  finally-Answered s keep k h (inr (inl r)) = inr (inl (finally-Refused k h r))
  finally-Answered s keep k h (inr (inr p)) = inr (inr (finally-Passed s keep k h p))

  Stands-Answered :
      (s : Settings) (keep : Bool) (h : ClientHandler) → Stands s keep b h → Answered s keep b h
  Stands-Answered s keep h (inl (q, may)) = inl q
  Stands-Answered s keep h (inr a) = inr a

  -- A retry finds the writer open, or closed by the `finally` before it.
  finally-Fresh :
      (k : Bool) (h : ClientHandler)
      → (k ≡ false → b.shut ≡ true)
      → Fresh b h
      → Fresh b (finally k h)
  finally-Fresh true h excuse (q, may) = (finally-Quiet true h q, unfold finally in may)
  finally-Fresh false h excuse (q, may) = (finally-Quiet false h q, λ e. excuse refl)

  pub error_status_own : (e : Exception) (code : ℕ) → error_status e ≡ some code → IsOwnStatus code
  error_status_own timeout_error code h = ground (arith, h)
  error_status_own body_streamer_error code h = ground (arith, h)
  error_status_own connection_refused code h = ground (arith, h)
  error_status_own connection_reset code h = ground (arith, h)
  error_status_own (os_error n) code h = ground (arith, h)
  error_status_own runtime_error code h = ground (arith, h)
  error_status_own value_error code h = cc
  error_status_own incomplete_read code h = cc
  error_status_own index_error code h = cc

  failed-Settles :
      (s : Settings) (method : Text) (n : ℕ) (keep : Bool) (x : Result (Unit {0}) × ClientHandler)
      → Refused b x.1 ⊎ Passed s keep b x.1
      → Settles s method n keep b (failed x)
  unfolding failed
  failed-Settles s method n keep (ok a, h) (inl r) = inl (finally-Refused false h r)
  failed-Settles s method n keep (ok a, h) (inr p) = inr (finally-Passed s keep false h p)
  failed-Settles s method n keep (err e, h) (inl r) = inr (inl (finally-Refused false h r))
  failed-Settles s method n keep (err e, h) (inr p) = inr (inr (finally-Passed s keep false h p))
  failed-Settles s method n keep (spinning, h) (inl r) = inr (inl r)
  failed-Settles s method n keep (spinning, h) (inr p) = inr (inr p)

  caught-Settles :
      (s : Settings) (method : Text) (n : ℕ) (keep : Bool) (e : Exception) (o : Option ℕ)
      (h : ClientHandler)
      → ((code : ℕ) → o ≡ some code → IsOwnStatus code)
      → Stands s keep b h
      → Settles s method n keep b (caught keep e o h)
  unfolding caught
  caught-Settles s method n keep e none h own a = finally-Answered s keep keep h a
  caught-Settles s method n keep e (some code) h own a =
      failed-Settles s method n keep (fail_request code h)
        (fail_request-Answered s keep b code h (own code refl) a)

  pub conclude-Settles :
      (s : Settings) (method : Text) (n : ℕ) (keep : Bool) (x : Result Outcome × ClientHandler)
      → (safe_method s.unicode method ≡ true
          → n < s.retry_config.max_retries
          → keep ≡ false
          → b.shut ≡ true)
      → Ends s method keep n b x.0 x.1
      → Settles s method n keep b (conclude keep x)
  unfolding conclude
  conclude-Settles s method n true (ok finished, h) excuse p =
      (finally-Passed s true true h p, refl)
  conclude-Settles s method n false (ok finished, h) excuse p =
      inr (finally-Passed s false false h p)
  conclude-Settles s method n keep (ok gave_up, h) excuse r = finally-Refused false h r
  conclude-Settles s method n keep (ok again, h) excuse (q, safe, more) =
      (finally-Fresh keep h (excuse safe more) q, safe, more, refl)
  conclude-Settles s method n keep (spinning, h) excuse a = Stands-Answered s keep h a
  conclude-Settles s method n keep (err e, h) excuse a =
      caught-Settles s method n keep e (error_status e) h (error_status_own e) a
