-- ===== src/ClientHandler/Rounds.antt =====
-- The loop of attempts: a request that was read is answered, and an unsafe one is sent once.
use nginx_remake_v.Prelude.{not, ◌||◌, ◌&&◌, ltb}
use nginx_remake_v.Prelude.{
  ℕ, zero, suc, ◌+◌, ◌<◌, ◌≡◌, refl, ◌⊎◌, inl, Bool, true, false, Option, none, some, arith, Text,
  number_keys, text_keys,
}
use nginx_remake_v.Exec.{Result, ok, err, spinning, Coro}
use nginx_remake_v.Headers.{HttpRequest}
use nginx_remake_v.Messages.{safe_method}
use nginx_remake_v.ClientHandler.{Settings, Surroundings, ClientHandler, should_keep_alive}
use nginx_remake_v.ClientHandler.Attempt.{Outcome, finished, gave_up, again}
use nginx_remake_v.ClientHandler.Handle.{next_round, attempts}
use nginx_remake_v.Stream.{StreamWriter}
use nginx_remake_v.ClientHandler.Answers.{Fresh, Quiet, Refused, Answered}
use nginx_remake_v.ClientHandler.Passing.{Before, Passed}
use nginx_remake_v.ClientHandler.Handled.{try_upstream-Ends}
use nginx_remake_v.ClientHandler.Concluding.{Settles, conclude-Settles}

-- The client's writer after the loop: the connection is kept alive only behind a response that was
-- passed on, and a return means that the client was answered.
abbrev pub Settled : Settings → Bool → Before → Result Bool × ClientHandler → Type 0
Settled s keep b (ok true, h) = Passed s keep b h × (keep ≡ true)
Settled s keep b (ok false, h) = Refused b h ⊎ Passed s keep b h
Settled s keep b (err e, h) = Answered s keep b h
Settled s keep b (spinning, h) = Answered s keep b h

module _ (b : Before) where
  next_round-Settled :
      (s : Settings) (method : Text) (n : ℕ) (keep : Bool) (rest : Bool → Coro ClientHandler Bool)
      (x : Result (Outcome × Bool) × ClientHandler)
      → Settles s method n keep b x
      → ((h : ClientHandler)
          → n < s.retry_config.max_retries
          → Fresh b h
          → Settled s keep b (rest keep h))
      → Settled s keep b (next_round rest x)
  unfolding next_round
  next_round-Settled s method n keep rest (ok (finished, true), h) (p, kept) later =
      rw (p.successful) (p, kept)
  next_round-Settled s method n keep rest (ok (finished, false), h) p later = p
  next_round-Settled s method n keep rest (ok (gave_up, true), h) p later = absurd p
  next_round-Settled s method n keep rest (ok (gave_up, false), h) p later = inl p
  next_round-Settled s method n keep rest (ok (again, k), h) (q, safe, more, same) later =
      rw same (later h more q)
  next_round-Settled s method n keep rest (err e, h) p later = p
  next_round-Settled s method n keep rest (spinning, h) p later = p

  pub attempts-Settled :
      (s : Settings) (env : ℕ → Surroundings) (req : HttpRequest) (k n : ℕ) (keep : Bool)
      (h : ClientHandler)
      → n + k ≡ s.retry_config.max_retries
      → (safe_method s.unicode req.method ≡ true
          → 0 < s.retry_config.max_retries
          → keep ≡ false
          → b.shut ≡ true)
      → Fresh b h
      → Settled s keep b (attempts s env req (suc k) n keep h)
  unfolding attempts
  attempts-Settled s env req zero n keep h total excuse q =
      next_round-Settled s req.method n keep _ _
        (conclude-Settles b s req.method n keep _ (λ safe more. excuse safe (omega (arith, more)))
          (try_upstream-Ends s b req keep (env n) n h q))
        (λ h' more q'. absurd (omega arith))
  attempts-Settled s env req (suc k) n keep h total excuse q =
      next_round-Settled s req.method n keep _ _
        (conclude-Settles b s req.method n keep _ (λ safe more. excuse safe (omega (arith, more)))
          (try_upstream-Ends s b req keep (env n) n h q))
        (λ h' more q'. attempts-Settled s env req k (n + 1) keep h' (omega arith) excuse q')

  next_round-once :
      (s : Settings) (method : Text) (n : ℕ) (keep : Bool)
      (rest rest' : Bool → Coro ClientHandler Bool) (x : Result (Outcome × Bool) × ClientHandler)
      → safe_method s.unicode method ≡ false
      → Settles s method n keep b x
      → next_round rest x ≡ next_round rest' x
  unfolding next_round
  next_round-once s method n keep rest rest' (ok (finished, true), h) unsafe (p, kept) =
      rw (p.successful) refl
  next_round-once s method n keep rest rest' (ok (finished, false), h) unsafe p = refl
  next_round-once s method n keep rest rest' (ok (gave_up, k), h) unsafe p = refl
  next_round-once s method n keep rest rest' (ok (again, k), h) unsafe (q, safe, more, same) = cc
  next_round-once s method n keep rest rest' (err e, h) unsafe p = refl
  next_round-once s method n keep rest rest' (spinning, h) unsafe p = refl

-- The client's writer; `more` tells that it may be closed before the answer for another reason than
-- that it is closed now.
abbrev pub before : StreamWriter → Bool → Before
before w more = record { written = w.written; shut = w.closing || more }

-- A retry is possible after which the writer is closed, as the connection is not kept alive.
abbrev pub closes_early : Settings → HttpRequest → Bool
closes_early s req =
    safe_method s.unicode req.method
    && (ltb 0 s.retry_config.max_retries && not (should_keep_alive s req))

-- After `handle`: a request that was read is answered as said above; where none was, the client was
-- sent nothing and the connection is not kept alive.
abbrev pub Handles :
    Settings → StreamWriter → Result (Option HttpRequest) → Result Bool × ClientHandler → Type 0
Handles s w (ok (some req)) x =
    Settled s (should_keep_alive s req) (before w (closes_early s req)) x
Handles s w (ok none) x = (x.0 ≡ ok false) × Quiet (before w false) x.1
Handles s w (err e) x = (x.0 ≡ err e) × Quiet (before w false) x.1
Handles s w spinning x = (x.0 ≡ spinning) × Quiet (before w false) x.1

-- A request whose method is not safe is sent to one upstream at most: however many attempts are
-- left, a handler that has answered nothing comes to what one attempt comes to.
pub unsafe_once :
    (s : Settings) (env : ℕ → Surroundings) (req : HttpRequest) (k n : ℕ) (keep : Bool)
    (h : ClientHandler)
    → safe_method s.unicode req.method ≡ false
    → h.response_committed ≡ false
    → h.successful_request ≡ true
    → attempts s env req (suc k) n keep h ≡ attempts s env req 1 n keep h
unfolding attempts
unsafe_once s env req k n keep h unsafe uncommitted hopeful =
    let b = before h.client_writer true in
    next_round-once b s req.method n keep _ _ _ unsafe (
      conclude-Settles b s req.method n keep _ (λ safe more no. ground (arith))
        (try_upstream-Ends s b req keep (env n) n h (
          record { uncommitted = uncommitted; hopeful = hopeful; silent = refl },
          λ e. ground arith,
        )))
