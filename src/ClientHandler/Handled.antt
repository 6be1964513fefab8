-- ===== src/ClientHandler/Handled.antt =====
-- Every request that was read is answered once.
use nginx_remake_v.Prelude.{
  ℕ, ◌+◌, ◌<◌, ◌≡◌, refl, ap, sym, ◌∙◌, inl, Bool, true, false, ◌&&◌, Option, none, some, arith,
  ltb, leb, Text, number_keys, text_keys,
}
use nginx_remake_v.Exec.{Result, ok, err, spinning, Coro, resume, ◌>>=◌, ◌>>◌}
use nginx_remake_v.Exec.Rules.{Ensures, Keeps, Ensures-bind}
use nginx_remake_v.Stream.{StreamWriter}
use nginx_remake_v.Headers.{HttpRequest}
use nginx_remake_v.Messages.{HttpResponse, request_to_bytes, safe_method}
use nginx_remake_v.ConnectionPool.{PooledConnection}
use nginx_remake_v.UpstreamPool.{Upstream, enter_connection}
use nginx_remake_v.ClientHandler.{
  Settings, Surroundings, ClientHandler, should_retry, modify_request_headers,
}
use nginx_remake_v.ClientHandler.Attempt.{
  Serving, Outcome, finished, gave_up, again, update, lift, send_up, drain_up,
  read_response_headers, forward_request, route, on_response, on_headers, exchange, leave,
  with_connection, try_upstream,
}
use nginx_remake_v.ClientHandler.Answers.{Fresh, Ends, IsQuiet, Post, give_up-Ends, retry-Ends}
use nginx_remake_v.ClientHandler.Forwarded.{IsAt, pass_on-Ends}
use nginx_remake_v.ClientHandler.Passing.{Before, Received}

-- A handler with the same flags and the same writer.
still :
    {b : Before} {h h' : ClientHandler}
    → Fresh b h
    → h'.response_committed ≡ h.response_committed
    → h'.successful_request ≡ h.successful_request
    → h'.client_writer ≡ h.client_writer
    → Fresh b h'
still (q, may) c s w = (
  record {
    uncommitted = c ∙ q.uncommitted;
    hopeful = s ∙ q.hopeful;
    silent = ap (λ (x : StreamWriter). x.written) w ∙ q.silent;
  },
  λ e. may (sym (ap (λ (x : StreamWriter). x.closing) w) ∙ e),
)

module _ (s : Settings) (b : Before) where
  -- A step that leaves the answer open, before the rest.
  bind-Ends :
      {A : Type 0} (method : Text) (keep : Bool) (n : ℕ) (m : Coro Serving A)
      (f : A → Coro Serving Outcome)
      → Keeps (IsQuiet s b) m
      → ((a : A) → Ensures (IsQuiet s b) (f a) (Post s b method keep n))
      → Ensures (IsQuiet s b) (m >>= f) (Post s b method keep n)
  bind-Ends method keep n m f keeps rest =
      Ensures-bind (IsQuiet s b) (IsQuiet s b) (Post s b method keep n) m f keeps (λ e v q. inl q)
        (λ v q. inl q) rest

  route-Ends :
      (method : Text) (keep : Bool) (clock : ℕ → ℕ) (n : ℕ) (resp : HttpResponse) (r e : Bool)
      → Received s resp
      → (r ≡ true → (safe_method s.unicode method ≡ true) × (n < s.retry_config.max_retries))
      → (leb 500 resp.status_code && ltb resp.status_code 600) ≡ e
      → Ensures (IsAt s b resp) (route s r e keep clock n resp) (Post s b method keep n)
  unfolding route
  route-Ends method keep clock n resp true e got may fails v (q, status) =
      let (safe, more) = may refl in retry-Ends s b method keep clock n safe more v q
  route-Ends method keep clock n resp false true got may fails v (q, status) =
      give_up-Ends s b method keep n v q
  route-Ends method keep clock n resp false false got may fails v at =
      pass_on-Ends s b method n resp keep got fails v at

  on_response-Ends :
      (req : HttpRequest) (keep : Bool) (clock : ℕ → ℕ) (n : ℕ) (resp : HttpResponse)
      → Received s resp
      → Ensures (IsQuiet s b) (on_response s req keep clock n resp) (Post s b req.method keep n)
  unfolding on_response update should_retry
  on_response-Ends req keep clock n resp got =
      let again' = should_retry s req.method resp && ltb n s.retry_config.max_retries in
      let fails = leb 500 resp.status_code && ltb resp.status_code 600 in
      Ensures-bind (IsQuiet s b) (IsAt s b resp) (Post s b req.method keep n)
        (update (λ h. record h { status_code = resp.status_code }))
        (λ _. route s again' fails keep clock n resp) (λ v q. (still q refl refl refl, refl))
        (λ e v q. inl q.0) (λ v q. inl q.0)
        (λ _.
          route-Ends req.method keep clock n resp again' fails got (λ e. ground (arith, e)) refl)

  on_headers-Ends :
      (req : HttpRequest) (keep : Bool) (clock : ℕ → ℕ) (n : ℕ) (resp : Option HttpResponse)
      (v : Serving)
      → (read_response_headers s v).0 ≡ ok resp
      → Ensures (IsQuiet s b) (on_headers s req keep clock n resp) (Post s b req.method keep n)
  unfolding on_headers
  on_headers-Ends req keep clock n none v got = give_up-Ends s b req.method keep n
  on_headers-Ends req keep clock n (some r) v got =
      on_response-Ends req keep clock n r (record { serving = v; result = got })

  -- The reading of a response's headers leaves the client alone.
  read_response_headers-Quiet : Keeps (IsQuiet s b) (read_response_headers s)
  unfolding read_response_headers
  read_response_headers-Quiet v q = still q refl refl refl

  on_result :
      (req : HttpRequest) (keep : Bool) (clock : ℕ → ℕ) (n : ℕ) (v : Serving)
      (x : Result (Option HttpResponse)) (v' : Serving)
      → (read_response_headers s v).0 ≡ x
      → IsQuiet s b v'
      → Post s b req.method keep n (resume x (on_headers s req keep clock n) v')
  on_result req keep clock n v (ok resp) v' got q = on_headers-Ends req keep clock n resp v got v' q
  on_result req keep clock n v (err e) v' got q = inl q
  on_result req keep clock n v spinning v' got q = inl q

  -- The part of an attempt between the request's headers and the response.
  asked :
      (req : HttpRequest) (keep : Bool) (clock : ℕ → ℕ) (n k : ℕ)
      → Ensures
          (IsQuiet s b)
          (update (λ h. record h { bytes_in = h.bytes_in + k })
            >> (read_response_headers s >>= on_headers s req keep clock n))
          (Post s b req.method keep n)
  unfolding update
  asked req keep clock n k =
      bind-Ends req.method keep n (update (λ h. record h { bytes_in = h.bytes_in + k }))
        (λ _. read_response_headers s >>= on_headers s req keep clock n)
        (λ v q. still q refl refl refl)
        (λ _ v q.
          on_result req keep clock n v (read_response_headers s v).0 (read_response_headers s v).1
            refl (read_response_headers-Quiet v q))

  exchange-Ends :
      (req : HttpRequest) (keep : Bool) (clock : ℕ → ℕ) (n : ℕ)
      → Ensures (IsQuiet s b) (exchange s req keep clock n) (Post s b req.method keep n)
  unfolding exchange lift send_up drain_up forward_request
  exchange-Ends req keep clock n =
      let after_body : ℕ → Coro Serving Outcome = λ k.
        update (λ h. record h { bytes_in = h.bytes_in + k })
        >> (read_response_headers s >>= on_headers s req keep clock n) in
      let body : Coro Serving Outcome = forward_request s req >>= after_body in
      bind-Ends req.method keep n (lift (request_to_bytes (modify_request_headers s req keep)))
        (λ head. send_up head >> (drain_up >> body)) (λ v q. q)
        (λ head.
          bind-Ends req.method keep n (send_up head) (λ _. drain_up >> body) (λ v q. q)
            (λ _.
              bind-Ends req.method keep n drain_up (λ _. body) (λ v q. q)
                (λ _.
                  bind-Ends req.method keep n (forward_request s req) after_body
                    (λ v q. still q refl refl refl) (asked req keep clock n))))

  -- The same of the handler alone.
  abbrev pub Left : Text → Bool → ℕ → Result Outcome × ClientHandler → Type 0
  Left method keep n x = Ends s method keep n b x.0 x.1

  leave-Ends :
      (method : Text) (keep : Bool) (n : ℕ) (u : Upstream) (now : ℕ) (x : Result Outcome × Serving)
      → Post s b method keep n x
      → Left method keep n (leave s u now x)
  unfolding leave
  leave-Ends method keep n u now (ok finished, v) p = ground arith
  leave-Ends method keep n u now (ok gave_up, v) p = ground arith
  leave-Ends method keep n u now (ok again, v) p = ground arith
  leave-Ends method keep n u now (err e, v) p = ground arith
  leave-Ends method keep n u now (spinning, v) p = ground arith

  with_connection-Ends :
      (req : HttpRequest) (keep : Bool) (env : Surroundings) (n : ℕ) (c : Result PooledConnection)
      (h : ClientHandler)
      → Fresh b h
      → Left req.method keep n (with_connection s req keep env n c h)
  unfolding with_connection
  with_connection-Ends req keep env n (ok c) h q =
      leave-Ends req.method keep n h.upstream env.released_at _
        (exchange-Ends req keep env.chosen_at n _ q)
  with_connection-Ends req keep env n (err e) h q = inl q
  with_connection-Ends req keep env n spinning h q = inl q

  pub try_upstream-Ends :
      (req : HttpRequest) (keep : Bool) (env : Surroundings) (n : ℕ) (h : ClientHandler)
      → Fresh b h
      → Left req.method keep n (try_upstream s req keep env n h)
  unfolding try_upstream
  try_upstream-Ends req keep env n h q =
      with_connection-Ends req keep env n
        (enter_connection h.pool h.upstream env.acquired_at env.opened).0 _ (still q refl refl refl)
