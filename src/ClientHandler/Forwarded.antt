-- ===== src/ClientHandler/Forwarded.antt =====
-- A response that goes to the client, from its head to the end of its body.
use nginx_remake_v.Prelude.{
  ℕ, ◌+◌, ◌≡◌, refl, inl, inr, Bool, false, leb, ltb, ◌&&◌, Text, Bytes, number_keys, text_keys,
}
use nginx_remake_v.Exec.{Result, ok, err, spinning, pure, ◌>>=◌, ◌>>◌}
use nginx_remake_v.Exec.Rules.{Ensures, Ensures-bind}
use nginx_remake_v.Stream
use nginx_remake_v.Stream.{StreamWriter}
use nginx_remake_v.Messages.{HttpResponse, response_to_bytes}
use nginx_remake_v.Messages.Forwarding.{stream_response-Keeps}
use nginx_remake_v.ClientHandler.{Settings, ClientHandler, modify_response_headers}
use nginx_remake_v.ClientHandler.Attempt.{
  Serving, finished, of_handler, update, lift, commit, drain_client, forward_response, pass_on,
}
use nginx_remake_v.ClientHandler.Passing.{Before, Bears, Bears-IsKept, Bears-head, Received, Passed}
use nginx_remake_v.ClientHandler.Answers.{Fresh, Post}

module _ (s : Settings) (b : Before) where
  -- A step behind the head of a response leaves it as it is.
  Passed-writer :
      (keep : Bool) (h : ClientHandler) (w : StreamWriter)
      → (p : Passed s keep b h) → Bears b p.head w
      → Passed s keep b (record h { client_writer = w })
  Passed-writer keep h w p bears = record {
    response = p.response;
    head = p.head;
    received = p.received;
    no_failure = p.no_failure;
    serialised = p.serialised;
    same_status = p.same_status;
    committed = p.committed;
    successful = p.successful;
    sent = bears;
  }

  -- Nothing was sent, and the status is that of the response at hand.
  abbrev pub IsAt : HttpResponse → Serving → Type 0
  IsAt resp v = Fresh b v.handler × (v.handler.status_code ≡ resp.status_code)

  committed-Passed :
      (resp : HttpResponse) (keep : Bool) (head : Bytes) (v : Serving)
      → Received s resp
      → (leb 500 resp.status_code && ltb resp.status_code 600) ≡ false
      → response_to_bytes (modify_response_headers s resp keep) ≡ ok head
      → IsAt resp v
      → Passed s keep b (commit head v.handler)
  unfolding commit
  committed-Passed resp keep head v got fine same ((q, may), status) = record {
    response = resp;
    head = head;
    received = got;
    no_failure = fine;
    serialised = same;
    same_status = status;
    committed = refl;
    successful = q.hopeful;
    sent = Bears-head b head v.handler.client_writer q.silent may;
  }

  -- The part of pass_on behind the head.
  after_commit :
      (method : Text) (n : ℕ) (resp : HttpResponse) (keep : Bool)
      → Ensures
          (λ (v : Serving). Passed s keep b v.handler)
          (of_handler drain_client
            >> (forward_response s resp >>= λ k.
                update (λ h. record h { bytes_out = h.bytes_out + k }) >> pure finished))
          (Post s b method keep n)
  unfolding update of_handler drain_client forward_response
  after_commit method n resp keep =
      let Has : Serving → Type 0 = λ v. Passed s keep b v.handler in
      Ensures-bind Has Has (Post s b method keep n) (of_handler drain_client) _
        (λ v p.
          Passed-writer keep v.handler (Stream.drain v.handler.client_writer).1 p
            ((Bears-IsKept b p.head).by_drain v.handler.client_writer p.sent))
        (λ e v p. inr (inr p)) (λ v p. inr (inr p))
        (λ _.
          Ensures-bind Has Has (Post s b method keep n) (forward_response s resp) _
            (λ v p. Passed-writer keep v.handler _ p (
              stream_response-Keeps (Bears b p.head) (Bears-IsKept b p.head) s.unicode s.fuel
                s.chunk_size resp.headers
                (record { reader = v.up_reader; writer = v.handler.client_writer }) p.sent))
            (λ e v p. inr (inr p)) (λ v p. inr (inr p))
            (λ k v p. record {
              response = p.response;
              head = p.head;
              received = p.received;
              no_failure = p.no_failure;
              serialised = p.serialised;
              same_status = p.same_status;
              committed = p.committed;
              successful = p.successful;
              sent = p.sent;
            }))

  pub pass_on-Ends :
      (method : Text) (n : ℕ) (resp : HttpResponse) (keep : Bool)
      → Received s resp
      → (leb 500 resp.status_code && ltb resp.status_code 600) ≡ false
      → Ensures (IsAt resp) (pass_on s resp keep) (Post s b method keep n)
  unfolding pass_on lift update
  pass_on-Ends method n resp keep got fine v (q, status) =
      go (response_to_bytes (modify_response_headers s resp keep)) refl
    where
      go :
          (x : Result Bytes)
          → response_to_bytes (modify_response_headers s resp keep) ≡ x
          → Post s b method keep n (
              (lift x >>= λ head.
              update (commit head)
              >> (of_handler drain_client
                  >> (forward_response s resp >>= λ k.
                      update (λ h. record h { bytes_out = h.bytes_out + k }) >> pure finished)))
                v)
      go (ok head) same =
          after_commit method n resp keep (record v { handler = commit head v.handler })
            (committed-Passed resp keep head v got fine same (q, status))
      go (err e) same = inl q
      go spinning same = inl q
