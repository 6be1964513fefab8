-- ===== src/ClientHandler/Passing.antt =====
-- What a client has been sent once a response is passed on.
use nginx_remake_v.Prelude.{
  ◌≡◌, refl, sym, ap, ◌∙◌, ◌⊎◌, inl, inr, Bool, true, false, ◌&&◌, some, ◌++◌, [], append-nil,
  append_assoc, leb, ltb, Bool-cases, Bytes, number_keys, text_keys,
}
use nginx_remake_v.Exec.{ok}
use nginx_remake_v.Stream
use nginx_remake_v.Stream.{StreamWriter}
use nginx_remake_v.Stream.Writing.{write_open, write_closed, drain-Drains}
use nginx_remake_v.BodyStreamer.Writing.{IsKept}
use nginx_remake_v.Messages.{HttpResponse, response_to_bytes}
use nginx_remake_v.ClientHandler.{Settings, ClientHandler, modify_response_headers}
use nginx_remake_v.ClientHandler.Attempt.{Serving, read_response_headers}

-- The client's writer before a request: what it holds, and whether it may be closed when the answer
-- is written, in which case it takes nothing.
pub record Before : Type 0 where
  pub written : Bytes
  pub shut : Bool

-- Behind `b` the writer has taken `head` and what came after it.
pub record Follows (b head : Bytes) (w : StreamWriter) : Type 0 where
  pub body : Bytes
  pub in_order : w.written ≡ b ++ (head ++ body)

-- The writer was closed before the answer and took nothing.
abbrev pub Drops : Before → StreamWriter → Type 0
Drops b w = (w.written ≡ b.written) × (w.closing ≡ true) × (b.shut ≡ true)

abbrev pub Bears : Before → Bytes → StreamWriter → Type 0
Bears b head w = Follows b.written head w ⊎ Drops b w

Bears-write :
    (b : Before) (head d : Bytes) (w : StreamWriter)
    → Bears b head w
    → Bears b head (Stream.write d w)
Bears-write b head d w p = go (Bool-cases w.closing) p
  where
    written : w.closing ≡ false → (Stream.write d w).written ≡ w.written ++ d
    written e = ap (λ (x : StreamWriter). x.written) (write_open d w e)

    go : (w.closing ≡ true) ⊎ (w.closing ≡ false) → Bears b head w → Bears b head (Stream.write d w)
    go (inl shut) q = rw (write_closed d w shut) q
    go (inr unshut) (inl f) = inl (record {
      body = f.body ++ d;
      in_order =
          written unshut
          ∙ ap (λ (x : Bytes). x ++ d) f.in_order
          ∙ append_assoc b.written (head ++ f.body) d
          ∙ ap (λ (x : Bytes). b.written ++ x) (append_assoc head f.body d);
    })
    go (inr unshut) (inr (e, shut, may)) = cc

Bears-drain :
    (b : Before) (head : Bytes) (w : StreamWriter)
    → Bears b head w
    → Bears b head (Stream.drain w).1
Bears-drain b head w (inl f) =
    inl (record { body = f.body; in_order = (drain-Drains w).same_bytes ∙ f.in_order })
Bears-drain b head w (inr (e, shut, may)) =
    inr ((drain-Drains w).same_bytes ∙ e, (drain-Drains w).same_state ∙ shut, may)

pub Bears-IsKept : (b : Before) (head : Bytes) → IsKept (Bears b head)
Bears-IsKept b head = record { by_write = Bears-write b head; by_drain = Bears-drain b head }

-- The head is written first.
pub Bears-head :
    (b : Before) (head : Bytes) (w : StreamWriter)
    → w.written ≡ b.written
    → (w.closing ≡ true → b.shut ≡ true)
    → Bears b head (Stream.write head w)
Bears-head b head w e may = elim (Bool-cases w.closing) [
  | inl shut ↦ inr (rw (write_closed head w shut) (e, shut, may shut))
  | inr unshut ↦ inl (record {
    body = [];
    in_order =
        ap (λ (x : StreamWriter). x.written) (write_open head w unshut)
        ∙ ap (λ (x : Bytes). x ++ head) e
        ∙ ap (λ (x : Bytes). b.written ++ x) (sym (append-nil head));
  })
]

pub Bears-close :
    (b : Before) (head : Bytes) (w : StreamWriter) → Bears b head w → Bears b head (Stream.close w)
unfolding Stream.close
Bears-close b head w (inl f) = inl (record { body = f.body; in_order = f.in_order })
Bears-close b head w (inr (e, shut, may)) = inr (e, refl, may)

-- The parser has made this response of what was read from a connection to an upstream.
pub record Received (s : Settings) (resp : HttpResponse) : Type 0 where
  pub serving : Serving
  pub result : (read_response_headers s serving).0 ≡ ok (some resp)

-- A response from an upstream that is no server error was passed on: the client was sent its status
-- line and headers, as they are rewritten, and nothing but bytes of a body behind them.
pub record Passed (s : Settings) (keep : Bool) (b : Before) (h : ClientHandler) : Type 0 where
  pub response : HttpResponse
  pub head : Bytes
  pub received : Received s response
  pub no_failure : (leb 500 response.status_code && ltb response.status_code 600) ≡ false
  pub serialised : response_to_bytes (modify_response_headers s response keep) ≡ ok head
  pub same_status : h.status_code ≡ response.status_code
  pub committed : h.response_committed ≡ true
  pub successful : h.successful_request ≡ true
  pub sent : Bears b head h.client_writer
