-- ===== src/ClientHandler/ReadHead.antt =====
-- The loops of `_read_request_headers` and `_read_response_headers` of proxy/client_handler.py, which
-- differ in what is parsed and in the counter of bytes.
use nginx_remake_v.Prelude.{
  ℕ, zero, suc, ◌+◌, Bool, true, false, Option, none, some, [], ◌∷◌, length, Bytes, number_keys,
  text_keys,
}
use nginx_remake_v.Exec.{Result, ok, err, spinning, Coro, pure, raise, ◌>>=◌, ◌>>◌}
use nginx_remake_v.BufferedReader
use nginx_remake_v.BufferedReader.{UnreadableStreamReader}
use nginx_remake_v.MessageParser.{HttpMessageParser, message_parser, feed}

-- The reader, and how many bytes were counted.
pub record Intake : Type 0 where
  pub reader : UnreadableStreamReader
  pub bytes : ℕ

module _ {M : Type 0} (build : Bytes → Result M) (chunk_size : ℕ) where
  unfoldable pub take_chunk : Coro Intake Bytes
  take_chunk s =
      let (x, r) = BufferedReader.read chunk_size s.reader in (x, record s { reader = r })

  unfoldable pub count : ℕ → Coro Intake (Unit {0})
  count n s = (ok tt, record s { bytes = s.bytes + n })

  -- After the loop: the rest of the body is put back.
  unfoldable pub put_back : Option M → Bytes → Coro Intake (Option M)
  put_back none rest s = (ok none, s)
  put_back (some m) rest s =
      (ok (some m), record s { reader = BufferedReader.unread rest s.reader })

  -- What `feed` gave, and its parser after it; where it raised, nothing is counted.
  unfoldable pub fed :
      Coro Intake (Option M) → ℕ → Bool → Result (Option M × Bytes) → Coro Intake (Option M)
  fed again n done (err e) = raise e
  fed again n done Result.spinning = λ s. (spinning, s)
  fed again n done (ok (m, rest)) = do count n; elim done [ true ↦ put_back m rest | false ↦ again ]

  unfoldable pub feed_chunk :
      (HttpMessageParser → Coro Intake (Option M))
      → HttpMessageParser
      → Bytes
      → Coro Intake (Option M)
  feed_chunk again p [] = pure none
  feed_chunk again p (c ∷ s) =
      let (x, p') = feed build p (c ∷ s) in fed (again p') (length (c ∷ s)) p'.headers_done x

  unfoldable pub head_loop : ℕ → HttpMessageParser → Coro Intake (Option M)
  head_loop zero p s = (spinning, s)
  head_loop (suc fuel) p s = elim p.headers_done [
    | true ↦ (ok none, s)
    | false ↦ (take_chunk >>= λ chunk. feed_chunk (head_loop fuel) p chunk) s
  ]

  -- From a new parser; each round but the last takes a byte.
  unfoldable pub read_head : ℕ → Coro Intake (Option M)
  read_head fuel = head_loop fuel message_parser
