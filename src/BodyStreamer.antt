-- ===== src/BodyStreamer.antt =====
-- `BodyStreamer` of proxy/http_parser.py: the body of a message goes from a reader to a writer.
--
-- The silences that `wait_for_read` turns into `TimeoutError` are in the reader's script, and the
-- ends of `wait_for_write(writer.drain())` are in the writer's. A loop takes fuel; where the fuel is
-- not given by the number of bytes wanted, it is an argument.
pub mod Round
pub mod Identity
pub mod Eof
pub mod Chunked
pub mod Writing
mod Tests
use nginx_remake_v.Prelude.{
  ℕ, zero, suc, ◌+◌, ◌-◌, ◌*◌, ◌/◌, ◌%◌, ◌≤◌, ◌<◌, min, max, ◌≡◌, refl, sym, ap, ◌∙◌, subst, ◌≢◌,
  ◌↔◌, ◌⊎◌, inl, inr, Bool, true, false, not, ◌&&◌, ◌||◌, Option, none, some, List, [], ◌∷◌, ◌++◌,
  map, append-nil, append_assoc, arith, ap₂, ltb, leb, eqb, if◌then◌else◌, ltb→lt, leb→le, eqb_iff,
  Bool-cases, Option-cases, length, get_elem?, take, drop, length-append, take-append-drop,
  length-take, length-drop, Text, Bytes, codes, text_eq, text_eq_iff, Key, ◌==◌, number_keys,
  text_keys,
}
use nginx_remake_v.Prelude.Dict.{
  Dict, lookup, insert, lookup-insert, lookup-insert_self, lookup-insert_ne,
}
use nginx_remake_v.Exec.{
  Exception, body_streamer_error, Result, ok, err, spinning, Coro, pure, raise, ◌>>=◌, ◌>>◌,
}
use nginx_remake_v.Stream
use nginx_remake_v.Stream.{StreamWriter}
use nginx_remake_v.BufferedReader
use nginx_remake_v.BufferedReader.{UnreadableStreamReader}

-- The reader and the writer of one call.
pub record Link : Type 0 where
  pub reader : UnreadableStreamReader
  pub writer : StreamWriter

unfoldable pub recv : ℕ → Coro Link Bytes
recv n l = let (x, r) = BufferedReader.read n l.reader in (x, record l { reader = r })

unfoldable pub recv_line : Coro Link Bytes
recv_line l = let (x, r) = BufferedReader.readline l.reader in (x, record l { reader = r })

unfoldable pub send : Bytes → Coro Link (Unit {0})
send d l = (ok tt, record l { writer = Stream.write d l.writer })

unfoldable pub flush : Coro Link (Unit {0})
flush l = let (x, w) = Stream.drain l.writer in (x, record l { writer = w })

-- `if not chunk: raise BodyStreamerError(...)`
require : Bytes → Coro Link (Unit {0})
require [] = raise body_streamer_error
require (c ∷ s) = pure tt

-- `writer.write(chunk)`, the drain, and the number of bytes.
unfoldable pub forward : Bytes → Coro Link ℕ
unfolding send flush
forward chunk = do send chunk; flush; pure (length chunk)

-- The body of the loops over a counted part: read at most `want` bytes, and forward them.
unfoldable pub round : ℕ → ℕ → Coro Link ℕ
unfolding recv require forward
round chunk_size want = do chunk ← recv (min chunk_size want); require chunk; forward chunk

pub identity_loop : ℕ → ℕ → ℕ → ℕ → Coro Link ℕ
identity_loop zero chunk_size total content_length l = (spinning, l)
identity_loop (suc fuel) chunk_size total content_length l = elim (ltb total content_length) [
  | true ↦
      (do
        n ← round chunk_size (content_length - total)
        identity_loop fuel chunk_size (total + n) content_length)
        l
  | false ↦ (ok total, l)
]

-- `stream_identity`, for a length that is not negative; each round takes a byte or raises.
unfoldable pub stream_identity : ℕ → ℕ → Coro Link ℕ
unfolding identity_loop
stream_identity chunk_size content_length =
    identity_loop (content_length + 1) chunk_size 0 content_length

-- A round of `stream_to_eof` and the rounds after it; no bytes end the loop.
eof_step : (ℕ → Coro Link ℕ) → ℕ → Bytes → Coro Link ℕ
unfolding forward
eof_step again total [] = pure total
eof_step again total (c ∷ s) = do n ← forward (c ∷ s); again (total + n)

eof_loop : ℕ → ℕ → ℕ → Coro Link ℕ
unfolding eof_step recv
eof_loop zero chunk_size total l = (spinning, l)
eof_loop (suc fuel) chunk_size total l =
    (do chunk ← recv chunk_size; eof_step (eof_loop fuel chunk_size) total chunk) l

unfoldable pub stream_to_eof : ℕ → ℕ → Coro Link ℕ
unfolding eof_loop
stream_to_eof fuel chunk_size = eof_loop fuel chunk_size 0
