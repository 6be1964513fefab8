-- ===== src/BodyStreamer/Chunked.antt =====
-- `stream_chunked` of proxy/http_parser.py, and the pattern `_CHUNK_EXT` of a chunk's first line.
pub mod Wire
pub mod Message
pub mod Spin
use nginx_remake_v.Prelude.{
  ℕ, zero, suc, ◌+◌, ◌-◌, ◌*◌, ◌/◌, ◌%◌, ◌≤◌, ◌<◌, min, max, ◌≡◌, refl, sym, ap, ◌∙◌, subst, ◌≢◌,
  ◌↔◌, ◌⊎◌, inl, inr, Bool, true, false, not, ◌&&◌, ◌||◌, Option, none, some, List, [], ◌∷◌, ◌++◌,
  map, append-nil, append_assoc, arith, ap₂, ltb, leb, eqb, if◌then◌else◌, ltb→lt, leb→le, eqb_iff,
  Bool-cases, Option-cases, length, get_elem?, take, drop, length-append, take-append-drop,
  length-take, length-drop, Text, Bytes, codes, text_eq, text_eq_iff, Key, ◌==◌, number_keys,
  text_keys,
}
use nginx_remake_v.Prelude.Dict.{
  Dict, lookup, insert, lookup-insert, lookup-insert_self, lookup-insert_ne,
}
use nginx_remake_v.Exec.{
  Exception, body_streamer_error, Result, ok, err, spinning, Coro, pure, raise, ◌>>=◌, ◌>>◌,
}
use nginx_remake_v.BodyStreamer.{Link, recv_line, send, flush, round}

unfoldable pub hex_digit : ℕ → Option ℕ
hex_digit c =
    if leb b'0' c && leb c b'9'
    then some (c - 48)
    else if leb b'a' c && leb c b'f'
    then some (c - 87)
    else if leb b'A' c && leb c b'F'
    then some (c - 55)
    else none

-- The value of the longest run of digits in front, after `v`, how many there are, and what follows.
hex_run : Bytes → ℕ → ℕ → ℕ × ℕ × Bytes
unfolding hex_digit
hex_run [] v n = (v, n, [])
hex_run (c ∷ s) v n =
    let here : ℕ × ℕ × Bytes = (v, n, c ∷ s) in
    elim (hex_digit c) [ none ↦ here | some d ↦ hex_run s (v * 16 + d) (n + 1) ]

-- `.*\r\n`, in which the dot stands for no newline.
ends_line : Bytes → Bool
ends_line [] = false
ends_line (c ∷ []) = false
ends_line (c ∷ e ∷ s) =
    if eqb c 10 then false else if eqb c 13 && eqb e 10 then true else ends_line (e ∷ s)

is_crlf : Bytes → Bool
is_crlf [] = false
is_crlf (c ∷ []) = false
is_crlf (c ∷ e ∷ s) = eqb c 13 && eqb e 10

-- `(?:;.*)?\r\n`
extension : Bytes → Bool
unfolding ends_line is_crlf
extension [] = false
extension (c ∷ s) = if eqb c 59 then ends_line s else is_crlf (c ∷ s)

-- `_CHUNK_EXT.match(line)` and `int(m.group(1), 16)`
unfoldable pub chunk_size_of : Bytes → Option ℕ
unfolding hex_run extension
chunk_size_of line =
    let (v, n, more) = hex_run line 0 0 in if ltb 0 n && extension more then some v else none

-- The loop over the bytes of a chunk and the two behind them; gives the number forwarded in all.
unfoldable pub data_loop : ℕ → ℕ → ℕ → ℕ → Coro Link ℕ
data_loop zero chunk_size want total l = (spinning, l)
data_loop (suc fuel) chunk_size want total l = elim (ltb 0 want) [
  | true ↦ (do n ← round chunk_size want; data_loop fuel chunk_size (want - n) (total + n)) l
  | false ↦ (ok total, l)
]

-- A chunk after its first line, and the chunks after it; a size of 0 ends the loop.
unfoldable pub chunk_step : (ℕ → Coro Link ℕ) → ℕ → ℕ → Bytes → Option ℕ → Coro Link ℕ
chunk_step again chunk_size total line none = raise body_streamer_error
chunk_step again chunk_size total line (some zero) = pure total
chunk_step again chunk_size total line (some (suc n)) = do
  send line
  total' ← data_loop (suc n + 3) chunk_size (suc n + 2) total
  again total'

unfoldable pub chunked_loop : ℕ → ℕ → ℕ → Coro Link ℕ
chunked_loop zero chunk_size total l = (spinning, l)
chunked_loop (suc fuel) chunk_size total l =
    (do
      line ← recv_line
      chunk_step (chunked_loop fuel chunk_size) chunk_size total line (chunk_size_of line))
      l

-- The lines up to the empty one. Nothing ends the loop at the end of the file, where `readline`
-- gives no bytes again and again.
unfoldable pub trailer_loop : ℕ → Coro Link (Unit {0})
trailer_loop zero l = (spinning, l)
trailer_loop (suc fuel) l =
    (do
      line ← recv_line
      send line
      flush
      elim (text_eq line (codes "\r\n")) [ true ↦ pure tt | false ↦ trailer_loop fuel ])
      l

unfoldable pub stream_chunked : ℕ → ℕ → Coro Link ℕ
stream_chunked fuel chunk_size = do
  total ← chunked_loop fuel chunk_size 0
  send (codes "0\r\n")
  flush
  trailer_loop fuel
  pure total
