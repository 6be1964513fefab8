-- ===== src/BodyStreamer/Chunked/Message.antt =====
-- The trailers, and a chunked body as a whole.
use nginx_remake_v.Prelude.{
  ℕ, zero, suc, ◌<◌, ◌≡◌, refl, ◌∙◌, ◌≢◌, inl, inr, false, some, List, [], ◌∷◌, ◌++◌, append_assoc,
  arith, Bool-cases, length, Bytes, codes, text_eq, text_eq_iff, number_keys, text_keys,
}
use nginx_remake_v.Exec.{Result, ok, err, spinning, pure, resume, ◌>>◌}
use nginx_remake_v.BufferedReader.Laws.{content}
use nginx_remake_v.Stream.{split_line}
use native.Mathlib.Nat.{zero-add}
use nginx_remake_v.BodyStreamer.{Link, send, flush}
use nginx_remake_v.BodyStreamer.Round.{IsCalm}
use nginx_remake_v.BodyStreamer.Identity.{Exact}
use nginx_remake_v.BodyStreamer.Chunked.{chunk_size_of, chunked_loop, trailer_loop, stream_chunked}
use nginx_remake_v.BodyStreamer.Chunked.Wire.{
  IsLine, recv_line-IsLine, sent, send_calm, flush_calm, Chunk, AreChunks, wire, counted,
  chunked_loop-Exact,
}

abbrev pub crlf : Bytes
crlf = codes "\r\n"

-- Trailer lines, none of which is the empty one.
abbrev pub AreTrailers : List Bytes → Type 0
AreTrailers [] = Unit
AreTrailers (t ∷ ts) = IsLine t × (t ≢ crlf) × AreTrailers ts

abbrev pub lines : List Bytes → Bytes
lines [] = []
lines (t ∷ ts) = t ++ lines ts

-- The call ended, with `d` forwarded and `more` left to be read.
pub record Ends (l : Link) (d more : Bytes) (x : Result (Unit {0}) × Link) : Type 0 where
  pub gives : x.0 ≡ ok tt
  pub left : content (x.1).reader ≡ more
  pub given : (x.1).writer.written ≡ l.writer.written ++ d
  pub calm : IsCalm x.1

crlf-IsLine : IsLine crlf
unfolding split_line
crlf-IsLine = record { whole = refl; short = omega arith }

pub not_crlf : (t : Bytes) → t ≢ crlf → text_eq t crlf ≡ false
not_crlf t h = elim (Bool-cases (text_eq t crlf)) [
  | inl e ↦ absurd (h ((text_eq_iff t crlf).0 e))
  | inr e ↦ e
]

trailer_loop-Ends :
    (ts : List Bytes) (fuel : ℕ) (l : Link) (more : Bytes)
    → length ts < fuel
    → IsCalm l
    → AreTrailers ts
    → content l.reader ≡ lines ts ++ (crlf ++ more)
    → Ends l (lines ts ++ crlf) more (trailer_loop fuel l)
unfolding trailer_loop
trailer_loop-Ends ts zero l more f c a split = absurd (omega arith)
trailer_loop-Ends [] (suc fuel) l more f c a split =
    let (u, e, left, q) = recv_line-IsLine l crlf more c crlf-IsLine split in
    let n : Link = record l { reader = u } in
    let calm : IsCalm n = record { quiet = q; shut = c.shut; drained = c.drained } in
    let calm' : IsCalm (sent crlf n) = record { quiet = q; shut = c.shut; drained = c.drained } in
    rw (e, send_calm crlf n calm, flush_calm (sent crlf n) calm')
      (record { gives = refl; left = left; given = refl; calm = calm' })
trailer_loop-Ends (t ∷ ts) (suc fuel) l more f c a split =
    let (u, e, left, q) =
      recv_line-IsLine l t (lines ts ++ (crlf ++ more)) c a.0 (split ∙ simp append_assoc) in
    let n : Link = record l { reader = u } in
    let calm : IsCalm n = record { quiet = q; shut = c.shut; drained = c.drained } in
    let m = sent t n in
    let calm' : IsCalm m = record { quiet = q; shut = c.shut; drained = c.drained } in
    let g = trailer_loop-Ends ts fuel m more (omega arith) calm' a.2 left in
    rw (e, send_calm t n calm, flush_calm m calm', not_crlf t a.1)
      (record {
        gives = g.gives;
        left = g.left;
        given = g.given ∙ simp append_assoc;
        calm = g.calm;
      })

-- A chunked message on the wire, up to and with its last empty line.
pub record Message : Type 0 where
  pub chunks : List Chunk
  pub last : Bytes
  pub trailers : List Bytes

pub record IsMessage (m : Message) : Type 0 where
  pub chunks_valid : AreChunks m.chunks
  pub last_line : IsLine m.last
  pub last_size : chunk_size_of m.last ≡ some 0
  pub trailers_valid : AreTrailers m.trailers

abbrev pub received : Message → Bytes
received m = wire m.chunks ++ (m.last ++ (lines m.trailers ++ crlf))

-- What `stream_chunked` writes: the last chunk's line loses its extensions.
abbrev pub forwarded : Message → Bytes
forwarded m = wire m.chunks ++ (codes "0\r\n" ++ (lines m.trailers ++ crlf))

after_chunks :
    (l : Link) (w : Bytes) (ts : List Bytes) (more : Bytes) (t fuel : ℕ) (x : Result ℕ × Link)
    → length ts < fuel
    → AreTrailers ts
    → Exact l w (lines ts ++ (crlf ++ more)) t x
    → Exact l
        (w ++ (codes "0\r\n" ++ (lines ts ++ crlf)))
        more
        t
        (resume x.0 (λ total. do send (codes "0\r\n"); flush; trailer_loop fuel; pure total) x.1)
after_chunks l w ts more t fuel (ok n, m) f a e =
    let sent_calm : IsCalm (sent (codes "0\r\n") m) = record {
      quiet = e.calm.quiet;
      shut = e.calm.shut;
      drained = e.calm.drained;
    } in
    rw (send_calm (codes "0\r\n") m e.calm, flush_calm (sent (codes "0\r\n") m) sent_calm)
      (after_trailers (trailer_loop fuel (sent (codes "0\r\n") m))
        (trailer_loop-Ends ts fuel (sent (codes "0\r\n") m) more f sent_calm a e.left))
  where
    after_trailers :
        (y : Result (Unit {0}) × Link)
        → Ends (sent (codes "0\r\n") m) (lines ts ++ crlf) more y
        → Exact l (w ++ (codes "0\r\n" ++ (lines ts ++ crlf))) more t (resume y.0 (λ _. pure n) y.1)
    after_trailers (ok _, k) g = record {
      gives = e.gives;
      left = g.left;
      given = g.given ∙ simp (e.given, append_assoc);
      calm = g.calm;
    }
    after_trailers (err z, k) g = ground (arith, g.gives)
    after_trailers (spinning, k) g = ground (arith, g.gives)
after_chunks l w ts more t fuel (err y, m) f a e = ground (arith, e.gives)
after_chunks l w ts more t fuel (spinning, m) f a e = ground (arith, e.gives)

-- With a chunk size above 0, an open writer and a network that neither stalls nor breaks, a
-- well-formed chunked message followed by anything is forwarded whole but for the extensions of
-- its last chunk, the reader stands at its end and the count is that of the chunks' bytes with the
-- two behind each; fuel above the numbers of chunks and of trailers is enough.
pub stream_chunked-Exact :
    (chunk_size fuel : ℕ) (l : Link) (m : Message) (more : Bytes)
    → 0 < chunk_size
    → length m.chunks < fuel
    → length m.trailers < fuel
    → IsCalm l
    → IsMessage m
    → content l.reader ≡ received m ++ more
    → Exact l (forwarded m) more (counted m.chunks) (stream_chunked fuel chunk_size l)
unfolding stream_chunked
stream_chunked-Exact chunk_size fuel l m more k f g c v split =
    after_chunks l (wire m.chunks) m.trailers more (counted m.chunks) fuel
      (chunked_loop fuel chunk_size 0 l) g v.trailers_valid
      (rw (← zero-add (counted m.chunks)) (
        chunked_loop-Exact chunk_size k m.chunks fuel 0 l m.last
          (lines m.trailers ++ (crlf ++ more)) f c v.chunks_valid v.last_line v.last_size
          (split ∙ simp append_assoc)))
