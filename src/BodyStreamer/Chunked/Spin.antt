-- ===== src/BodyStreamer/Chunked/Spin.antt =====
-- A chunked body that ends before its last empty line: the loop over the trailers never ends.
use nginx_remake_v.Prelude.{
  ℕ, zero, suc, ◌+◌, ◌≤◌, ◌<◌, ◌≡◌, refl, sym, ap, ◌∙◌, ◌≢◌, none, some, List, [], ◌∷◌, ◌++◌,
  append_assoc, arith, length, Bytes, codes, number_keys, text_keys,
}
use nginx_remake_v.Exec.{Result, ok, err, spinning, pure, resume, ◌>>◌}
use nginx_remake_v.BufferedReader
use nginx_remake_v.BufferedReader.{UnreadableStreamReader}
use nginx_remake_v.BufferedReader.Laws.{content, IsQuietReader}
use nginx_remake_v.Stream.{split_line, line_limit}
use nginx_remake_v.BufferedReader.Lines.{readline-rest_back}
use nginx_remake_v.BodyStreamer.{Link, recv_line, send, flush}
use nginx_remake_v.BodyStreamer.Round.{IsCalm}
use nginx_remake_v.BodyStreamer.Identity.{Exact}
use nginx_remake_v.BodyStreamer.Chunked.{chunk_size_of, chunked_loop, trailer_loop, stream_chunked}
use nginx_remake_v.BodyStreamer.Chunked.Wire.{
  IsLine, recv_line-IsLine, sent, send_calm, flush_calm, Chunk, AreChunks, wire, counted,
  chunked_loop-Exact,
}
use nginx_remake_v.BodyStreamer.Chunked.Message.{AreTrailers, lines, crlf, not_crlf}

-- Nothing but lines that are not empty, and a rest without a newline.
pub record IsCut (ts : List Bytes) (tail : Bytes) : Type 0 where
  pub trailers : AreTrailers ts
  pub unended : split_line tail ≡ none
  pub short : length tail ≤ line_limit

tail_not_crlf : (tail : Bytes) → split_line tail ≡ none → tail ≢ crlf
unfolding split_line
tail_not_crlf tail e h = ground (arith, ap split_line (sym h) ∙ e)

recv_line-rest :
    (l : Link) (tail : Bytes)
    → IsCalm l
    → content l.reader ≡ tail
    → split_line tail ≡ none
    → length tail ≤ line_limit
    → (u : UnreadableStreamReader) × (recv_line l ≡ (ok tail, record l { reader = u }))
      × (content u ≡ [])
      × IsQuietReader u
unfolding recv_line
recv_line-rest l tail c e h fits =
    let g = readline-rest_back l.reader c.quiet (ap split_line e ∙ h) (rw e fits) in
    (
      _,
      ap (λ (x : Result Bytes). (x, record l { reader = (BufferedReader.readline l.reader).1 }))
          (g.gives ∙ ap ok e),
      g.leaves,
      g.quiet,
    )

nil_unended : split_line [] ≡ none
unfolding split_line
nil_unended = refl

trailer_loop-tail :
    (fuel : ℕ) (l : Link) (tail : Bytes)
    → IsCalm l
    → content l.reader ≡ tail
    → split_line tail ≡ none
    → length tail ≤ line_limit
    → (trailer_loop fuel l).0 ≡ spinning
unfolding trailer_loop
trailer_loop-tail zero l tail c e h fits = refl
trailer_loop-tail (suc fuel) l tail c e h fits =
    let (u, r, left, q) = recv_line-rest l tail c e h fits in
    let n : Link = record l { reader = u } in
    let calm : IsCalm n = record { quiet = q; shut = c.shut; drained = c.drained } in
    let m = sent tail n in
    let calm' : IsCalm m = record { quiet = q; shut = c.shut; drained = c.drained } in
    rw (r, send_calm tail n calm, flush_calm m calm', not_crlf tail (tail_not_crlf tail h))
      (trailer_loop-tail fuel m [] calm' left nil_unended (omega arith))

-- Where the stream ends before the empty line, the loop over the trailers ends for no amount of
-- fuel, although the network neither stalls nor breaks.
pub trailer_loop-spins :
    (ts : List Bytes) (fuel : ℕ) (l : Link) (tail : Bytes)
    → IsCalm l
    → IsCut ts tail
    → content l.reader ≡ lines ts ++ tail
    → (trailer_loop fuel l).0 ≡ spinning
unfolding trailer_loop
trailer_loop-spins ts zero l tail c i e = refl
trailer_loop-spins [] (suc fuel) l tail c i e =
    unfold trailer_loop in trailer_loop-tail (suc fuel) l tail c e i.unended i.short
trailer_loop-spins (t ∷ ts) (suc fuel) l tail c i e =
    let a = i.trailers in
    let (u, r, left, q) = recv_line-IsLine l t (lines ts ++ tail) c a.0 (e ∙ simp append_assoc) in
    let n : Link = record l { reader = u } in
    let calm : IsCalm n = record { quiet = q; shut = c.shut; drained = c.drained } in
    let m = sent t n in
    let calm' : IsCalm m = record { quiet = q; shut = c.shut; drained = c.drained } in
    rw (r, send_calm t n calm, flush_calm m calm', not_crlf t a.1)
      (trailer_loop-spins ts fuel m tail calm'
        (record { trailers = a.2; unended = i.unended; short = i.short }) left)

after_cut :
    (l : Link) (w tail : Bytes) (ts : List Bytes) (t fuel : ℕ) (x : Result ℕ × Link)
    → IsCut ts tail
    → Exact l w (lines ts ++ tail) t x
    → (resume x.0 (λ total. do send (codes "0\r\n"); flush; trailer_loop fuel; pure total) x.1).0
      ≡ spinning
after_cut l w tail ts t fuel (ok n, m) i e =
    let here : IsCalm (sent (codes "0\r\n") m) = record {
      quiet = e.calm.quiet;
      shut = e.calm.shut;
      drained = e.calm.drained;
    } in
    rw (send_calm (codes "0\r\n") m e.calm, flush_calm (sent (codes "0\r\n") m) here)
      (spun (trailer_loop fuel (sent (codes "0\r\n") m))
        (trailer_loop-spins ts fuel (sent (codes "0\r\n") m) tail here i e.left))
  where
    spun :
        (y : Result (Unit {0}) × Link)
        → y.0 ≡ spinning
        → ◌≡◌ {A = Result ℕ} (resume y.0 (λ _. pure {S = Link} n) y.1).0 spinning
    spun (ok z, k) e' = ground arith
    spun (err z, k) e' = ground arith
    spun (spinning, k) e' = refl
after_cut l w tail ts t fuel (err y, m) i e = ground (arith, e.gives)
after_cut l w tail ts t fuel (spinning, m) i e = refl

-- With a chunk size above 0, an open writer and a network that neither stalls nor breaks, a
-- chunked body whose stream ends between the last chunk and the empty line keeps stream_chunked
-- spinning for every amount of fuel above the number of its chunks.
pub stream_chunked-spins :
    (chunk_size fuel : ℕ) (l : Link) (cs : List Chunk) (last : Bytes) (ts : List Bytes)
    (tail : Bytes)
    → 0 < chunk_size
    → length cs < fuel
    → IsCalm l
    → AreChunks cs
    → IsLine last
    → chunk_size_of last ≡ some 0
    → IsCut ts tail
    → content l.reader ≡ wire cs ++ (last ++ (lines ts ++ tail))
    → (stream_chunked fuel chunk_size l).0 ≡ spinning
unfolding stream_chunked
stream_chunked-spins chunk_size fuel l cs last ts tail k f c a i z cut split =
    after_cut l (wire cs) tail ts (0 + counted cs) fuel (chunked_loop fuel chunk_size 0 l) cut
      (chunked_loop-Exact chunk_size k cs fuel 0 l last (lines ts ++ tail) f c a i z split)
