-- ===== src/BodyStreamer/Chunked/Wire.antt =====
-- A well-formed chunked body is forwarded whole, and the reader stands at its end.
use nginx_remake_v.Prelude.{
  ℕ, zero, suc, ◌+◌, ◌-◌, ◌≤◌, ◌<◌, ◌≡◌, refl, sym, ap, ◌∙◌, inl, inr, true, false, some, List, [],
  ◌∷◌, ◌++◌, append-nil, append_assoc, arith, ltb, ltb→lt, Bool-cases, length, Bytes, number_keys,
  text_keys,
}
use nginx_remake_v.Exec.{Result, ok, err, spinning, Coro, resume}
use nginx_remake_v.Stream.{StreamWriter}
use nginx_remake_v.BufferedReader
use nginx_remake_v.BufferedReader.{UnreadableStreamReader}
use nginx_remake_v.BufferedReader.Laws.{content, IsQuietReader}
use nginx_remake_v.Stream.{split_line, line_limit}
use native.Mathlib.Nat.{add_assoc}
use nginx_remake_v.Stream.Writing.{write_open, drain_calm}
use nginx_remake_v.Stream.Lines.{split_line-append}
use nginx_remake_v.BufferedReader.Lines.{readline-ReadsLine}
use nginx_remake_v.BodyStreamer.{Link, recv_line, send, flush, round, identity_loop}
use nginx_remake_v.BodyStreamer.Round.{Forwards, round-Forwards, IsCalm}
use nginx_remake_v.BodyStreamer.Identity.{
  identity_loop-Forwards, identity_loop-Completes, Exact, Exact-of,
}
use nginx_remake_v.BodyStreamer.Chunked.{chunk_size_of, data_loop, chunk_step, chunked_loop}

data_next :
    (chunk_size want total fuel : ℕ) (l : Link) (x : Result ℕ × Link)
    → Forwards 0 1 want l x
    → ((w t : ℕ) (m : Link)
        → m.writer.closing ≡ false
        → data_loop fuel chunk_size w t m ≡ identity_loop fuel chunk_size t (t + w) m)
    → resume x.0 (λ n. data_loop fuel chunk_size (want - n) (total + n)) x.1
      ≡ resume x.0 (λ n. identity_loop fuel chunk_size (total + n) (total + want)) x.1
data_next chunk_size want total fuel l (ok n, m) (d, e, p, q, a) ih =
    ih (want - n) (total + n) m a.still_open
    ∙ ap (λ (c : ℕ). identity_loop fuel chunk_size (total + n) c m) (omega arith)
data_next chunk_size want total fuel l (err y, m) g ih = refl
data_next chunk_size want total fuel l (spinning, m) g ih = refl

-- The loop over a chunk's bytes goes as that over a counted body.
data_loop-identity :
    (chunk_size : ℕ)
    → 0 < chunk_size
    → (fuel want total : ℕ) (l : Link) → l.writer.closing ≡ false
    → data_loop fuel chunk_size want total l ≡ identity_loop fuel chunk_size total (total + want) l
unfolding data_loop identity_loop
data_loop-identity chunk_size k zero want total l shut = refl
data_loop-identity chunk_size k (suc fuel) want total l shut = elim (Bool-cases (ltb 0 want)) [
  | inl h ↦
      let h' : ltb total (total + want) ≡ true = ground (arith, h) in
      let same : total + want - total ≡ want = omega arith in
      rw (h, h', same, data_loop, identity_loop)
        (data_next chunk_size want total fuel l (round chunk_size want l)
          (round-Forwards chunk_size want l k (ltb→lt 0 want h) shut)
          (λ w t m. data_loop-identity chunk_size k fuel w t m))
  | inr h ↦
      let h' : ltb total (total + want) ≡ false = ground (arith, h) in
      rw (h, h', data_loop, identity_loop)
]

data_loop-Exact :
    (chunk_size fuel total : ℕ) (l : Link) (d more : Bytes)
    → 0 < chunk_size
    → IsCalm l
    → content l.reader ≡ d ++ more
    → length d < fuel
    → Exact l d more (total + length d) (data_loop fuel chunk_size (length d) total l)
data_loop-Exact chunk_size fuel total l d more k c split f =
    rw (data_loop-identity chunk_size k fuel (length d) total l c.shut) (
      Exact-of l d more total (total + length d) (length d) _ split refl refl
        (identity_loop-Forwards chunk_size (total + length d) k fuel total (length d) l c.shut refl
          f)
        (identity_loop-Completes chunk_size (total + length d) k fuel total (length d) l c refl f))

-- A line with its newline, which asyncio's limit allows.
pub record IsLine (line : Bytes) : Type 0 where
  pub whole : split_line line ≡ some (line, [])
  pub short : length line ≤ line_limit + 1

-- The link after a line that is next has been read.
pub recv_line-IsLine :
    (l : Link) (line more : Bytes)
    → IsCalm l
    → IsLine line
    → content l.reader ≡ line ++ more
    → (u : UnreadableStreamReader) × (recv_line l ≡ (ok line, record l { reader = u }))
      × (content u ≡ more)
      × IsQuietReader u
unfolding recv_line
recv_line-IsLine l line more c i e =
    let g =
      readline-ReadsLine l.reader c.quiet (ap split_line e ∙ split_line-append line more i.whole)
        i.short in
    (
      _,
      ap (λ (x : Result Bytes). (x, record l { reader = (BufferedReader.readline l.reader).1 }))
          g.gives,
      g.leaves,
      g.quiet,
    )

-- The link after bytes have been written.
abbrev pub sent : Bytes → Link → Link
sent d l = record l { writer = record (l.writer) { written = l.writer.written ++ d } }

pub send_calm : (d : Bytes) (l : Link) → IsCalm l → send d l ≡ (ok tt, sent d l)
unfolding send
send_calm d l c =
    ap (λ (w : StreamWriter). (ok tt, record l { writer = w })) (write_open d l.writer c.shut)

pub flush_calm : (l : Link) → IsCalm l → flush l ≡ (ok tt, l)
unfolding flush
flush_calm l c =
    ap (λ (x : Result (Unit {0}) × StreamWriter). (x.0, record l { writer = x.1 }))
      (drain_calm l.writer c.shut c.drained)

-- A chunk as it stands on the wire: its first line, and its bytes with the two behind them.
pub record Chunk : Type 0 where
  pub line : Bytes
  pub body : Bytes

pub record IsChunk (c : Chunk) : Type 0 where
  pub first : IsLine c.line
  pub size : ℕ
  pub parsed : chunk_size_of c.line ≡ some (suc size)
  pub body_length : length c.body ≡ suc size + 2

abbrev pub AreChunks : List Chunk → Type 0
AreChunks [] = Unit
AreChunks (c ∷ cs) = IsChunk c × AreChunks cs

abbrev pub wire : List Chunk → Bytes
wire [] = []
wire (c ∷ cs) = c.line ++ (c.body ++ wire cs)

-- The count that `stream_chunked` gives.
abbrev pub counted : List Chunk → ℕ
counted [] = 0
counted (c ∷ cs) = length c.body + counted cs

after_data :
    (l m : Link) (c : Chunk) (more more' tail : Bytes) (t t' : ℕ) (again : ℕ → Coro Link ℕ)
    (x : Result ℕ × Link)
    → m.writer.written ≡ l.writer.written ++ c.line
    → Exact m c.body more t x
    → ((n : Link) → IsCalm n → content n.reader ≡ more → Exact n tail more' t' (again t n))
    → Exact l (c.line ++ (c.body ++ tail)) more' t' (resume x.0 again x.1)
after_data l m c more more' tail t t' again (ok n, k) w e ih =
    let here : n ≡ t = ground (arith, e.gives) in
    let g : Exact k tail more' t' (again n k) = rw here (ih k e.calm e.left) in
    record {
      gives = g.gives;
      left = g.left;
      given =
          g.given
          ∙ ap (λ (x : Bytes). x ++ tail) (e.given ∙ ap (λ (x : Bytes). x ++ c.body) w)
          ∙ simp append_assoc;
      calm = g.calm;
    }
after_data l m c more more' tail t t' again (err y, k) w e ih = ground (arith, e.gives)
after_data l m c more more' tail t t' again (spinning, k) w e ih = ground (arith, e.gives)

pub chunked_loop-Exact :
    (chunk_size : ℕ)
    → 0 < chunk_size
    → (cs : List Chunk) (fuel total : ℕ) (l : Link) (last more : Bytes) → length cs < fuel
    → IsCalm l
    → AreChunks cs
    → IsLine last
    → chunk_size_of last ≡ some 0
    → content l.reader ≡ wire cs ++ (last ++ more)
    → Exact l (wire cs) more (total + counted cs) (chunked_loop fuel chunk_size total l)
unfolding chunked_loop chunk_step
chunked_loop-Exact chunk_size k cs zero total l last more f c a i z split = absurd (omega arith)
chunked_loop-Exact chunk_size k [] (suc fuel) total l last more f c a i z split =
    let (u, e, left, q) = recv_line-IsLine l last more c i split in
    rw (e, z)
      (record {
        gives = ap ok (omega arith);
        left = left;
        given = sym (append-nil l.writer.written);
        calm = record { quiet = q; shut = c.shut; drained = c.drained };
      })
chunked_loop-Exact chunk_size k (ch ∷ cs) (suc fuel) total l last more f c a i z split =
    let v = a.0 in
    let rest = wire cs ++ (last ++ more) in
    let (u, e, left, q) =
      recv_line-IsLine l ch.line (ch.body ++ rest) c v.first (split ∙ simp append_assoc) in
    let n : Link = record l { reader = u } in
    let calm : IsCalm n = record { quiet = q; shut = c.shut; drained = c.drained } in
    let m = sent ch.line n in
    let calm' : IsCalm m = record { quiet = q; shut = c.shut; drained = c.drained } in
    let data' =
      data_loop-Exact chunk_size (suc v.size + 3) total m ch.body rest k calm' left
        (omega (arith, v.body_length)) in
    rw (e, v.parsed, send_calm ch.line n calm, ← v.body_length)
      (after_data l m ch rest more (wire cs) (total + length ch.body) (total + counted (ch ∷ cs))
        (chunked_loop fuel chunk_size) _ refl data'
        (λ o co lo. rw (← add_assoc total (length ch.body) (counted cs)) (
          chunked_loop-Exact chunk_size k cs fuel (total + length ch.body) o last more (omega arith)
            co a.1 i z lo)))
