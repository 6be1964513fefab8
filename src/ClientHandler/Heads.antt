-- ===== src/ClientHandler/Heads.antt =====
-- The loop that reads headers does what the parser does with all that is to come at once.
use nginx_remake_v.Prelude.{
  ℕ, zero, suc, ◌+◌, ◌<◌, ◌≡◌, refl, sym, ap, ◌∙◌, subst, inl, inr, true, false, Option, none, some,
  [], ◌∷◌, ◌++◌, append-nil, append_assoc, arith, Option-cases, length, length-append, Bytes,
  number_keys, text_keys,
}
use nginx_remake_v.Exec.{Result, ok, err, spinning, Coro, resume}
use nginx_remake_v.BufferedReader
use nginx_remake_v.BufferedReader.{UnreadableStreamReader}
use nginx_remake_v.BufferedReader.Laws.{
  content, IsQuietReader, content-unread, Gives, read-Gives, ReadsOk, read-ReadsOk,
}
use nginx_remake_v.MessageParser.{
  HttpMessageParser, message_parser, split_first, delimiter, with_rest, feed,
}
use nginx_remake_v.MessageParser.Framing.{
  Splits, split_first-Splits, IsWaiting, feed-none, feed-some, split_first_more,
}
use nginx_remake_v.ClientHandler.ReadHead.{
  Intake, take_chunk, count, put_back, fed, feed_chunk, head_loop, read_head,
}

-- The message that stands before the empty line was built, and what is to be read is what stands
-- behind it; or the building raised.
abbrev pub Built : {M : Type 0} → Bytes → Result M → Result (Option M) × Intake → Type 0
Built a (ok m) x = (x.0 ≡ ok (some m)) × (content x.1.reader ≡ a)
Built a (err e) x = x.0 ≡ err e
Built a spinning x = x.0 ≡ spinning

-- What was read, by where the first empty line stands: with none, all of it, and there is no message.
abbrev pub Heads :
    {M : Type 0} → (Bytes → Result M) → Option (Bytes × Bytes) → Result (Option M) × Intake → Type 0
Heads build none x = (x.0 ≡ ok none) × (content x.1.reader ≡ [])
Heads build (some (b, a)) x = Built a (build b) x

module _ {M : Type 0} (build : Bytes → Result M) (chunk_size : ℕ) where
  put-Built :
      (again : Coro Intake (Option M)) (n : ℕ) (a : Bytes) (x : Result M) (s : Intake)
      → Built (a ++ content s.reader) x (fed build chunk_size again n true (with_rest build a x) s)
  unfolding fed count put_back
  put-Built again n a (ok m) s = (refl, content-unread a s.reader)
  put-Built again n a (err e) s = refl
  put-Built again n a spinning s = refl

  fed-Heads :
      (fuel : ℕ) (p : HttpMessageParser) (d : Bytes) (s : Intake)
      → IsWaiting build p
      → ((q : HttpMessageParser) (t : Intake)
          → IsWaiting build q
          → t.reader ≡ s.reader
          → Heads build
              (split_first delimiter (q.buffer ++ content t.reader))
              (head_loop build chunk_size fuel q t))
      → Heads build (split_first delimiter ((p.buffer ++ d) ++ content s.reader)) (
          fed build chunk_size
            (head_loop build chunk_size fuel (feed build p d).1)
            (length d)
            (feed build p d).1.headers_done
            (feed build p d).0
            s)
  unfolding fed count
  fed-Heads fuel p d s w again = elim (Option-cases (split_first delimiter (p.buffer ++ d))) [
    | inl e ↦
        let q : HttpMessageParser = record { buffer = p.buffer ++ d; headers_done = false } in
        let t : Intake = record s { bytes = s.bytes + length d } in
        rw (feed-none build p d w.undone e) (again q t (record { undone = refl; unseen = e }) refl)
    | inr ((b, a), e) ↦
        rw
          (
            feed-some build p d b a w.undone e,
            split_first_more 13 (10 ∷ 13 ∷ 10 ∷ []) (p.buffer ++ d) b a (content s.reader) e,
          )
          (put-Built (head_loop build chunk_size fuel (record { buffer = []; headers_done = true }))
            (length d) a (build b) s)
  ]

  head_loop_step :
      (fuel : ℕ) (p : HttpMessageParser) (s : Intake)
      → p.headers_done ≡ false
      → head_loop build chunk_size (suc fuel) p s
        ≡ resume
            (BufferedReader.read chunk_size s.reader).0
            (feed_chunk build chunk_size (head_loop build chunk_size fuel) p)
            (record s { reader = (BufferedReader.read chunk_size s.reader).1 })
  unfolding head_loop take_chunk
  head_loop_step fuel p s h = simp (h, head_loop) refl

  chunk-Heads :
      (fuel : ℕ) (p : HttpMessageParser) (s : Intake)
      → 0 < chunk_size
      → IsWaiting build p
      → length (content s.reader) < suc fuel
      → ((q : HttpMessageParser) (t : Intake)
          → IsWaiting build q
          → IsQuietReader t.reader
          → length (content t.reader) < fuel
          → Heads build
              (split_first delimiter (q.buffer ++ content t.reader))
              (head_loop build chunk_size fuel q t))
      → (x : Result Bytes × UnreadableStreamReader) → Gives chunk_size s.reader x
      → ReadsOk x
      → Heads build (split_first delimiter (p.buffer ++ content s.reader)) (
          resume x.0
            (feed_chunk build chunk_size (head_loop build chunk_size fuel) p)
            (record s { reader = x.1 }))
  unfolding feed_chunk
  chunk-Heads fuel p s k w enough later (ok [], u) g r =
      let none' = g.ends k refl in
      let same : split_first delimiter p.buffer
          ≡ split_first delimiter (p.buffer ++ content s.reader) =
        ap (split_first delimiter) (sym (ap (◌++◌ p.buffer) none' ∙ append-nil p.buffer)) in
      subst (λ (o : Option (Bytes × Bytes)). Heads build o (ok none, record s { reader = u }))
        (sym w.unseen ∙ same) (refl, sym g.split ∙ none')
  chunk-Heads fuel p s k w enough later (ok (c ∷ d), u) g r =
      let size : length (content s.reader) ≡ length (c ∷ d) + length (content u) =
        ap length g.split ∙ length-append (c ∷ d) (content u) in
      let all : p.buffer ++ content s.reader ≡ (p.buffer ++ (c ∷ d)) ++ content u =
        ap (◌++◌ p.buffer) g.split ∙ sym (append_assoc p.buffer (c ∷ d) (content u)) in
      rw all (
        fed-Heads fuel p (c ∷ d) (record s { reader = u }) w
          (λ p' t w' e. later p' t w' (rw e r) (rw e (omega (arith, size, enough)))))
  chunk-Heads fuel p s k w enough later (err e, u) g r = absurd r
  chunk-Heads fuel p s k w enough later (spinning, u) g r = absurd r

  head_loop-Heads :
      0 < chunk_size
      → (fuel : ℕ) (p : HttpMessageParser) (s : Intake) → IsWaiting build p
      → IsQuietReader s.reader
      → length (content s.reader) < fuel
      → Heads build
          (split_first delimiter (p.buffer ++ content s.reader))
          (head_loop build chunk_size fuel p s)
  unfolding head_loop
  head_loop-Heads k zero p s w q enough = absurd (omega arith)
  head_loop-Heads k (suc fuel) p s w q enough =
      subst (Heads build (split_first delimiter (p.buffer ++ content s.reader)))
        (sym (head_loop_step fuel p s w.undone))
        (chunk-Heads fuel p s k w enough (λ p' t. head_loop-Heads k fuel p' t)
          (BufferedReader.read chunk_size s.reader) (read-Gives chunk_size s.reader k)
          (read-ReadsOk chunk_size s.reader q))

-- With a chunk size above 0 and a network that neither stalls nor breaks, however it cuts the
-- bytes, the loop that reads headers makes the message of the bytes before the first empty line,
-- or raises what making it raises, and where it makes one leaves the bytes behind that line to be
-- read; with no empty line it reads all and gives no message. Fuel above the number of bytes is
-- enough.
pub read_head-Heads :
    {M : Type 0} (build : Bytes → Result M) (chunk_size fuel : ℕ) (s : Intake)
    → 0 < chunk_size
    → IsQuietReader s.reader
    → length (content s.reader) < fuel
    → (r : Option (Bytes × Bytes)) × Splits delimiter (content s.reader) r
      × Heads build r (read_head build chunk_size fuel s)
unfolding read_head message_parser split_first
read_head-Heads build chunk_size fuel s k q enough = (
  split_first delimiter (content s.reader),
  split_first-Splits 13 (10 ∷ 13 ∷ 10 ∷ []) (content s.reader),
  head_loop-Heads build chunk_size k fuel message_parser s (record { undone = refl; unseen = refl })
      q enough,
)
