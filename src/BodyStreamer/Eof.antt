-- ===== src/BodyStreamer/Eof.antt =====
-- `stream_to_eof` forwards all that the reader holds.
use nginx_remake_v.Prelude.{
  ℕ, zero, suc, ◌+◌, ◌<◌, ◌≡◌, refl, sym, ap, ◌∙◌, [], ◌∷◌, ◌++◌, append-nil, append_assoc, arith,
  length, length-append, Bytes, number_keys, text_keys,
}
use native.Mathlib.Nat.{zero-add}
use nginx_remake_v.Exec.{Result, ok, err, spinning, resume}
use nginx_remake_v.Stream.{StreamWriter}
use nginx_remake_v.BufferedReader
use nginx_remake_v.BufferedReader.{UnreadableStreamReader}
use nginx_remake_v.BufferedReader.Laws.{content, Gives, read-Gives, ReadsOk, read-ReadsOk}
use nginx_remake_v.BodyStreamer.{Link, eof_step, eof_loop, stream_to_eof}
use nginx_remake_v.BodyStreamer.Round.{IsCalm, forward-IsCalm}
use nginx_remake_v.BodyStreamer.Identity.{Exact}

eof_next :
    (chunk_size fuel total : ℕ) (l : Link) (x : Result Bytes × UnreadableStreamReader)
    → 0 < chunk_size
    → IsCalm l
    → length (content l.reader) < suc fuel
    → Gives chunk_size l.reader x
    → ReadsOk x
    → ((t : ℕ) (m : Link)
        → IsCalm m
        → length (content m.reader) < fuel
        → Exact m
            (content m.reader)
            []
            (t + length (content m.reader))
            (eof_loop fuel chunk_size t m))
    → Exact l (content l.reader) [] (total + length (content l.reader)) (
        resume x.0
          (eof_step (eof_loop fuel chunk_size) total)
          (record { reader = x.1; writer = l.writer }))
unfolding eof_step
eof_next chunk_size fuel total l (ok [], u) k c f g q ih =
    let none' = g.ends k refl in
    record {
      gives = ap ok (omega (arith, ap length none'));
      left = sym g.split ∙ none';
      given = sym (append-nil l.writer.written) ∙ ap (◌++◌ l.writer.written) (sym none');
      calm = record { quiet = q; shut = c.shut; drained = c.drained };
    }
eof_next chunk_size fuel total l (ok (y ∷ s), u) k c f g q ih =
    let (e, calm) = forward-IsCalm l (y ∷ s) u c q in
    let w : StreamWriter = record (l.writer) { written = l.writer.written ++ y ∷ s } in
    let m : Link = record { reader = u; writer = w } in
    let size : length (content l.reader) ≡ length (y ∷ s) + length (content u) =
      ap length g.split ∙ length-append (y ∷ s) (content u) in
    let i = ih (total + length (y ∷ s)) m calm (omega (arith, size)) in
    rw e (record {
      gives = i.gives ∙ ap ok (omega (arith, size));
      left = i.left;
      given =
          i.given
          ∙ append_assoc l.writer.written (y ∷ s) (content u)
          ∙ ap (◌++◌ l.writer.written) (sym g.split);
      calm = i.calm;
    })
eof_next chunk_size fuel total l (err e, u) k c f g q ih = elim q [ ]
eof_next chunk_size fuel total l (spinning, u) k c f g q ih = elim q [ ]

eof_loop-Exact :
    (chunk_size : ℕ)
    → 0 < chunk_size
    → (fuel total : ℕ) (l : Link) → IsCalm l
    → length (content l.reader) < fuel
    → Exact l
        (content l.reader)
        []
        (total + length (content l.reader))
        (eof_loop fuel chunk_size total l)
unfolding eof_loop
eof_loop-Exact chunk_size k zero total l c f = absurd (omega arith)
eof_loop-Exact chunk_size k (suc fuel) total l c f =
    eof_next chunk_size fuel total l (BufferedReader.read chunk_size l.reader) k c f
      (read-Gives chunk_size l.reader k) (read-ReadsOk chunk_size l.reader c.quiet)
      (λ t m. eof_loop-Exact chunk_size k fuel t m)

-- With a chunk size above 0, an open writer and a network that neither stalls nor breaks,
-- stream_to_eof forwards all up to the end of the file and returns its length; fuel above that
-- length is enough.
pub stream_to_eof-Exact :
    (chunk_size fuel : ℕ) (l : Link)
    → 0 < chunk_size
    → IsCalm l
    → length (content l.reader) < fuel
    → Exact l (content l.reader) [] (length (content l.reader)) (stream_to_eof fuel chunk_size l)
unfolding stream_to_eof
stream_to_eof-Exact chunk_size fuel l k c f =
    rw (← zero-add (length (content l.reader))) (eof_loop-Exact chunk_size k fuel 0 l c f)
