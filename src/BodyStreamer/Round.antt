-- ===== src/BodyStreamer/Round.antt =====
-- One round of a body's loop: what is read is forwarded.
use nginx_remake_v.Prelude.{
  ℕ, ◌+◌, ◌≤◌, ◌<◌, min, ◌≡◌, refl, sym, ap, ◌∙◌, subst, false, [], ◌∷◌, ◌++◌, append-nil,
  append_assoc, arith, length, length-append, Bytes, number_keys, text_keys,
}
use nginx_remake_v.Exec.{
  Exception, body_streamer_error, Result, ok, err, spinning, pure, resume, ◌>>◌,
}
use nginx_remake_v.Stream
use nginx_remake_v.Stream.{StreamWriter, StreamReader}
use nginx_remake_v.Stream.Writing.{Drains, drain-Drains, drain_calm, write_open}
use nginx_remake_v.BufferedReader
use nginx_remake_v.BufferedReader.{UnreadableStreamReader}
use nginx_remake_v.BufferedReader.Laws.{
  content, IsQuietReader, Gives, read-Gives, ReadsOk, read-ReadsOk,
}
use nginx_remake_v.BodyStreamer.{Link, recv, send, flush, require, forward, round}

-- Bytes `d` have gone from the reader to the writer, and `rest` is left to be read.
pub record Moves (l : Link) (d rest : Bytes) (l' : Link) : Type 0 where
  pub taken : content l.reader ≡ d ++ rest
  pub given : l'.writer.written ≡ l.writer.written ++ d
  pub still_open : l'.writer.closing ≡ false

-- What a loop that began with the count `total` has done, by how it ended: its count has grown by
-- the bytes forwarded, all that it took from the reader; or it has raised, with a first part of
-- what was to come forwarded. The bytes forwarded number at least `lo` in the first case and at
-- most `hi` in both.
abbrev pub Forwards : ℕ → ℕ → ℕ → Link → Result ℕ × Link → Type 0
Forwards total lo hi l (ok n, l') =
    (d : Bytes) × (total + length d ≡ n)
    × (lo ≤ length d)
    × (length d ≤ hi)
    × Moves l d (content l'.reader) l'
Forwards total lo hi l (err e, l') =
    (d : Bytes) × (rest : Bytes) × (length d ≤ hi) × Moves l d rest l'
Forwards total lo hi l (spinning, l') = ⊥

moved :
    (l : Link) (d : Bytes) (u : UnreadableStreamReader) (w : StreamWriter) {x : Result (Unit {0})}
    → content l.reader ≡ d ++ content u
    → l.writer.closing ≡ false
    → Drains (Stream.write d l.writer) (x, w)
    → Moves l d (content u) (record { reader = u; writer = w })
moved l d u w split shut g = record {
  taken = split;
  given = g.same_bytes ∙ ap (λ x. x.written) (write_open d l.writer shut);
  still_open = g.same_state ∙ ap (λ x. x.closing) (write_open d l.writer shut) ∙ shut;
}

pub Moves-trans :
    {l m n : Link} {d e rest : Bytes}
    → Moves l d (content m.reader) m
    → Moves m e rest n
    → Moves l (d ++ e) rest n
Moves-trans {l} {m} {n} {d} {e} {rest} a b = record {
  taken = a.taken ∙ ap (◌++◌ d) b.taken ∙ sym (append_assoc d e rest);
  given = b.given ∙ ap (λ (x : Bytes). x ++ e) a.given ∙ append_assoc l.writer.written d e;
  still_open = b.still_open;
}

-- What goes on after a part that has forwarded `d`.
pub Forwards-after :
    (l m : Link) (d : Bytes) (total count lo hi lo' hi' : ℕ) (x : Result ℕ × Link)
    → Moves l d (content m.reader) m
    → total + length d ≡ count
    → lo ≤ length d + lo'
    → length d + hi' ≤ hi
    → Forwards count lo' hi' m x
    → Forwards total lo hi l x
Forwards-after l m d total count lo hi lo' hi' (ok n, k) a c p q (e, ce, pe, qe, b) = (
  d ++ e,
  omega (arith, length-append d e),
  omega (arith, length-append d e),
  omega (arith, length-append d e),
  Moves-trans a b,
)
Forwards-after l m d total count lo hi lo' hi' (err y, k) a c p q (e, rest, qe, b) =
    (d ++ e, rest, omega (arith, length-append d e), Moves-trans a b)
Forwards-after l m d total count lo hi lo' hi' (spinning, k) a c p q f = f

-- Nothing has been forwarded yet.
pub Forwards-start :
    (total hi : ℕ) (l : Link) → l.writer.closing ≡ false → Forwards total 0 hi l (ok total, l)
Forwards-start total hi l shut = (
  [],
  omega arith,
  omega arith,
  omega arith,
  record { taken = refl; given = sym (append-nil l.writer.written); still_open = shut },
)

pub Forwards-raise :
    (e : Exception) (total lo hi : ℕ) (l : Link) (u : UnreadableStreamReader)
    → l.writer.closing ≡ false
    → Forwards total lo hi l (err e, record { reader = u; writer = l.writer })
Forwards-raise e total lo hi l u shut = (
  [],
  content l.reader,
  omega arith,
  record { taken = refl; given = sym (append-nil l.writer.written); still_open = shut },
)

module _ (lo hi : ℕ) (l : Link) (d : Bytes) (u : UnreadableStreamReader)
    (some_bytes : lo ≤ length d) (fits : length d ≤ hi) (split : content l.reader ≡ d ++ content u)
    (shut : l.writer.closing ≡ false) where
  forward_end :
      (x : Result (Unit {0}) × StreamWriter)
      → Drains (Stream.write d l.writer) x
      → Forwards 0 lo hi l (resume x.0 (λ _. pure (length d)) (record { reader = u; writer = x.1 }))
  forward_end (ok _, w) g = (d, omega arith, some_bytes, fits, moved l d u w split shut g)
  forward_end (err e, w) g = (d, content u, fits, moved l d u w split shut g)
  forward_end (spinning, w) g = absurd (g.ends refl)

  -- Forwarding what was read writes all of it, whether the drain ends or raises.
  pub forward-Forwards : Forwards 0 lo hi l (forward d (record { reader = u; writer = l.writer }))
  unfolding forward send flush
  forward-Forwards = forward_end (Stream.drain (Stream.write d l.writer)) (drain-Drains _)

round_end :
    (want : ℕ) (l : Link) (n : ℕ) (x : Result Bytes × UnreadableStreamReader)
    → n ≤ want
    → l.writer.closing ≡ false
    → Gives n l.reader x
    → Forwards 0 1 want l (
        resume x.0
          (λ chunk. require chunk >> forward chunk)
          (record { reader = x.1; writer = l.writer }))
unfolding require
round_end want l n (ok [], u) le shut g = Forwards-raise body_streamer_error 0 1 want l u shut
round_end want l n (ok (c ∷ s), u) le shut g =
    forward-Forwards 1 want l (c ∷ s) u (omega arith) (omega (arith, g.fits)) g.split shut
round_end want l n (err e, u) le shut g = Forwards-raise e 0 1 want l u shut
round_end want l n (spinning, u) le shut g = elim g [ ]

-- One round forwards at least one and at most `want` of the next bytes, in order, or raises.
pub round-Forwards :
    (chunk_size want : ℕ) (l : Link)
    → 0 < chunk_size
    → 0 < want
    → l.writer.closing ≡ false
    → Forwards 0 1 want l (round chunk_size want l)
unfolding round recv
round-Forwards chunk_size want l k pos shut =
    round_end want l (min chunk_size want) _ (omega arith) shut
      (read-Gives (min chunk_size want) l.reader (omega arith))

-- A quiet reader, and a writer whose drains all end.
pub record IsCalm (l : Link) : Type 0 where
  pub quiet : IsQuietReader l.reader
  pub shut : l.writer.closing ≡ false
  pub drained : l.writer.drains ≡ []

-- On a calm link a round raises only at the end of the file, and leaves the link calm.
abbrev pub CalmRound : Link → Result ℕ × Link → Type 0
CalmRound l (ok n, m) = IsCalm m
CalmRound l (err e, m) = (e ≡ body_streamer_error) × (content l.reader ≡ []) × (m.writer ≡ l.writer)
CalmRound l (spinning, m) = ⊥

-- Where `d` has been read on a calm link, forwarding it succeeds and leaves the link calm.
pub forward-IsCalm :
    (l : Link) (d : Bytes) (u : UnreadableStreamReader)
    → IsCalm l
    → IsQuietReader u
    → let m : Link = record {
      reader = u;
      writer = record (l.writer) { written = l.writer.written ++ d };
    } in
      (forward d (record { reader = u; writer = l.writer }) ≡ (ok (length d), m)) × IsCalm m
unfolding forward send flush
forward-IsCalm l d u c q = (
  go (Stream.write d l.writer) (write_open d l.writer c.shut),
  record { quiet = q; shut = c.shut; drained = c.drained },
)
  where
    go :
        (w : StreamWriter)
        → w ≡ record (l.writer) { written = l.writer.written ++ d }
        → ◌≡◌ {A = Result ℕ × Link}
            (resume
              (Stream.drain w).0
              (λ _. pure (length d))
              (record { reader = u; writer = (Stream.drain w).1 }))
            (
              ok (length d),
              record { reader = u; writer = record (l.writer) { written = l.writer.written ++ d } },
            )
    go w e =
        let ended : Stream.drain w ≡ (ok tt, w) =
          drain_calm w (ap (λ x. x.closing) e ∙ c.shut) (ap (λ x. x.drains) e ∙ c.drained) in
        rw ended (ap (λ (v : StreamWriter). (ok (length d), record { reader = u; writer = v })) e)

round_calm :
    (l : Link) (n : ℕ) (x : Result Bytes × UnreadableStreamReader)
    → 0 < n
    → IsCalm l
    → Gives n l.reader x
    → ReadsOk x
    → CalmRound l (
        resume x.0
          (λ chunk. require chunk >> forward chunk)
          (record { reader = x.1; writer = l.writer }))
unfolding require
round_calm l n (ok [], u) pos c g r = (refl, g.ends pos refl, refl)
round_calm l n (ok (y ∷ s), u) pos c g r =
    let (e, calm) = forward-IsCalm l (y ∷ s) u c r in subst (CalmRound l) (sym e) calm
round_calm l n (err e, u) pos c g r = elim r [ ]
round_calm l n (spinning, u) pos c g r = elim r [ ]

pub round-CalmRound :
    (chunk_size want : ℕ) (l : Link)
    → 0 < chunk_size
    → 0 < want
    → IsCalm l
    → CalmRound l (round chunk_size want l)
unfolding round recv
round-CalmRound chunk_size want l k pos c =
    round_calm l (min chunk_size want) (BufferedReader.read (min chunk_size want) l.reader)
      (omega arith) c (read-Gives (min chunk_size want) l.reader (omega arith))
      (read-ReadsOk (min chunk_size want) l.reader c.quiet)
