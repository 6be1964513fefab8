-- ===== src/BodyStreamer/Identity.antt =====
-- `stream_identity` forwards exactly as many bytes as the length says, or raises.
use nginx_remake_v.Prelude.{
  ℕ, zero, suc, ◌+◌, ◌-◌, ◌≤◌, ◌<◌, ◌≡◌, sym, ap, ◌∙◌, inl, inr, false, ◌++◌, append-nil,
  append_assoc, arith, ltb, ltb→lt, Bool-cases, length, length-append, append_split, Bytes,
  number_keys, text_keys,
}
use nginx_remake_v.Exec.{body_streamer_error, Result, ok, err, spinning, resume}
use nginx_remake_v.BufferedReader.Laws.{content}
use nginx_remake_v.BodyStreamer.{Link, round, identity_loop, stream_identity}
use nginx_remake_v.BodyStreamer.Round.{
  Moves, Forwards, Forwards-after, Forwards-start, round-Forwards, IsCalm, CalmRound,
  round-CalmRound,
}

identity_next :
    (chunk_size total content_length left fuel : ℕ) (l : Link) (x : Result ℕ × Link)
    → total + left ≡ content_length
    → left < suc fuel
    → Forwards 0 1 left l x
    → ((t rest : ℕ) (m : Link)
        → m.writer.closing ≡ false
        → t + rest ≡ content_length
        → rest < fuel
        → Forwards t rest rest m (identity_loop fuel chunk_size t content_length m))
    → Forwards total left left l
        (resume x.0 (λ n. identity_loop fuel chunk_size (total + n) content_length) x.1)
identity_next chunk_size total content_length left fuel l (ok n, m) sum f (d, e, p, q, a) ih =
    Forwards-after l m d total (total + n) _ _ (left - n) (left - n) _ a (omega arith) (omega arith)
      (omega arith) (ih (total + n) (left - n) m a.still_open (omega arith) (omega arith))
identity_next chunk_size total content_length left fuel l (err x, m) sum f g ih = g
identity_next chunk_size total content_length left fuel l (spinning, m) sum f g ih = g

pub identity_loop-Forwards :
    (chunk_size content_length : ℕ)
    → 0 < chunk_size
    → (fuel total left : ℕ) (l : Link) → l.writer.closing ≡ false
    → total + left ≡ content_length
    → left < fuel
    → Forwards total left left l (identity_loop fuel chunk_size total content_length l)
unfolding identity_loop
identity_loop-Forwards chunk_size content_length k zero total left l shut sum f =
    absurd (omega arith)
identity_loop-Forwards chunk_size content_length k (suc fuel) total left l shut sum f =
    elim (Bool-cases (ltb total content_length)) [
      | inl h ↦
          let lt = ltb→lt total content_length h in
          let same : content_length - total ≡ left = omega arith in
          rw (h, same, identity_loop)
            (identity_next chunk_size total content_length left fuel l (round chunk_size left l) sum
              f (round-Forwards chunk_size left l k (omega arith) shut)
              (λ t rest m. identity_loop-Forwards chunk_size content_length k fuel t rest m))
      | inr h ↦
          let done : left ≡ 0 = ground (arith, h) in
          rw (h, done, identity_loop) (Forwards-start total 0 l shut)
    ]

-- Over any network, stream_identity with a chunk size above 0 and an open writer ends: it returns
-- the length with exactly that many bytes taken and written in order, or raises with a first part
-- of what was to come, no longer than the length, written.
pub stream_identity-Forwards :
    (chunk_size content_length : ℕ) (l : Link)
    → 0 < chunk_size
    → l.writer.closing ≡ false
    → Forwards 0 content_length content_length l (stream_identity chunk_size content_length l)
unfolding stream_identity
stream_identity-Forwards chunk_size content_length l k shut =
    identity_loop-Forwards chunk_size content_length k (content_length + 1) 0 content_length l shut
      (omega arith) (omega arith)

-- On a calm link a return means that the reader held the whole body, and a raise that the body ended
-- too early, with all of it forwarded.
abbrev pub Completes : ℕ → Link → Result ℕ × Link → Type 0
Completes left l (ok n, m) = IsCalm m × (left ≤ length (content l.reader))
Completes left l (err e, m) =
    (e ≡ body_streamer_error)
    × (length (content l.reader) < left)
    × (m.writer.written ≡ l.writer.written ++ content l.reader)
Completes left l (spinning, m) = ⊥

Completes-after :
    (l m : Link) (d : Bytes) (left : ℕ) (x : Result ℕ × Link)
    → Moves l d (content m.reader) m
    → length d ≤ left
    → Completes (left - length d) m x
    → Completes left l x
Completes-after l m d left (ok n, k) a le (c, enough) =
    (c, omega (arith, ap length a.taken, length-append d (content m.reader), enough))
Completes-after l m d left (err e, k) a le (e', lt, w) = (
  e',
  omega (arith, ap length a.taken, length-append d (content m.reader)),
  w
      ∙ ap (λ (b : Bytes). b ++ content m.reader) a.given
      ∙ append_assoc l.writer.written d (content m.reader)
      ∙ ap (◌++◌ l.writer.written) (sym a.taken),
)
Completes-after l m d left (spinning, k) a le c = c

Completes-next :
    (chunk_size total content_length left fuel : ℕ) (l : Link) (x : Result ℕ × Link)
    → 0 < left
    → total + left ≡ content_length
    → left < suc fuel
    → Forwards 0 1 left l x
    → CalmRound l x
    → ((t rest : ℕ) (m : Link)
        → IsCalm m
        → t + rest ≡ content_length
        → rest < fuel
        → Completes rest m (identity_loop fuel chunk_size t content_length m))
    → Completes left l
        (resume x.0 (λ n. identity_loop fuel chunk_size (total + n) content_length) x.1)
Completes-next chunk_size total content_length left fuel l (ok n, m) pos sum f (d, e, p, q, a) c
      ih =
    Completes-after l m d left _ a q
      (ih (total + n) (left - length d) m c (omega arith) (omega arith))
Completes-next chunk_size total content_length left fuel l (err x, m) pos sum f g (e, none', w) ih =
    (
      e,
      omega (arith, ap length none'),
      ap (λ x. x.written) w
          ∙ sym (append-nil l.writer.written)
          ∙ ap (◌++◌ l.writer.written) (sym none'),
    )
Completes-next chunk_size total content_length left fuel l (spinning, m) pos sum f g c ih = c

pub identity_loop-Completes :
    (chunk_size content_length : ℕ)
    → 0 < chunk_size
    → (fuel total left : ℕ) (l : Link) → IsCalm l
    → total + left ≡ content_length
    → left < fuel
    → Completes left l (identity_loop fuel chunk_size total content_length l)
unfolding identity_loop
identity_loop-Completes chunk_size content_length k zero total left l c sum f = absurd (omega arith)
identity_loop-Completes chunk_size content_length k (suc fuel) total left l c sum f =
    elim (Bool-cases (ltb total content_length)) [
      | inl h ↦
          let lt = ltb→lt total content_length h in
          let same : content_length - total ≡ left = omega arith in
          rw (h, same, identity_loop)
            (Completes-next chunk_size total content_length left fuel l (round chunk_size left l)
              (omega arith) sum f (round-Forwards chunk_size left l k (omega arith) c.shut)
              (round-CalmRound chunk_size left l k (omega arith) c)
              (λ t rest m. identity_loop-Completes chunk_size content_length k fuel t rest m))
      | inr h ↦
          let done : left ≡ 0 = ground (arith, h) in rw (h, done, identity_loop) (c, omega arith)
    ]

-- With a chunk size above 0, an open writer and a network that neither stalls nor breaks,
-- stream_identity returns only if the reader holds as many bytes as the length, and raises only
-- BodyStreamerError, only if it holds fewer, with all of them forwarded; it does one of the two.
pub stream_identity-Completes :
    (chunk_size content_length : ℕ) (l : Link)
    → 0 < chunk_size
    → IsCalm l
    → Completes content_length l (stream_identity chunk_size content_length l)
unfolding stream_identity
stream_identity-Completes chunk_size content_length l k c =
    identity_loop-Completes chunk_size content_length k (content_length + 1) 0 content_length l c
      (omega arith) (omega arith)

-- Exactly `d` has been forwarded, `more` is left to be read, and the count is `t`.
pub record Exact (l : Link) (d more : Bytes) (t : ℕ) (x : Result ℕ × Link) : Type 0 where
  pub gives : x.0 ≡ ok t
  pub left : content (x.1).reader ≡ more
  pub given : (x.1).writer.written ≡ l.writer.written ++ d
  pub calm : IsCalm x.1

pub Exact-of :
    (l : Link) (d more : Bytes) (total t n : ℕ) (x : Result ℕ × Link)
    → content l.reader ≡ d ++ more
    → length d ≡ n
    → total + n ≡ t
    → Forwards total n n l x
    → Completes n l x
    → Exact l d more t x
Exact-of l d more total t n (ok c, m) split len sum (d', count, lo, hi, a) (calm, enough) =
    let same = append_split d' d (content m.reader) more (sym a.taken ∙ split) (omega arith) in
    record {
      gives = ap ok (omega arith);
      left = same.1;
      given = a.given ∙ ap (◌++◌ l.writer.written) same.0;
      calm = calm;
    }
Exact-of l d more total t n (err e, m) split len sum g (e', lt, w) =
    absurd (omega (arith, ap length split, length-append d more))
Exact-of l d more total t n (spinning, m) split len sum g c = elim g [ ]
