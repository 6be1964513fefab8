-- ===== src/BufferedReader/Laws.antt =====
-- The wrapper reads as the stream would with the bytes put back in front of it.
use nginx_remake_v.Prelude.{
  ℕ, ◌+◌, ◌-◌, ◌≤◌, ◌<◌, ◌≡◌, refl, sym, ap, ◌∙◌, subst, inl, inr, List, [], ◌∷◌, ◌++◌, append-nil,
  append_assoc, arith, ap₂, ltb, leb, leb→le, Bool-cases, length, take, drop, length-append,
  take-append-drop, length-take, Bytes, number_keys, text_keys,
}
use nginx_remake_v.Exec.{Result, ok, err, spinning}
use nginx_remake_v.Stream
use nginx_remake_v.Stream.{StreamReader, split_line, line_limit}
use nginx_remake_v.Stream.Laws
use nginx_remake_v.Stream.Laws.{
  to_come, Reads, IsQuiet, ReadGives, read-ReadGives, read-IsQuietOk, IsQuietOk,
}
use nginx_remake_v.BufferedReader.{
  UnreadableStreamReader, join, read, unread, readexactly, short, read_with, read_back, prefixed,
}

-- The bytes put back, and then those of the stream.
abbrev pub content : UnreadableStreamReader → Bytes
content u = join u.unread_buffer ++ Laws.content u.inner

abbrev pub IsQuietReader : UnreadableStreamReader → Type 0
IsQuietReader u = IsQuiet u.inner.coming

-- Bytes put back are the next to be read.
pub content-unread :
    (d : Bytes) (u : UnreadableStreamReader) → content (unread d u) ≡ d ++ content u
unfolding unread join
content-unread [] u = refl
content-unread (c ∷ s) u = append_assoc (c ∷ s) (join u.unread_buffer) (Laws.content u.inner)

-- Where a read raises, the stream's own bytes are kept, and the bytes put back are lost.
abbrev pub Gives : ℕ → UnreadableStreamReader → Result Bytes × UnreadableStreamReader → Type 0
Gives n u (ok d, v) = Reads n (content u) (content v) d
Gives n u (err e, v) = content v ≡ Laws.content u.inner
Gives n u (spinning, v) = ⊥

append-eq-nil : (d s : Bytes) → d ++ s ≡ [] → (d ≡ []) × (s ≡ [])
append-eq-nil [] s e = (refl, e)
append-eq-nil (x ∷ d) s e = cc

prefix-Reads :
    (d s before after : Bytes) (m n : ℕ)
    → 0 < m
    → m + length d ≡ n
    → Reads m before after s
    → Reads n (d ++ before) after (d ++ s)
prefix-Reads d s before after m n pos sum r = record {
  split = ap (◌++◌ d) r.split ∙ sym (append_assoc d s after);
  fits = omega (arith, length-append d s, r.fits, sum);
  ends = λ _ e. let (ed, es) = append-eq-nil d s e in rw (ed, r.ends pos es);
}

prefixed-Gives :
    (d : Bytes) (m n : ℕ) (u : UnreadableStreamReader) (x : Result Bytes × StreamReader)
    → 0 < m
    → m + length d ≡ n
    → join u.unread_buffer ≡ d
    → ReadGives m (Laws.content u.inner) x
    → Gives n u (prefixed d [] x)
unfolding prefixed join
prefixed-Gives d m n u (ok s, r) pos sum e g =
    subst (λ (b : Bytes). Reads n (b ++ Laws.content u.inner) (Laws.content r) (d ++ s)) (sym e)
      (prefix-Reads d s _ _ m n pos sum g)
prefixed-Gives d m n u (err x, r) pos sum e g = g
prefixed-Gives d m n u (spinning, r) pos sum e g = elim g [ ]

-- The bytes put back suffice.
back-Reads :
    (n : ℕ) (d more : Bytes)
    → 0 < n
    → n ≤ length d
    → Reads n (d ++ more) ((drop n d ++ []) ++ more) (take n d)
back-Reads n d more pos le = rw append-nil (record {
  split =
      ap (λ (x : Bytes). x ++ more) (sym (take-append-drop n d))
      ∙ append_assoc (take n d) (drop n d) more;
  fits = omega (arith, length-take n d);
  ends = λ _ e. absurd (omega (arith, ap length e, length-take n d));
})

read_back-Gives :
    (d : Bytes) (n : ℕ) (u : UnreadableStreamReader)
    → 0 < n
    → join u.unread_buffer ≡ d
    → Gives n u (read_back d n u)
unfolding read_back join
read_back-Gives d n u pos e = elim (Bool-cases (leb n (length d))) [
  | inl h ↦ rw h (
      subst
        (λ (b : Bytes).
          Reads n (b ++ Laws.content u.inner) ((drop n d ++ []) ++ Laws.content u.inner) (take n d))
        (sym e) (back-Reads n d (Laws.content u.inner) pos (leb→le n (length d) h)))
  | inr h ↦
      let less : length d < n = ground arith in
      rw h (
        prefixed-Gives d (n - length d) n u (Stream.read (n - length d) u.inner) (omega arith)
          (omega arith) e (read-ReadGives (n - length d) u.inner))
]

read_with-Gives :
    (ds : List Bytes) (n : ℕ) (u : UnreadableStreamReader)
    → 0 < n
    → u.unread_buffer ≡ ds
    → Gives n u (read_with ds n u)
unfolding read_with join
read_with-Gives [] n u pos e =
    prefixed-Gives [] n n u (Stream.read n u.inner) pos (omega arith) (ap join e)
      (read-ReadGives n u.inner)
read_with-Gives (b ∷ bs) n u pos e = read_back-Gives (join (b ∷ bs)) n u pos (ap join e)

-- A read of at least one byte gives the next bytes, put back or from the stream, no more than were
-- asked for, and keeps the rest in order; it gives nothing only at the end of the file, and where
-- it raises, exactly the bytes put back are lost.
pub read-Gives : (n : ℕ) (u : UnreadableStreamReader) → 0 < n → Gives n u (read n u)
unfolding read
read-Gives n u pos = read_with-Gives u.unread_buffer n u pos refl

-- On a quiet stream `read` does not raise, and leaves it quiet.
abbrev pub ReadsOk : Result Bytes × UnreadableStreamReader → Type 0
ReadsOk (ok d, v) = IsQuietReader v
ReadsOk (err e, v) = ⊥
ReadsOk (spinning, v) = ⊥

prefixed-ReadsOk :
    (d : Bytes) (x : Result Bytes × StreamReader) → IsQuietOk x → ReadsOk (prefixed d [] x)
unfolding prefixed
prefixed-ReadsOk d (ok s, r) q = q
prefixed-ReadsOk d (err e, r) q = q
prefixed-ReadsOk d (spinning, r) q = q

read_with-ReadsOk :
    (ds : List Bytes) (n : ℕ) (u : UnreadableStreamReader)
    → IsQuietReader u
    → ReadsOk (read_with ds n u)
unfolding read_with
read_with-ReadsOk [] n u q =
    prefixed-ReadsOk [] (Stream.read n u.inner) (read-IsQuietOk n u.inner q)
read_with-ReadsOk (b ∷ bs) n u q = elim (Bool-cases (leb n (length (join (b ∷ bs))))) [
  | inl h ↦ rw (h, read_back) q
  | inr h ↦
      rw (h, read_back)
        (prefixed-ReadsOk (join (b ∷ bs)) (Stream.read (n - length (join (b ∷ bs))) u.inner)
          (read-IsQuietOk (n - length (join (b ∷ bs))) u.inner q))
]

pub read-ReadsOk : (n : ℕ) (u : UnreadableStreamReader) → IsQuietReader u → ReadsOk (read n u)
unfolding read
read-ReadsOk n u q = read_with-ReadsOk u.unread_buffer n u q

short-length :
    (n : ℕ) (u : UnreadableStreamReader) (x : Result Bytes × UnreadableStreamReader) {d : Bytes}
    {v : UnreadableStreamReader}
    → Gives n u x
    → short n x ≡ (ok d, v)
    → (length d ≡ n) × (content u ≡ d ++ content v)
unfolding short
short-length n u (ok s, r) {d} {v} g e = elim (Bool-cases (ltb (length s) n)) [
  | inl h ↦ ground (arith, h)
  | inr h ↦
      let p : (s ≡ d) × (r ≡ v) = ground (arith, h) in
      let full : length s ≡ n = ground (arith, g.fits) in
      (
        ap length (sym p.0) ∙ full,
        g.split ∙ ap₂ (λ (a : Bytes) (b : UnreadableStreamReader). a ++ content b) p.0 p.1,
      )
]
short-length n u (err x, r) g e = ground arith
short-length n u (spinning, r) g e = ground arith

-- `readexactly` gives exactly as many bytes as were asked for, or raises.
readexactly-length :
    (n : ℕ) (u : UnreadableStreamReader) {d : Bytes} {v : UnreadableStreamReader}
    → 0 < n
    → readexactly n u ≡ (ok d, v)
    → (length d ≡ n) × (content u ≡ d ++ content v)
unfolding readexactly
readexactly-length n u pos e = short-length n u (read n u) (read-Gives n u pos) e
