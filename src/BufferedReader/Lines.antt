-- ===== src/BufferedReader/Lines.antt =====
-- Lines read through the wrapper.
use nginx_remake_v.Prelude.{
  ◌+◌, ◌≤◌, ◌≡◌, sym, ap, ◌∙◌, inl, inr, none, some, List, [], ◌∷◌, ◌++◌, append-nil, arith,
  Option-cases, length, length-append, Bytes, number_keys, text_keys,
}
use nginx_remake_v.Exec.{Result, ok, err, spinning}
use nginx_remake_v.Stream
use nginx_remake_v.Stream.{StreamReader, split_line, line_limit}
use nginx_remake_v.Stream.Laws
use nginx_remake_v.Stream.Laws.{
  to_come, Reads, IsQuiet, ReadGives, read-ReadGives, read-IsQuietOk, IsQuietOk,
}
use nginx_remake_v.Stream.Lines.{
  split_line-append, split_line-skip, some_pair, split_line-append_none, readline-rest, Line,
  readline-Line,
}
use nginx_remake_v.BufferedReader.{
  UnreadableStreamReader, join, readline, prefixed, line_back, line_with,
}
use nginx_remake_v.BufferedReader.Laws.{content, IsQuietReader}

-- The answer of a `readline`: the line, from a stream that stays quiet and has the rest.
pub record ReadsLine (l rest : Bytes) (x : Result Bytes × UnreadableStreamReader) : Type 0 where
  pub gives : x.0 ≡ ok l
  pub leaves : content x.1 ≡ rest
  pub quiet : IsQuietReader x.1

prefixed-ReadsLine :
    (d : Bytes) (x : Result Bytes × StreamReader) {m rest : Bytes}
    → Line m rest x
    → ReadsLine (d ++ m) rest (prefixed d [] x)
unfolding prefixed join
prefixed-ReadsLine d (ok s, r) g = record {
  gives = ground (arith, g.gives);
  leaves = g.leaves;
  quiet = g.quiet;
}
prefixed-ReadsLine d (err e, r) g = ground (arith, g.gives)
prefixed-ReadsLine d (spinning, r) g = ground (arith, g.gives)

line_back-ReadsLine :
    (d : Bytes) (u : UnreadableStreamReader) {l rest : Bytes}
    → IsQuietReader u
    → split_line (d ++ Laws.content u.inner) ≡ some (l, rest)
    → length l ≤ line_limit + 1
    → ReadsLine l rest (line_back d u)
unfolding line_back join
line_back-ReadsLine d u {l} {rest} q e fits = elim (Option-cases (split_line d)) [
  | inl h ↦
      let (m, lm, tm) = split_line-skip d (Laws.content u.inner) h e in
      let less : length m ≤ line_limit + 1 = omega (arith, fits, ap length lm, length-append d m) in
      rw (h, lm, line_back)
        (prefixed-ReadsLine d (Stream.readline u.inner) (readline-Line u.inner q tm less))
  | inr (p, h) ↦
      let same =
        some_pair (sym (split_line-append d (Laws.content u.inner) {l = p.0} {rest = p.1} h) ∙ e) in
      rw (h, line_back) (record { gives = ap ok same.0; leaves = rw append-nil same.1; quiet = q })
]

line_with-ReadsLine :
    (ds : List Bytes) (u : UnreadableStreamReader) {l rest : Bytes}
    → IsQuietReader u
    → split_line (join ds ++ Laws.content u.inner) ≡ some (l, rest)
    → length l ≤ line_limit + 1
    → ReadsLine l rest (line_with ds u)
unfolding line_with join
line_with-ReadsLine [] u q e fits =
    prefixed-ReadsLine [] (Stream.readline u.inner) (readline-Line u.inner q e fits)
line_with-ReadsLine (b ∷ bs) u q e fits = line_back-ReadsLine (join (b ∷ bs)) u q e fits

-- On a quiet stream readline gives the first line of what is to be read, within asyncio's limit,
-- whether it lies in the bytes put back, in the stream or across both, and keeps what follows.
pub readline-ReadsLine :
    (u : UnreadableStreamReader) {l rest : Bytes}
    → IsQuietReader u
    → split_line (content u) ≡ some (l, rest)
    → length l ≤ line_limit + 1
    → ReadsLine l rest (readline u)
unfolding readline
readline-ReadsLine u q e fits = line_with-ReadsLine u.unread_buffer u q e fits

split_line-beyond_none : (s t : Bytes) → split_line (s ++ t) ≡ none → split_line t ≡ none
unfolding split_line
split_line-beyond_none [] t h = h
split_line-beyond_none (c ∷ s) t h =
    split_line-beyond_none s t (ground (arith, h, Option-cases (split_line (s ++ t))))

line_back-rest :
    (d : Bytes) (u : UnreadableStreamReader)
    → IsQuietReader u
    → split_line (d ++ Laws.content u.inner) ≡ none
    → length (d ++ Laws.content u.inner) ≤ line_limit
    → ReadsLine (d ++ Laws.content u.inner) [] (line_back d u)
unfolding line_back
line_back-rest d u q e fits =
    rw (split_line-append_none d (Laws.content u.inner) e, line_back)
      (prefixed-ReadsLine d (Stream.readline u.inner) (
        readline-rest u.inner q (split_line-beyond_none d (Laws.content u.inner) e)
          (omega (arith, fits, length-append d (Laws.content u.inner)))))

line_with-rest :
    (ds : List Bytes) (u : UnreadableStreamReader)
    → IsQuietReader u
    → split_line (join ds ++ Laws.content u.inner) ≡ none
    → length (join ds ++ Laws.content u.inner) ≤ line_limit
    → ReadsLine (join ds ++ Laws.content u.inner) [] (line_with ds u)
unfolding line_with join
line_with-rest [] u q e fits =
    prefixed-ReadsLine [] (Stream.readline u.inner) (readline-rest u.inner q e fits)
line_with-rest (b ∷ bs) u q e fits = line_back-rest (join (b ∷ bs)) u q e fits

-- With no newline left, `readline` gives all that is left at the end of the file, and nothing at
-- each call after that.
pub readline-rest_back :
    (u : UnreadableStreamReader)
    → IsQuietReader u
    → split_line (content u) ≡ none
    → length (content u) ≤ line_limit
    → ReadsLine (content u) [] (readline u)
unfolding readline
readline-rest_back u q e fits = line_with-rest u.unread_buffer u q e fits
