-- ===== src/BufferedReader.antt =====
-- proxy/buffered_reader.py: `UnreadableStreamReader`, a stream with a deque of bytes put back.
pub mod Laws
pub mod Lines
mod Tests
use nginx_remake_v.Prelude.{
  ℕ, zero, suc, ◌+◌, ◌-◌, ◌*◌, ◌/◌, ◌%◌, ◌≤◌, ◌<◌, min, max, ◌≡◌, refl, sym, ap, ◌∙◌, subst, ◌≢◌,
  ◌↔◌, ◌⊎◌, inl, inr, Bool, true, false, not, ◌&&◌, ◌||◌, Option, none, some, List, [], ◌∷◌, ◌++◌,
  map, append-nil, append_assoc, arith, ltb, leb, eqb, if◌then◌else◌, ltb→lt, leb→le, eqb_iff,
  Bool-cases, Option-cases, length, get_elem?, take, drop, length-append, take-append-drop,
  length-take, length-drop, Text, Bytes, codes, text_eq, text_eq_iff, Key, ◌==◌, number_keys,
  text_keys,
}
use nginx_remake_v.Prelude.Dict.{
  Dict, lookup, insert, lookup-insert, lookup-insert_self, lookup-insert_ne,
}
use nginx_remake_v.Exec.{Exception, incomplete_read, Result, ok, err, spinning, Coro}
use nginx_remake_v.Stream
use nginx_remake_v.Stream.{StreamReader, split_line}

pub record UnreadableStreamReader : Type 0 where
  pub inner : StreamReader
  pub unread_buffer : List Bytes

-- `UnreadableStreamReader(reader)`
unfoldable pub wrap : StreamReader → UnreadableStreamReader
wrap r = record { inner = r; unread_buffer = [] }

-- `b"".join(...)`
unfoldable pub join : List Bytes → Bytes
join [] = []
join (d ∷ ds) = d ++ join ds

-- `d + await ...`, the deque being `ds` meanwhile.
prefixed : Bytes → List Bytes → Result Bytes × StreamReader → Result Bytes × UnreadableStreamReader
prefixed d ds (ok s, r) = (ok (d ++ s), record { inner = r; unread_buffer = ds })
prefixed d ds (err e, r) = (err e, record { inner = r; unread_buffer = ds })
prefixed d ds (spinning, r) = (spinning, record { inner = r; unread_buffer = ds })

-- The branch of `read(n)` in which the deque is not empty; `d` is its join.
read_back : Bytes → ℕ → Coro UnreadableStreamReader Bytes
unfolding prefixed
read_back d n r =
    if leb n (length d)
    then (ok (take n d), record r { unread_buffer = drop n d ∷ [] })
    else prefixed d [] (Stream.read (n - length d) r.inner)

read_with : List Bytes → ℕ → Coro UnreadableStreamReader Bytes
unfolding read_back prefixed join
read_with [] n r = prefixed [] [] (Stream.read n r.inner)
read_with (b ∷ bs) n r = read_back (join (b ∷ bs)) n r

-- `read(n)`, n ≥ 0
unfoldable pub read : ℕ → Coro UnreadableStreamReader Bytes
unfolding read_with
read n r = read_with r.unread_buffer n r

-- `read(-1)`
unfoldable pub read_all : Coro UnreadableStreamReader Bytes
unfolding prefixed join
read_all r = prefixed (join r.unread_buffer) [] (Stream.read_all r.inner)

short : ℕ → Result Bytes × UnreadableStreamReader → Result Bytes × UnreadableStreamReader
short n (ok d, r) = if ltb (length d) n then (err incomplete_read, r) else (ok d, r)
short n (err e, r) = (err e, r)
short n (spinning, r) = (spinning, r)

unfoldable pub readexactly : ℕ → Coro UnreadableStreamReader Bytes
unfolding short
readexactly n r = short n (read n r)

line_back : Bytes → Coro UnreadableStreamReader Bytes
unfolding prefixed
line_back d r = elim (split_line d) [
  | some (l, rest) ↦ (ok l, record r { unread_buffer = rest ∷ [] })
  | none ↦ prefixed d [] (Stream.readline r.inner)
]

line_with : List Bytes → Coro UnreadableStreamReader Bytes
unfolding line_back join prefixed
line_with [] r = prefixed [] [] (Stream.readline r.inner)
line_with (b ∷ bs) r = line_back (join (b ∷ bs)) r

unfoldable pub readline : Coro UnreadableStreamReader Bytes
unfolding line_with
readline r = line_with r.unread_buffer r

-- `unread(data)`: in front of the deque, and nothing for no bytes.
unfoldable pub unread : Bytes → UnreadableStreamReader → UnreadableStreamReader
unread [] r = r
unread (c ∷ s) r = record r { unread_buffer = (c ∷ s) ∷ r.unread_buffer }
