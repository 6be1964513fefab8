-- ===== src/Stream.antt =====
-- `asyncio.StreamReader` and `asyncio.StreamWriter`, as far as the proxy uses them.
--
-- A reader has what has arrived (`buffer`) and a script of what the network will do. One entry
-- of the script is a chunk of bytes, a silence longer than the timeout that the proxy has put
-- round its read (`proxy/timeouts.py`, `wait_for_read`), or a broken connection; the peer's end of
-- file is the end of the script. A writer has what was written, and a script for its next drains.
pub mod Laws
pub mod Lines
pub mod Writing
use nginx_remake_v.Prelude.{
  ℕ, zero, suc, ◌+◌, ◌-◌, ◌*◌, ◌/◌, ◌%◌, ◌≤◌, ◌<◌, min, max, ◌≡◌, refl, sym, ap, ◌∙◌, subst, ◌≢◌,
  ◌↔◌, ◌⊎◌, inl, inr, Bool, true, false, not, ◌&&◌, ◌||◌, Option, none, some, List, [], ◌∷◌, ◌++◌,
  map, append-nil, append_assoc, arith, ltb, leb, eqb, if◌then◌else◌, ltb→lt, leb→le, eqb_iff,
  Bool-cases, Option-cases, length, get_elem?, take, drop, length-append, take-append-drop,
  length-take, length-drop, Text, Bytes, codes, text_eq, text_eq_iff, Key, ◌==◌, number_keys,
  text_keys,
}
use nginx_remake_v.Prelude.Dict.{
  Dict, lookup, insert, lookup-insert, lookup-insert_self, lookup-insert_ne,
}
use nginx_remake_v.Exec.{
  Exception, timeout_error, connection_reset, value_error, Result, ok, err, Coro,
}

pub data Arrival : Type 0 where
  chunk : Bytes → Arrival
  stall : Arrival
  broken : Exception → Arrival

pub record StreamReader : Type 0 where
  pub buffer : Bytes
  pub coming : List Arrival

-- The wait of a read whose buffer is empty: the first bytes to come, none at the end of file.
unfoldable pub await_data : List Arrival → Coro StreamReader (Unit {0})
await_data [] r = (ok tt, record r { coming = [] })
await_data (chunk [] ∷ more) r = await_data more r
await_data (chunk (x ∷ xs) ∷ more) r = (ok tt, record r { buffer = x ∷ xs; coming = more })
await_data (stall ∷ more) r = (err timeout_error, record r { coming = more })
await_data (broken e ∷ more) r = (err e, record r { coming = broken e ∷ more })

take_buffer : ℕ → Result (Unit {0}) × StreamReader → Result Bytes × StreamReader
take_buffer n (ok _, r) = (ok (take n r.buffer), record r { buffer = drop n r.buffer })
take_buffer n (err e, r) = (err e, r)
take_buffer n (Result.spinning, r) = (Result.spinning, r)

read_from : Bytes → ℕ → Coro StreamReader Bytes
unfolding take_buffer
read_from [] n r = take_buffer n (await_data r.coming r)
read_from (x ∷ xs) n r = take_buffer n (ok tt, r)

-- `reader.read(n)`, n ≥ 0: at least one byte unless n is 0 or the file has ended.
unfoldable pub read : ℕ → Coro StreamReader Bytes
unfolding read_from
read zero r = (ok [], r)
read (suc n) r = read_from r.buffer (suc n) r

-- `reader.read(-1)`: all up to the end of file; a raise loses the blocks read before it.
all_from : List Arrival → Bytes → Result Bytes × StreamReader
all_from [] s = (ok s, record { buffer = []; coming = [] })
all_from (chunk c ∷ more) s = all_from more (s ++ c)
all_from (stall ∷ more) s = (err timeout_error, record { buffer = []; coming = more })
all_from (broken e ∷ more) s = (err e, record { buffer = []; coming = broken e ∷ more })

unfoldable pub read_all : Coro StreamReader Bytes
unfolding all_from
read_all r = all_from r.coming r.buffer

-- `bytes.find(b"\n")`, as the line with its newline and what follows.
unfoldable pub split_line : Bytes → Option (Bytes × Bytes)
split_line [] = none
split_line (c ∷ s) =
    if eqb c 10
    then some (c ∷ [], s)
    else elim (split_line s) [ none ↦ none | some (l, more) ↦ some (c ∷ l, more) ]

-- The limit of asyncio on a line, 64 KiB.
abbrev pub line_limit : ℕ
line_limit = 65536

-- What a buffer answers to a `readline`: a line, a refusal, or nothing yet.
line_ready : Bytes → Option (Result Bytes × Bytes)
line_ready s = elim (split_line s) [
  | some (l, rest) ↦ some ((if ltb line_limit (length l - 1) then err value_error else ok l), rest)
  | none ↦ if ltb line_limit (length s) then some (err value_error, []) else none
]

-- `reader.readline()` with `s` in the buffer: the line with its newline, or what is left at the
-- end of file. A line whose newline stands beyond the limit raises `ValueError` and is dropped.
line_from : List Arrival → Bytes → Result Bytes × StreamReader
unfolding line_ready
line_from [] s = elim (line_ready s) [
  | some (x, b) ↦ (x, record { buffer = b; coming = [] })
  | none ↦ (ok s, record { buffer = []; coming = [] })
]
line_from (chunk c ∷ more) s = elim (line_ready s) [
  | some (x, b) ↦ (x, record { buffer = b; coming = chunk c ∷ more })
  | none ↦ line_from more (s ++ c)
]
line_from (stall ∷ more) s = elim (line_ready s) [
  | some (x, b) ↦ (x, record { buffer = b; coming = stall ∷ more })
  | none ↦ (err timeout_error, record { buffer = s; coming = more })
]
line_from (broken e ∷ more) s = elim (line_ready s) [
  | some (x, b) ↦ (x, record { buffer = b; coming = broken e ∷ more })
  | none ↦ (err e, record { buffer = s; coming = broken e ∷ more })
]

unfoldable pub readline : Coro StreamReader Bytes
unfolding line_from
readline r = line_from r.coming r.buffer

-- A writer: its bytes, whether the proxy has closed it, and how its next drains end.
pub record StreamWriter : Type 0 where
  pub written : Bytes
  pub closing : Bool
  pub drains : List (Option Exception)

-- `writer.write(data)`: a transport that was closed drops the bytes.
unfoldable pub write : Bytes → StreamWriter → StreamWriter
write d w = if w.closing then w else record w { written = w.written ++ d }

drain_next : List (Option Exception) → Coro StreamWriter (Unit {0})
drain_next [] w = (ok tt, w)
drain_next (none ∷ ds) w = (ok tt, record w { drains = ds })
drain_next (some e ∷ ds) w = (err e, record w { drains = ds })

-- `writer.drain()`: on a transport that the proxy has closed, "Connection lost".
unfoldable pub drain : Coro StreamWriter (Unit {0})
unfolding drain_next
drain w = if w.closing then (err connection_reset, w) else drain_next w.drains w

-- `writer.close()` and `writer.wait_closed()`, what they raise suppressed.
unfoldable pub close : StreamWriter → StreamWriter
close w = record w { closing = true }
