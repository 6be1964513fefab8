-- ===== src/MessageParser.antt =====
-- `HttpMessageParser` of proxy/http_parser.py: how the headers' bytes are cut out of those fed.
--
-- `build` stands for the decoding of the headers' bytes and for `_build_metadata`, which a subclass
-- defines.
pub mod Framing
mod Tests
use nginx_remake_v.Prelude.{
  ℕ, zero, suc, ◌+◌, ◌-◌, ◌*◌, ◌/◌, ◌%◌, ◌≤◌, ◌<◌, min, max, ◌≡◌, refl, sym, ap, ◌∙◌, subst, ◌≢◌,
  ◌↔◌, ◌⊎◌, inl, inr, Bool, true, false, not, ◌&&◌, ◌||◌, Option, none, some, List, [], ◌∷◌, ◌++◌,
  map, append-nil, append_assoc, arith, ap₂, ltb, leb, eqb, if◌then◌else◌, ltb→lt, leb→le, eqb_iff,
  Bool-cases, Option-cases, length, get_elem?, take, drop, length-append, take-append-drop,
  length-take, length-drop, Text, Bytes, codes, text_eq, text_eq_iff, Key, ◌==◌, number_keys,
  text_keys,
}
use nginx_remake_v.Prelude.Dict.{
  Dict, lookup, insert, lookup-insert, lookup-insert_self, lookup-insert_ne,
}
use nginx_remake_v.Exec.{Result, ok, err, spinning}
use nginx_remake_v.BufferedReader.{join}

pub record HttpMessageParser : Type 0 where
  pub buffer : Bytes
  pub headers_done : Bool

-- `HttpMessageParser()`
unfoldable pub message_parser : HttpMessageParser
message_parser = record { buffer = []; headers_done = false }

-- What follows a prefix.
unfoldable pub strip : Bytes → Bytes → Option Bytes
strip [] s = some s
strip (d ∷ ds) [] = none
strip (d ∷ ds) (c ∷ s) = if eqb d c then strip ds s else none

-- `find` and the slices around what it found: what stands before the first occurrence, and behind it.
unfoldable pub split_first : Bytes → Bytes → Option (Bytes × Bytes)
split_first d [] = none
split_first d (c ∷ s) =
    let rest = split_first d s in
    elim (strip d (c ∷ s)) [
      | some a ↦ some ([], a)
      | none ↦ elim rest [ none ↦ none | some (b, a) ↦ some (c ∷ b, a) ]
    ]

abbrev pub delimiter : Bytes
delimiter = codes "\r\n\r\n"

module _ {M : Type 0} (build : Bytes → Result M) where
  -- The metadata beside the rest of the body.
  abbrev pub with_rest : Bytes → Result M → Result (Option M × Bytes)
  with_rest a (ok m) = ok (some m, a)
  with_rest a (err e) = err e
  with_rest a spinning = spinning

  -- `feed(chunk)` once the buffer was extended.
  unfoldable pub cut :
      Bytes → Option (Bytes × Bytes) → Result (Option M × Bytes) × HttpMessageParser
  cut s none = (ok (none, []), record { buffer = s; headers_done = false })
  cut s (some (b, a)) = (with_rest a (build b), record { buffer = []; headers_done = true })

  unfoldable pub feed : HttpMessageParser → Bytes → Result (Option M × Bytes) × HttpMessageParser
  unfolding cut
  feed p chunk =
      if p.headers_done
      then (ok (none, chunk), p)
      else cut (p.buffer ++ chunk) (split_first delimiter (p.buffer ++ chunk))
