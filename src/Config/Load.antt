-- ===== src/Config/Load.antt =====
-- `load_dataclass` and `ProxyConfig.from_yaml` of proxy/config.py.
use nginx_remake_v.Prelude.{
  ℕ, Bool, true, false, not, Option, none, some, List, [], ◌∷◌, ltb, leb, eqb, if◌then◌else◌, Text,
  text_eq, number_keys, text_keys,
}
use nginx_remake_v.Python.{Unicode, ℤ, pos, negsuc, int}
use nginx_remake_v.Config.{
  ConfigError, type_error, value_error, overflow_error, Checked, accepted, refused, ◌>>=◌, Floats,
  Value, null, flag, whole, float, text, items, mapping, other, no_more, item, Entries, empty,
  entry, Kind, int_kind, float_kind, bool_kind, Loaded, int_value, float_value, bool_value, Field,
  Object,
}

unfoldable pub or_value_error : {A : Type 0} → Option A → Checked A
or_value_error none = refused value_error
or_value_error (some a) = accepted a

unfoldable pub or_overflow : {A : Type 0} → Option A → Checked A
or_overflow none = refused overflow_error
or_overflow (some a) = accepted a

-- `val <= n` and `val < n` of whole numbers.
abbrev pub whole_at_most : ℤ → ℕ → Bool
whole_at_most (pos m) n = leb m n
whole_at_most (negsuc m) n = true

abbrev pub whole_below : ℤ → ℕ → Bool
whole_below (pos m) n = ltb m n
whole_below (negsuc m) n = true

abbrev pub of_flag : Bool → ℤ
of_flag b = pos (if b then 1 else 0)

-- `if "gt" in meta and ...: raise ValueError(...)`, where `bad` tests against the bound.
unfoldable pub refuse_if : Option ℕ → (ℕ → Bool) → Checked (Unit {0})
refuse_if none bad = accepted tt
refuse_if (some n) bad = if bad n then refused value_error else accepted tt

module _ {F : Type 0} where
  -- `data.get(name)`: of the entries, that whose key is this text; YAML's keys do not repeat.
  unfoldable pub get : Text → Entries F → Option (Value F)
  get name empty = none
  get name (entry (text k) v d) = let rest = get name d in if text_eq k name then some v else rest
  get name (entry null v d) = get name d
  get name (entry (flag b) v d) = get name d
  get name (entry (whole n) v d) = get name d
  get name (entry (float f) v d) = get name d
  get name (entry (items xs) v d) = get name d
  get name (entry (mapping m) v d) = get name d
  get name (entry (other b) v d) = get name d

  -- `data.get(name, default)`
  unfoldable pub get_or : Text → Value F → Entries F → Value F
  get_or name default d = elim (get name d) [ none ↦ default | some v ↦ v ]

  -- The entries of an object; anything else raises the error.
  unfoldable pub entries_of : ConfigError → Value F → Checked (Entries F)
  entries_of e (mapping d) = accepted d
  entries_of e null = refused e
  entries_of e (flag b) = refused e
  entries_of e (whole n) = refused e
  entries_of e (float f) = refused e
  entries_of e (text s) = refused e
  entries_of e (items vs) = refused e
  entries_of e (other b) = refused e

  module _ (u : Unicode) (floats : Floats F) where
    -- `bool(raw_val)`
    unfoldable pub truth : Value F → Bool
    truth null = false
    truth (flag b) = b
    truth (whole (pos n)) = not (eqb n 0)
    truth (whole (negsuc n)) = true
    truth (float f) = not (floats.is_zero f)
    truth (text []) = false
    truth (text (c ∷ s)) = true
    truth (items no_more) = false
    truth (items (item v vs)) = true
    truth (mapping empty) = false
    truth (mapping (entry k v d)) = true
    truth (other b) = b

    -- `int(raw_val)`
    unfoldable pub to_int : Value F → Checked ℤ
    to_int null = refused type_error
    to_int (flag b) = accepted (of_flag b)
    to_int (whole n) = accepted n
    to_int (float f) = floats.truncate f
    to_int (text s) = or_value_error (int u s)
    to_int (items vs) = refused type_error
    to_int (mapping d) = refused type_error
    to_int (other b) = refused type_error

    -- `float(raw_val)`
    unfoldable pub to_float : Value F → Checked F
    to_float null = refused type_error
    to_float (flag b) = or_overflow (floats.of_whole (of_flag b))
    to_float (whole n) = or_overflow (floats.of_whole n)
    to_float (float f) = accepted f
    to_float (text s) = or_value_error (floats.parse s)
    to_float (items vs) = refused type_error
    to_float (mapping d) = refused type_error
    to_float (other b) = refused type_error

    unfoldable pub convert : Kind → Value F → Checked (Loaded F)
    convert int_kind v = do n ← to_int v; accepted (int_value n)
    convert float_kind v = do f ← to_float v; accepted (float_value f)
    convert bool_kind v = accepted (bool_value (truth v))

    abbrev pub at_most : Loaded F → ℕ → Bool
    at_most (int_value v) n = whole_at_most v n
    at_most (float_value f) n = floats.at_most f n
    at_most (bool_value b) n = whole_at_most (of_flag b) n

    abbrev pub below : Loaded F → ℕ → Bool
    below (int_value v) n = whole_below v n
    below (float_value f) n = floats.below f n
    below (bool_value b) n = whole_below (of_flag b) n

    abbrev pub at_least : Loaded F → ℕ → Bool
    at_least (int_value v) n = not (whole_below v n)
    at_least (float_value f) n = floats.at_least f n
    at_least (bool_value b) n = not (whole_below (of_flag b) n)

    abbrev pub above : Loaded F → ℕ → Bool
    above (int_value v) n = not (whole_at_most v n)
    above (float_value f) n = floats.above f n
    above (bool_value b) n = not (whole_at_most (of_flag b) n)

    unfoldable pub load_field : Field F → Entries F → Checked (Loaded F)
    load_field f d = do
      val ← convert f.kind (get_or f.name f.default d)
      _ ← refuse_if f.gt (at_most val)
      _ ← refuse_if f.ge (below val)
      _ ← refuse_if f.lt (at_least val)
      _ ← refuse_if f.le (above val)
      accepted val

    unfoldable pub load_fields : List (Field F) → Entries F → Checked (Object F)
    load_fields [] d = accepted []
    load_fields (f ∷ fs) d = do
      val ← load_field f d
      kwargs ← load_fields fs d
      accepted ((f.name, val) ∷ kwargs)

    unfoldable pub load_dataclass : List (Field F) → Value F → Checked (Object F)
    load_dataclass fs data' = do d ← entries_of type_error data'; load_fields fs d
