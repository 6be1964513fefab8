-- ===== src/Config/Valid.antt =====
-- What an accepted configuration is known to be.
use nginx_remake_v.Prelude.{
  ℕ, ◌<◌, ◌≤◌, ◌≡◌, refl, Bool, true, false, not, arith, Option, none, some, List, [], ◌∷◌,
  if◌then◌else◌, number_keys, text_keys,
}
use nginx_remake_v.Python.{Unicode, ℤ, pos, negsuc}
use nginx_remake_v.Config.{
  type_error, value_error, Checked, accepted, refused, ◌>>=◌, Floats, Value, Entries, Kind,
  int_kind, float_kind, bool_kind, Loaded, int_value, float_value, bool_value, Field, Object,
}
use nginx_remake_v.Config.Load.{
  get_or, refuse_if, convert, to_int, to_float, whole_at_most, whole_below, of_flag, at_most, below,
  at_least, above, load_field, load_fields, load_dataclass, entries_of,
}

-- What is accepted has `P`.
abbrev pub Accepts : {A : Type 0} → (A → Type 0) → Checked A → Type 0
Accepts P (accepted a) = P a
Accepts P (refused e) = Unit {0}

pub Accepts-bind :
    {A B : Type 0} (Q : A → Type 0) (P : B → Type 0) (x : Checked A) (rest : A → Checked B)
    → Accepts Q x
    → ((a : A) → Q a → Accepts P (rest a))
    → Accepts P (x >>= rest)
Accepts-bind Q P (accepted a) rest q go = go a q
Accepts-bind Q P (refused e) rest q go = tt

pub Accepts-any : {A : Type 0} (x : Checked A) → Accepts (λ _. Unit {0}) x
Accepts-any (accepted a) = tt
Accepts-any (refused e) = tt

-- The kind of a loaded value.
abbrev pub kind_of : {F : Type 0} → Loaded F → Kind
kind_of (int_value n) = int_kind
kind_of (float_value f) = float_kind
kind_of (bool_value b) = bool_kind

-- A whole number beside a bound.
abbrev pub IsOver : ℤ → ℕ → Type 0
IsOver (pos m) n = n < m
IsOver (negsuc m) n = ⊥

abbrev pub IsFrom : ℤ → ℕ → Type 0
IsFrom (pos m) n = n ≤ m
IsFrom (negsuc m) n = ⊥

abbrev pub IsUnder : ℤ → ℕ → Type 0
IsUnder (pos m) n = m < n
IsUnder (negsuc m) n = Unit {0}

abbrev pub IsUpTo : ℤ → ℕ → Type 0
IsUpTo (pos m) n = m ≤ n
IsUpTo (negsuc m) n = Unit {0}

at_most-IsOver : (v : ℤ) (n : ℕ) → whole_at_most v n ≡ false → IsOver v n
at_most-IsOver (pos m) n e = ground arith
at_most-IsOver (negsuc m) n e = ground arith

below-IsFrom : (v : ℤ) (n : ℕ) → whole_below v n ≡ false → IsFrom v n
below-IsFrom (pos m) n e = ground arith
below-IsFrom (negsuc m) n e = ground arith

at_least-IsUnder : (v : ℤ) (n : ℕ) → not (whole_below v n) ≡ false → IsUnder v n
at_least-IsUnder (pos m) n e = ground arith
at_least-IsUnder (negsuc m) n e = tt

above-IsUpTo : (v : ℤ) (n : ℕ) → not (whole_at_most v n) ≡ false → IsUpTo v n
above-IsUpTo (pos m) n e = ground arith
above-IsUpTo (negsuc m) n e = tt

-- `P` of the bound, where there is one.
abbrev pub Meets : Option ℕ → (ℕ → Type 0) → Type 0
Meets none P = Unit {0}
Meets (some n) P = P n

refuse_if-Meets :
    (o : Option ℕ) (bad : ℕ → Bool) (P : ℕ → Type 0)
    → ((n : ℕ) → bad n ≡ false → P n)
    → Accepts (λ _. Meets o P) (refuse_if o bad)
unfolding refuse_if
refuse_if-Meets none bad P good = tt
refuse_if-Meets (some n) bad P good = go (bad n) refl
  where
    go :
        (b : Bool) → bad n ≡ b → Accepts (λ _. P n) (if b then refused value_error else accepted tt)
    go true e = tt
    go false e = good n e

module _ {F : Type 0} (u : Unicode) (floats : Floats F) where
  -- A value on the right side of a bound: of a float, that its own test does not refuse it.
  abbrev pub Over : Loaded F → ℕ → Type 0
  Over (int_value v) n = IsOver v n
  Over (float_value f) n = floats.at_most f n ≡ false
  Over (bool_value b) n = IsOver (of_flag b) n

  abbrev pub From : Loaded F → ℕ → Type 0
  From (int_value v) n = IsFrom v n
  From (float_value f) n = floats.below f n ≡ false
  From (bool_value b) n = IsFrom (of_flag b) n

  abbrev pub Under : Loaded F → ℕ → Type 0
  Under (int_value v) n = IsUnder v n
  Under (float_value f) n = floats.at_least f n ≡ false
  Under (bool_value b) n = IsUnder (of_flag b) n

  abbrev pub UpTo : Loaded F → ℕ → Type 0
  UpTo (int_value v) n = IsUpTo v n
  UpTo (float_value f) n = floats.above f n ≡ false
  UpTo (bool_value b) n = IsUpTo (of_flag b) n

  at_most-Over : (v : Loaded F) (n : ℕ) → at_most u floats v n ≡ false → Over v n
  at_most-Over (int_value v) n e = at_most-IsOver v n e
  at_most-Over (float_value f) n e = e
  at_most-Over (bool_value b) n e = at_most-IsOver (of_flag b) n e

  below-From : (v : Loaded F) (n : ℕ) → below u floats v n ≡ false → From v n
  below-From (int_value v) n e = below-IsFrom v n e
  below-From (float_value f) n e = e
  below-From (bool_value b) n e = below-IsFrom (of_flag b) n e

  at_least-Under : (v : Loaded F) (n : ℕ) → at_least u floats v n ≡ false → Under v n
  at_least-Under (int_value v) n e = at_least-IsUnder v n e
  at_least-Under (float_value f) n e = e
  at_least-Under (bool_value b) n e = at_least-IsUnder (of_flag b) n e

  above-UpTo : (v : Loaded F) (n : ℕ) → above u floats v n ≡ false → UpTo v n
  above-UpTo (int_value v) n e = above-IsUpTo v n e
  above-UpTo (float_value f) n e = e
  above-UpTo (bool_value b) n e = above-IsUpTo (of_flag b) n e

  -- A value of the field's kind that its bounds let through.
  pub record Within (f : Field F) (v : Loaded F) : Type 0 where
    pub same_kind : kind_of v ≡ f.kind
    pub above_gt : Meets f.gt (Over v)
    pub from_ge : Meets f.ge (From v)
    pub below_lt : Meets f.lt (Under v)
    pub to_le : Meets f.le (UpTo v)

  -- The fields of a class, each with its name and a value that its bounds let through.
  abbrev pub Loads : List (Field F) → Object F → Type 0
  Loads [] [] = Unit {0}
  Loads [] (kv ∷ d) = ⊥
  Loads (f ∷ fs) [] = ⊥
  Loads (f ∷ fs) ((k, v) ∷ d) = (k ≡ f.name) × Within f v × Loads fs d

  convert_kind :
      (k : Kind) (v : Value F) → Accepts (λ (x : Loaded F). kind_of x ≡ k) (convert u floats k v)
  unfolding convert
  convert_kind int_kind v =
      Accepts-bind (λ _. Unit {0}) (λ (x : Loaded F). kind_of x ≡ int_kind) (to_int u floats v)
        (λ n. accepted (int_value n)) (Accepts-any (to_int u floats v)) (λ n _. refl)
  convert_kind float_kind v =
      Accepts-bind (λ _. Unit {0}) (λ (x : Loaded F). kind_of x ≡ float_kind) (to_float u floats v)
        (λ f. accepted (float_value f)) (Accepts-any (to_float u floats v)) (λ f _. refl)
  convert_kind bool_kind v = refl

  load_field-Within : (f : Field F) (d : Entries F) → Accepts (Within f) (load_field u floats f d)
  unfolding load_field
  load_field-Within f d =
      Accepts-bind (λ (v : Loaded F). kind_of v ≡ f.kind) (Within f)
        (convert u floats f.kind (get_or f.name f.default d)) _
        (convert_kind f.kind (get_or f.name f.default d))
        (λ v kind.
          Accepts-bind (λ _. Meets f.gt (Over v)) (Within f) (refuse_if f.gt (at_most u floats v)) _
            (refuse_if-Meets f.gt (at_most u floats v) (Over v) (at_most-Over v))
            (λ _ gt.
              Accepts-bind (λ _. Meets f.ge (From v)) (Within f) (refuse_if f.ge (below u floats v))
                _ (refuse_if-Meets f.ge (below u floats v) (From v) (below-From v))
                (λ _ ge.
                  Accepts-bind (λ _. Meets f.lt (Under v)) (Within f)
                    (refuse_if f.lt (at_least u floats v)) _
                    (refuse_if-Meets f.lt (at_least u floats v) (Under v) (at_least-Under v))
                    (λ _ lt.
                      Accepts-bind (λ _. Meets f.le (UpTo v)) (Within f)
                        (refuse_if f.le (above u floats v)) (λ _. accepted v)
                        (refuse_if-Meets f.le (above u floats v) (UpTo v) (above-UpTo v))
                        (λ _ le. record {
                          same_kind = kind;
                          above_gt = gt;
                          from_ge = ge;
                          below_lt = lt;
                          to_le = le;
                        })))))

  load_fields-Loads :
      (fs : List (Field F)) (d : Entries F) → Accepts (Loads fs) (load_fields u floats fs d)
  unfolding load_fields
  load_fields-Loads [] d = tt
  load_fields-Loads (f ∷ fs) d =
      Accepts-bind (Within f) (Loads (f ∷ fs)) (load_field u floats f d) _ (load_field-Within f d)
        (λ v w.
          Accepts-bind (Loads fs) (Loads (f ∷ fs)) (load_fields u floats fs d)
            (λ kwargs. accepted ((f.name, v) ∷ kwargs)) (load_fields-Loads fs d)
            (λ o l. (refl, w, l)))

  pub load_dataclass-Loads :
      (fs : List (Field F)) (v : Value F) → Accepts (Loads fs) (load_dataclass u floats fs v)
  unfolding load_dataclass
  load_dataclass-Loads fs v =
      Accepts-bind (λ _. Unit {0}) (Loads fs) (entries_of type_error v) (load_fields u floats fs)
        (Accepts-any (entries_of type_error v)) (λ d _. load_fields-Loads fs d)
