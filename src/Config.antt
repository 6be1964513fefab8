-- ===== src/Config.antt =====
-- proxy/config.py: `load_dataclass` and `ProxyConfig.from_yaml`, with the classes that they load.
--
-- What yaml.safe_load gives is a Value; its binaries are left out. Floats are a type with the functions
-- that the code uses, the record Floats.
pub mod Load
pub mod FromYaml
pub mod Valid
pub mod Accepted
mod Tests
use nginx_remake_v.Prelude.{
  ℕ, zero, suc, ◌+◌, ◌-◌, ◌*◌, ◌/◌, ◌%◌, ◌^◌, ◌≤◌, ◌<◌, min, max, ◌≡◌, refl, sym, ap, ◌∙◌, subst,
  ◌≢◌, ◌↔◌, ◌⊎◌, inl, inr, Bool, true, false, not, ◌&&◌, ◌||◌, Option, none, some, List, [], ◌∷◌,
  ◌++◌, map, append-nil, append_assoc, arith, ap₂, ltb, leb, eqb, if◌then◌else◌, ltb→lt, leb→le,
  eqb_iff, Bool-cases, Option-cases, length, get_elem?, take, drop, length-append, take-append-drop,
  length-take, length-drop, Text, Bytes, codes, text_eq, text_eq_iff, Key, ◌==◌, number_keys,
  text_keys,
}
use nginx_remake_v.Prelude.Dict.{
  Dict, lookup, insert, lookup-insert, lookup-insert_self, lookup-insert_ne,
}
use Prim.Native.String.{String}
use nginx_remake_v.Python.{Unicode, ℤ, pos, negsuc, int}
use nginx_remake_v.UpstreamPool.{Upstream}

-- An exception of the loading, or its value.
pub data ConfigError : Type 0 where
  file_not_found : ConfigError
  type_error : ConfigError
  value_error : ConfigError
  overflow_error : ConfigError
  attribute_error : ConfigError

pub data Checked (A : Type 0) : Type 0 where
  accepted : A → Checked A
  refused : ConfigError → Checked A

infixl 5 ◌>>=◌
abbrev pub ◌>>=◌ : {A B : Type 0} → Checked A → (A → Checked B) → Checked B
accepted a >>= rest = rest a
refused e >>= rest = refused e

-- `float(n)`, which may overflow, `float(s)`, `int(f)`, and the tests `f == 0`, `f <= n`, `f < n`,
-- `f >= n` and `f > n`, none of which a NaN passes.
pub record Floats (F : Type 0) : Type 0 where
  pub of_whole : ℤ → Option F
  pub parse : Text → Option F
  pub truncate : F → Checked ℤ
  pub is_zero : F → Bool
  pub at_most : F → ℕ → Bool
  pub below : F → ℕ → Bool
  pub at_least : F → ℕ → Bool
  pub above : F → ℕ → Bool

-- A value of YAML; `other` is a date or a set, with its truth.
mutual
  pub data Value (F : Type 0) : Type 0 where
    null : Value F
    flag : Bool → Value F
    whole : ℤ → Value F
    float : F → Value F
    text : Text → Value F
    items : Values F → Value F
    mapping : Entries F → Value F
    other : Bool → Value F

  pub data Values (F : Type 0) : Type 0 where
    no_more : Values F
    item : Value F → Values F → Values F

  pub data Entries (F : Type 0) : Type 0 where
    empty : Entries F
    entry : Value F → Value F → Entries F → Entries F

-- The types of the fields that `load_dataclass` converts to, and a value of one of them.
pub data Kind : Type 0 where
  int_kind : Kind
  float_kind : Kind
  bool_kind : Kind

pub data Loaded (F : Type 0) : Type 0 where
  int_value : ℤ → Loaded F
  float_value : F → Loaded F
  bool_value : Bool → Loaded F

-- A field of a dataclass with its default and its metadata.
pub record Field (F : Type 0) : Type 0 where
  pub name : Text
  pub kind : Kind
  pub default : Value F
  pub gt : Option ℕ
  pub ge : Option ℕ
  pub lt : Option ℕ
  pub le : Option ℕ

-- The keyword arguments of an object.
abbrev pub Object : Type 0 → Type 0
Object F = Dict Text (Loaded F)

module _ {F : Type 0} where
  -- `field(default=..., metadata={"gt": 0})`; `float` makes 30.0 of a default of 30.
  abbrev pub positive_field : String → Kind → ℕ → Field F
  positive_field name kind n = record {
    name = codes name;
    kind = kind;
    default = whole (pos n);
    gt = some 0;
    ge = none;
    lt = none;
    le = none;
  }

  abbrev pub natural_field : String → ℕ → Field F
  natural_field name n = record {
    name = codes name;
    kind = int_kind;
    default = whole (pos n);
    gt = none;
    ge = some 0;
    lt = none;
    le = none;
  }

  abbrev pub flag_field : String → Bool → Field F
  flag_field name b = record {
    name = codes name;
    kind = bool_kind;
    default = flag b;
    gt = none;
    ge = none;
    lt = none;
    le = none;
  }

  abbrev pub timeouts_fields : List (Field F)
  timeouts_fields =
      positive_field "connect_ms" int_kind 1000
      ∷ positive_field "read_ms" int_kind 15000
      ∷ positive_field "write_ms" int_kind 15000
      ∷ positive_field "total_ms" int_kind 30000
      ∷ []

  abbrev pub limits_fields : List (Field F)
  limits_fields =
      positive_field "max_client_conns" int_kind 1000
      ∷ positive_field "max_conns_per_upstream" int_kind 100
      ∷ []

  abbrev pub keep_alive_fields : List (Field F)
  keep_alive_fields =
      flag_field "enabled" true
      ∷ positive_field "timeout_ms" int_kind 60000
      ∷ positive_field "max_requests" int_kind 200
      ∷ []

  abbrev pub upstream_keepalive_fields : List (Field F)
  upstream_keepalive_fields =
      positive_field "max_idle" int_kind 50
      ∷ positive_field "idle_timeout_sec" float_kind 30
      ∷ positive_field "max_requests" int_kind 200
      ∷ []

  abbrev pub circuit_breaker_fields : List (Field F)
  circuit_breaker_fields =
      positive_field "failure_threshold" int_kind 10
      ∷ positive_field "cooldown_sec" float_kind 30
      ∷ []

  abbrev pub retry_fields : List (Field F)
  retry_fields =
      natural_field "max_retries" 2
      ∷ natural_field "base_delay_ms" 100
      ∷ natural_field "max_delay_ms" 1000
      ∷ []

  abbrev pub rate_limit_fields : List (Field F)
  rate_limit_fields =
      flag_field "enabled" false
      ∷ positive_field "rate" float_kind 100
      ∷ positive_field "burst" int_kind 200
      ∷ flag_field "per_client" false
      ∷ []

pub record LoggingConfig (F : Type 0) : Type 0 where
  pub level : Text
  pub file_path : Option (Value F)
  pub format : Value F

-- `rate_limiter` is the configuration that one is made of, where one is made.
pub record ProxyConfig (F : Type 0) : Type 0 where
  pub listen : Text
  pub upstreams : List Upstream
  pub timeouts : Object F
  pub limits : Object F
  pub logging : LoggingConfig F
  pub keep_alive : Object F
  pub upstream_keepalive : Object F
  pub circuit_breaker : Object F
  pub retry : Object F
  pub rate_limit : Object F
  pub rate_limiter : Option (Object F)
