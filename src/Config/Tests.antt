-- ===== src/Config/Tests.antt =====
-- `from_yaml` on concrete values.
use nginx_remake_v.Prelude.{ℕ, Option, none, some, ltb, leb, eqb, codes, number_keys, text_keys}
use nginx_remake_v.Python.{ℤ, pos, negsuc}
use nginx_remake_v.Python.Samples.{ascii}
use nginx_remake_v.Config.{
  accepted, Floats, Value, whole, text, items, mapping, no_more, item, empty, entry,
}
use nginx_remake_v.Config.FromYaml.{from_yaml}
use nginx_remake_v.Config.Valid.{Accepts}
use nginx_remake_v.Config.Accepted.{IsValid, from_yaml-IsValid}

-- Whole numbers in the place of floats.
abbrev of_whole : ℤ → Option ℕ
of_whole (pos n) = some n
of_whole (negsuc n) = none

abbrev wholes : Floats ℕ
wholes = record {
  of_whole = of_whole;
  parse = λ s. none;
  truncate = λ n. accepted (pos n);
  is_zero = λ n. eqb n 0;
  at_most = leb;
  below = ltb;
  at_least = λ m n. leb n m;
  above = λ m n. ltb n m;
}

abbrev with_port : ℕ → Value ℕ
with_port n = mapping (
    entry (text (codes "upstreams"))
      (items (
        item
          (mapping (
            entry (text (codes "host")) (text (codes "a"))
              (entry (text (codes "port")) (whole (pos n)) empty)))
          no_more))
      (entry (text (codes "retry"))
        (mapping (entry (text (codes "max_retries")) (text (codes "0")) empty)) empty))

from_yaml-IsValid_example :
    Accepts (IsValid ascii wholes) (from_yaml ascii wholes (some (with_port 80)))
from_yaml-IsValid_example = from_yaml-IsValid ascii wholes (some (with_port 80))
