-- ===== src/Python/Samples.antt =====
-- The tables of ASCII alone, for examples.
use nginx_remake_v.Prelude.{
  ◌+◌, ◌-◌, false, ◌&&◌, none, [], ◌∷◌, leb, if◌then◌else◌, Text, number_keys, text_keys,
}
use nginx_remake_v.Python.{Unicode}

abbrev lower_ascii : Text → Text
lower_ascii [] = []
lower_ascii (c ∷ s) = (if leb 65 c && leb c 90 then c + 32 else c) ∷ lower_ascii s

abbrev upper_ascii : Text → Text
upper_ascii [] = []
upper_ascii (c ∷ s) = (if leb 97 c && leb c 122 then c - 32 else c) ∷ upper_ascii s

abbrev pub ascii : Unicode
ascii = record { lower = lower_ascii; upper = upper_ascii; decimal = λ c. none; digit = λ c. false }
