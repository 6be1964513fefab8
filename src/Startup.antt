-- ===== src/Startup.antt =====
-- The start: `_parse_level` of proxy/logger.py, and the address to listen on in proxy/main.py.
mod Tests
use nginx_remake_v.Prelude.{
  ℕ, Bool, true, false, Option, none, some, List, [], ◌∷◌, ◌++◌, eqb, if◌then◌else◌, text_eq,
  text_eq_iff, ap, ◌∙◌, Text, codes, ◌≡◌, refl, ◌⊎◌, inl, inr, ◌&&◌, ◌||◌, Bool-cases, arith, ◌≢◌,
  number_keys, text_keys,
}
use nginx_remake_v.Prelude.Dict.{Dict, lookup}
use nginx_remake_v.Python.{Unicode, ℤ, int}
use nginx_remake_v.Config.Accepted.{levels, among}

-- The numbers of the library logging.
abbrev pub level_map : Dict Text ℕ
level_map =
    (codes "debug", 10)
    ∷ (codes "info", 20)
    ∷ (codes "warning", 30)
    ∷ (codes "error", 40)
    ∷ (codes "critical", 50)
    ∷ []

-- `_parse_level`; `none` is its `ValueError`.
unfoldable pub parse_level : Unicode → Text → Option ℕ
parse_level u level = lookup (u.lower level) level_map

-- `listen.split(":")`
unfoldable pub split_colons : Text → List Text
split_colons [] = [] ∷ []
split_colons (c ∷ s) = let rest = split_colons s in if eqb c 58 then [] ∷ rest else onto c rest
  where
    onto : ℕ → List Text → List Text
    onto c [] = (c ∷ []) ∷ []
    onto c (l ∷ ls) = (c ∷ l) ∷ ls

-- The two parts of the listen, and the port as a number; `none` is a `ValueError`.
unfoldable pub listen_parts : Unicode → List Text → Option (Text × ℤ)
listen_parts u (host ∷ port ∷ []) = elim (int u port) [ none ↦ none | some n ↦ some (host, n) ]
listen_parts u [] = none
listen_parts u (host ∷ []) = none
listen_parts u (host ∷ port ∷ more ∷ parts) = none

unfoldable pub listen_address : Unicode → Text → Option (Text × ℤ)
listen_address u listen = listen_parts u (split_colons listen)

among_either :
    (s t : Text) (ts : List Text) → among s (t ∷ ts) ≡ true → (s ≡ t) ⊎ (among s ts ≡ true)
among_either s t ts h = elim (Bool-cases (text_eq s t)) [
  | inl y ↦ inl ((text_eq_iff s t).0 y)
  | inr n ↦ inr (ground (arith, h, n))
]

-- A lower-casing that is right on the levels.
pub record LowersLevels (u : Unicode) : Type 0 where
  pub debug : u.lower (codes "DEBUG") ≡ codes "debug"
  pub info : u.lower (codes "INFO") ≡ codes "info"
  pub warning : u.lower (codes "WARNING") ≡ codes "warning"
  pub error : u.lower (codes "ERROR") ≡ codes "error"
  pub critical : u.lower (codes "CRITICAL") ≡ codes "critical"

-- Every level that `from_yaml` accepts is parsed.
pub parse_level-levels :
    (u : Unicode) (s : Text)
    → LowersLevels u
    → among s levels ≡ true
    → (n : ℕ) × (parse_level u s ≡ some n)
unfolding parse_level
parse_level-levels u s l known =
    elim (among_either s (codes "DEBUG")
      (codes "INFO" ∷ codes "WARNING" ∷ codes "ERROR" ∷ codes "CRITICAL" ∷ []) known) [
        | inl e ↦ (10, at e l.debug)
        | inr k1 ↦
            elim (among_either s (codes "INFO")
              (codes "WARNING" ∷ codes "ERROR" ∷ codes "CRITICAL" ∷ []) k1) [
                | inl e ↦ (20, at e l.info)
                | inr k2 ↦
                    elim (among_either s (codes "WARNING") (codes "ERROR" ∷ codes "CRITICAL" ∷ [])
                      k2) [
                        | inl e ↦ (30, at e l.warning)
                        | inr k3 ↦
                            elim (among_either s (codes "ERROR") (codes "CRITICAL" ∷ []) k3) [
                              | inl e ↦ (40, at e l.error)
                              | inr k4 ↦ elim (among_either s (codes "CRITICAL") [] k4) [
                                | inl e ↦ (50, at e l.critical)
                                | inr k5 ↦ absurd (none_left k5)
                              ]
                            ]
                      ]
              ]
      ]
  where
    at : {t r : Text} → s ≡ t → u.lower t ≡ r → lookup (u.lower s) level_map ≡ lookup r level_map
    at e f = ap (λ (x : Text). lookup x level_map) (ap u.lower e ∙ f)

    none_left : false ≢ true
    none_left e = cc
