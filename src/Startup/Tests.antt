-- ===== src/Startup/Tests.antt =====
-- The start on concrete values.
use nginx_remake_v.Prelude.{◌≡◌, refl, none, codes}
use nginx_remake_v.Python.Samples.{ascii}
use nginx_remake_v.Startup.{LowersLevels, split_colons, listen_parts, listen_address}

ascii-LowersLevels : LowersLevels ascii
ascii-LowersLevels = record {
  debug = refl;
  info = refl;
  warning = refl;
  error = refl;
  critical = refl;
}

-- An address of IPv6 has too many colons.
two_colons : listen_address ascii (codes "::1") ≡ none
unfolding listen_address listen_parts split_colons
two_colons = refl
