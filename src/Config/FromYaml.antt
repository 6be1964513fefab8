-- ===== src/Config/FromYaml.antt =====
-- `ProxyConfig.from_yaml` of proxy/config.py.
use nginx_remake_v.Prelude.{
  ℕ, Bool, false, ◌&&◌, ◌||◌, Option, none, some, List, [], ◌∷◌, leb, eqb, if◌then◌else◌, Text,
  codes, text_eq, number_keys, text_keys,
}
use nginx_remake_v.Prelude.Dict.{lookup}
use nginx_remake_v.Python.{Unicode, pos, negsuc}
use nginx_remake_v.UpstreamPool.{Upstream}
use nginx_remake_v.Config.{
  file_not_found, type_error, value_error, attribute_error, Checked, accepted, refused, ◌>>=◌,
  Floats, Value, null, flag, whole, float, text, items, mapping, other, Values, no_more, item,
  Entries, empty, int_value, float_value, bool_value, Field, Object, timeouts_fields, limits_fields,
  keep_alive_fields, upstream_keepalive_fields, circuit_breaker_fields, retry_fields,
  rate_limit_fields, LoggingConfig, ProxyConfig,
}
use nginx_remake_v.Config.Load.{get, get_or, truth, entries_of, load_dataclass}

-- `":" in listen`
unfoldable pub has_colon : Text → Bool
has_colon [] = false
has_colon (c ∷ s) = eqb c 58 || has_colon s

unfoldable pub checked_listen : Text → Checked Text
checked_listen s = if has_colon s then accepted s else refused value_error

unfoldable pub checked_port : ℕ → Checked ℕ
checked_port n = if leb 1 n && leb n 65535 then accepted n else refused value_error

-- An upper-case level, where WARN stands for WARNING.
unfoldable pub checked_level : Text → Checked Text
checked_level s =
    if text_eq s (codes "DEBUG")
    then accepted s
    else if text_eq s (codes "INFO")
    then accepted s
    else if text_eq s (codes "WARNING")
    then accepted s
    else if text_eq s (codes "ERROR")
    then accepted s
    else if text_eq s (codes "CRITICAL")
    then accepted s
    else if text_eq s (codes "WARN")
    then accepted (codes "WARNING")
    else refused value_error

unfoldable pub checked_upstreams : List Upstream → Checked (List Upstream)
checked_upstreams [] = refused value_error
checked_upstreams (u ∷ us) = accepted (u ∷ us)

module _ {F : Type 0} where
  unfoldable pub listen_of : Value F → Checked Text
  listen_of (text s) = checked_listen s
  listen_of null = refused value_error
  listen_of (flag b) = refused value_error
  listen_of (whole n) = refused value_error
  listen_of (float f) = refused value_error
  listen_of (items vs) = refused value_error
  listen_of (mapping d) = refused value_error
  listen_of (other b) = refused value_error

  unfoldable pub host_of : Option (Value F) → Checked Text
  host_of (some (text (c ∷ s))) = accepted (c ∷ s)
  host_of (some (text [])) = refused value_error
  host_of none = refused value_error
  host_of (some null) = refused value_error
  host_of (some (flag b)) = refused value_error
  host_of (some (whole n)) = refused value_error
  host_of (some (float f)) = refused value_error
  host_of (some (items vs)) = refused value_error
  host_of (some (mapping d)) = refused value_error
  host_of (some (other b)) = refused value_error

  -- In Python `True` is an `int`, the number 1.
  unfoldable pub port_of : Option (Value F) → Checked ℕ
  port_of (some (whole (pos n))) = checked_port n
  port_of (some (whole (negsuc n))) = refused value_error
  port_of (some (flag b)) = checked_port (if b then 1 else 0)
  port_of none = refused value_error
  port_of (some null) = refused value_error
  port_of (some (float f)) = refused value_error
  port_of (some (text s)) = refused value_error
  port_of (some (items vs)) = refused value_error
  port_of (some (mapping d)) = refused value_error
  port_of (some (other b)) = refused value_error

  unfoldable pub values_of : Value F → Checked (Values F)
  values_of (items vs) = accepted vs
  values_of null = refused type_error
  values_of (flag b) = refused type_error
  values_of (whole n) = refused type_error
  values_of (float f) = refused type_error
  values_of (text s) = refused type_error
  values_of (mapping d) = refused type_error
  values_of (other b) = refused type_error

  module _ (u : Unicode) (floats : Floats F) where
    -- `str(...).upper()` tested: the `str` of what is no text is never a level.
    unfoldable pub level_of : Value F → Checked Text
    level_of (text s) = checked_level (u.upper s)
    level_of null = refused value_error
    level_of (flag b) = refused value_error
    level_of (whole n) = refused value_error
    level_of (float f) = refused value_error
    level_of (items vs) = refused value_error
    level_of (mapping d) = refused value_error
    level_of (other b) = refused value_error

    unfoldable pub upstream_of : Value F → Checked Upstream
    upstream_of v = do
      d ← entries_of type_error v
      host ← host_of (get (codes "host") d)
      port ← port_of (get (codes "port") d)
      accepted (record {
        host = host;
        port = port;
        tls = truth u floats (get_or (codes "tls") (flag false) d);
      })

    unfoldable pub upstreams_of : Values F → Checked (List Upstream)
    upstreams_of no_more = accepted []
    upstreams_of (item v vs) = do up ← upstream_of v; ups ← upstreams_of vs; accepted (up ∷ ups)

    -- `load_dataclass(cls, data.get(name, {}), name)`
    unfoldable pub section : List (Field F) → Text → Entries F → Checked (Object F)
    section fs name d = load_dataclass u floats fs (get_or name (mapping empty) d)

    abbrev pub default_format : Text
    default_format = codes "[%(asctime)s] [%(levelname)s] [%(name)s] %(message)s"

    unfoldable pub logging_of : Value F → Checked (LoggingConfig F)
    logging_of v = do
      d ← entries_of type_error v
      level ← level_of (get_or (codes "level") (text (codes "INFO")) d)
      accepted (record {
        level = level;
        file_path = get (codes "file_path") d;
        format = get_or (codes "format") (text default_format) d;
      })

    -- `rate_limit.enabled`
    unfoldable pub is_enabled : Object F → Bool
    is_enabled o = elim (lookup (codes "enabled") o) [
      | some (bool_value b) ↦ b
      | some (int_value n) ↦ false
      | some (float_value f) ↦ false
      | none ↦ false
    ]

    -- What is behind the file.
    unfoldable pub of_entries : Entries F → Checked (ProxyConfig F)
    of_entries data' = do
      listen ← listen_of (get_or (codes "listen") (text (codes "127.0.0.1:8080")) data')
      raw ← values_of (get_or (codes "upstreams") (items no_more) data')
      found ← upstreams_of raw
      upstreams ← checked_upstreams found
      timeouts ← section timeouts_fields (codes "timeouts") data'
      limits ← section limits_fields (codes "limits") data'
      keep_alive ← section keep_alive_fields (codes "keep_alive") data'
      upstream_keepalive ← section upstream_keepalive_fields (codes "upstream_keepalive") data'
      circuit_breaker ← section circuit_breaker_fields (codes "circuit_breaker") data'
      retry ← section retry_fields (codes "retry") data'
      rate_limit ← section rate_limit_fields (codes "rate_limit") data'
      logging ← logging_of (get_or (codes "logging") (mapping empty) data')
      accepted (record {
        listen = listen;
        upstreams = upstreams;
        timeouts = timeouts;
        limits = limits;
        logging = logging;
        keep_alive = keep_alive;
        upstream_keepalive = upstream_keepalive;
        circuit_breaker = circuit_breaker;
        retry = retry;
        rate_limit = rate_limit;
        rate_limiter = if is_enabled rate_limit then some rate_limit else none;
      })

    -- `from_yaml`, by what the file holds; `none` where there is no file. What is no object has no `get`.
    unfoldable pub from_yaml : Option (Value F) → Checked (ProxyConfig F)
    from_yaml none = refused file_not_found
    from_yaml (some v) =
        if truth u floats v
        then (do d ← entries_of attribute_error v; of_entries d)
        else of_entries empty
