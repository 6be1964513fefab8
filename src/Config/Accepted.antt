-- ===== src/Config/Accepted.antt =====
-- A configuration that `from_yaml` accepts is one that the proxy can run with.
use nginx_remake_v.Prelude.{
  ℕ, ◌≤◌, ◌≡◌, refl, ◌≢◌, inl, inr, Bool, true, false, ◌||◌, Option, none, some, List, [], ◌∷◌,
  arith, if◌then◌else◌, Bool-cases, Text, codes, text_eq, number_keys, text_keys,
}
use nginx_remake_v.Python.{Unicode, pos, negsuc}
use nginx_remake_v.UpstreamPool.{Upstream}
use nginx_remake_v.Config.{
  type_error, attribute_error, Checked, accepted, ◌>>=◌, Floats, Value, null, flag, whole, float,
  text, items, mapping, other, Values, no_more, item, Entries, empty, Field, timeouts_fields,
  limits_fields, keep_alive_fields, upstream_keepalive_fields, circuit_breaker_fields, retry_fields,
  rate_limit_fields, LoggingConfig, ProxyConfig,
}
use nginx_remake_v.Config.Load.{get, get_or, truth, entries_of}
use nginx_remake_v.Config.FromYaml.{
  has_colon, checked_listen, checked_port, checked_level, checked_upstreams, listen_of, host_of,
  port_of, values_of, level_of, upstream_of, upstreams_of, section, logging_of, is_enabled,
  of_entries, from_yaml,
}
use nginx_remake_v.Config.Valid.{Accepts, Accepts-bind, Accepts-any, Loads, load_dataclass-Loads}

-- The levels that proxy/logger.py knows.
abbrev pub levels : List Text
levels = codes "DEBUG" ∷ codes "INFO" ∷ codes "WARNING" ∷ codes "ERROR" ∷ codes "CRITICAL" ∷ []

abbrev pub among : Text → List Text → Bool
among s [] = false
among s (t ∷ ts) = text_eq s t || among s ts

abbrev pub IsPort : ℕ → Type 0
IsPort n = (1 ≤ n) × (n ≤ 65535)

abbrev pub IsUpstream : Upstream → Type 0
IsUpstream v = (v.host ≢ []) × IsPort v.port

abbrev pub AreUpstreams : List Upstream → Type 0
AreUpstreams [] = Unit {0}
AreUpstreams (v ∷ vs) = IsUpstream v × AreUpstreams vs

module _ {F : Type 0} (u : Unicode) (floats : Floats F) where
  pub record IsValid (c : ProxyConfig F) : Type 0 where
    pub listen : has_colon c.listen ≡ true
    pub some_upstream : c.upstreams ≢ []
    pub upstreams : AreUpstreams c.upstreams
    pub timeouts : Loads u floats timeouts_fields c.timeouts
    pub limits : Loads u floats limits_fields c.limits
    pub keep_alive : Loads u floats keep_alive_fields c.keep_alive
    pub upstream_keepalive : Loads u floats upstream_keepalive_fields c.upstream_keepalive
    pub circuit_breaker : Loads u floats circuit_breaker_fields c.circuit_breaker
    pub retry : Loads u floats retry_fields c.retry
    pub rate_limit : Loads u floats rate_limit_fields c.rate_limit
    pub level : among c.logging.level levels ≡ true
    pub rate_limiter :
        c.rate_limiter ≡ (if is_enabled u floats c.rate_limit then some c.rate_limit else none)

  checked_listen-Accepts : (s : Text) → Accepts (λ t. has_colon t ≡ true) (checked_listen s)
  unfolding checked_listen
  checked_listen-Accepts s = elim (Bool-cases (has_colon s)) [
    | inl y ↦ simp y refl
    | inr n ↦ simp n tt
  ]

  listen_of-Accepts : (v : Value F) → Accepts (λ t. has_colon t ≡ true) (listen_of v)
  unfolding listen_of
  listen_of-Accepts (text s) = checked_listen-Accepts s
  listen_of-Accepts null = tt
  listen_of-Accepts (flag b) = tt
  listen_of-Accepts (whole n) = tt
  listen_of-Accepts (float f) = tt
  listen_of-Accepts (items vs) = tt
  listen_of-Accepts (mapping d) = tt
  listen_of-Accepts (other b) = tt

  host_of-Accepts : (o : Option (Value F)) → Accepts (λ (t : Text). t ≢ []) (host_of o)
  unfolding host_of
  host_of-Accepts (some (text (c ∷ s))) = λ e. cc
  host_of-Accepts (some (text [])) = tt
  host_of-Accepts none = tt
  host_of-Accepts (some null) = tt
  host_of-Accepts (some (flag b)) = tt
  host_of-Accepts (some (whole n)) = tt
  host_of-Accepts (some (float f)) = tt
  host_of-Accepts (some (items vs)) = tt
  host_of-Accepts (some (mapping d)) = tt
  host_of-Accepts (some (other b)) = tt

  checked_port-Accepts : (n : ℕ) → Accepts IsPort (checked_port n)
  unfolding checked_port
  checked_port-Accepts n = ground arith

  port_of-Accepts : (o : Option (Value F)) → Accepts IsPort (port_of o)
  unfolding port_of
  port_of-Accepts (some (whole (pos n))) = checked_port-Accepts n
  port_of-Accepts (some (whole (negsuc n))) = tt
  port_of-Accepts (some (flag b)) = checked_port-Accepts (if b then 1 else 0)
  port_of-Accepts none = tt
  port_of-Accepts (some null) = tt
  port_of-Accepts (some (float f)) = tt
  port_of-Accepts (some (text s)) = tt
  port_of-Accepts (some (items vs)) = tt
  port_of-Accepts (some (mapping d)) = tt
  port_of-Accepts (some (other b)) = tt

  upstream_of-Accepts : (v : Value F) → Accepts IsUpstream (upstream_of u floats v)
  unfolding upstream_of
  upstream_of-Accepts v =
      Accepts-bind (λ _. Unit {0}) IsUpstream (entries_of type_error v) _
        (Accepts-any (entries_of type_error v))
        (λ d _.
          Accepts-bind (λ (t : Text). t ≢ []) IsUpstream (host_of (get (codes "host") d)) _
            (host_of-Accepts (get (codes "host") d))
            (λ host h.
              Accepts-bind IsPort IsUpstream (port_of (get (codes "port") d)) _
                (port_of-Accepts (get (codes "port") d)) (λ port p. (h, p))))

  upstreams_of-Accepts : (vs : Values F) → Accepts AreUpstreams (upstreams_of u floats vs)
  unfolding upstreams_of
  upstreams_of-Accepts no_more = tt
  upstreams_of-Accepts (item v vs) =
      Accepts-bind IsUpstream AreUpstreams (upstream_of u floats v) _ (upstream_of-Accepts v)
        (λ a p.
          Accepts-bind AreUpstreams AreUpstreams (upstreams_of u floats vs)
            (λ us. accepted (a ∷ us)) (upstreams_of-Accepts vs) (λ us q. (p, q)))

  checked_upstreams-Accepts :
      (us : List Upstream)
      → AreUpstreams us
      → Accepts (λ (vs : List Upstream). (vs ≢ []) × AreUpstreams vs) (checked_upstreams us)
  unfolding checked_upstreams
  checked_upstreams-Accepts [] p = tt
  checked_upstreams-Accepts (v ∷ vs) p = ((λ e. cc), p)

  checked_level-Accepts :
      (s : Text) → Accepts (λ (t : Text). among t levels ≡ true) (checked_level s)
  unfolding checked_level
  checked_level-Accepts s = ground arith

  level_of-Accepts :
      (v : Value F) → Accepts (λ (t : Text). among t levels ≡ true) (level_of u floats v)
  unfolding level_of
  level_of-Accepts (text s) = checked_level-Accepts (u.upper s)
  level_of-Accepts null = tt
  level_of-Accepts (flag b) = tt
  level_of-Accepts (whole n) = tt
  level_of-Accepts (float f) = tt
  level_of-Accepts (items vs) = tt
  level_of-Accepts (mapping d) = tt
  level_of-Accepts (other b) = tt

  logging_of-Accepts :
      (v : Value F)
      → Accepts (λ (l : LoggingConfig F). among l.level levels ≡ true) (logging_of u floats v)
  unfolding logging_of
  logging_of-Accepts v =
      let P : LoggingConfig F → Type 0 = λ l. among l.level levels ≡ true in
      Accepts-bind (λ _. Unit {0}) P (entries_of type_error v) _
        (Accepts-any (entries_of type_error v))
        (λ d _.
          Accepts-bind (λ (t : Text). among t levels ≡ true) P
            (level_of u floats (get_or (codes "level") (text (codes "INFO")) d)) _
            (level_of-Accepts (get_or (codes "level") (text (codes "INFO")) d)) (λ l p. p))

  section-Loads :
      (fs : List (Field F)) (name : Text) (d : Entries F)
      → Accepts (Loads u floats fs) (section u floats fs name d)
  unfolding section
  section-Loads fs name d = load_dataclass-Loads u floats fs (get_or name (mapping empty) d)

  found-Accepts :
      (v : Value F) (rest : List Upstream → Checked (ProxyConfig F))
      → ((us : List Upstream) → us ≢ [] → AreUpstreams us → Accepts IsValid (rest us))
      → Accepts IsValid (
          values_of v >>= λ raw.
          upstreams_of u floats raw >>= λ found. checked_upstreams found >>= rest)
  found-Accepts v rest go =
      Accepts-bind (λ _. Unit {0}) IsValid (values_of v)
        (λ raw. upstreams_of u floats raw >>= λ found. checked_upstreams found >>= rest)
        (Accepts-any (values_of v))
        (λ raw _.
          Accepts-bind AreUpstreams IsValid (upstreams_of u floats raw)
            (λ found. checked_upstreams found >>= rest) (upstreams_of-Accepts raw)
            (λ found p.
              Accepts-bind (λ (us : List Upstream). (us ≢ []) × AreUpstreams us) IsValid
                (checked_upstreams found) rest (checked_upstreams-Accepts found p)
                (λ us (some', all). go us some' all)))

  of_entries-IsValid : (d : Entries F) → Accepts IsValid (of_entries u floats d)
  unfolding of_entries
  of_entries-IsValid d =
      let raw_listen = get_or (codes "listen") (text (codes "127.0.0.1:8080")) d in
      let raw_logging = get_or (codes "logging") (mapping empty) d in
      Accepts-bind (λ (t : Text). has_colon t ≡ true) IsValid (listen_of raw_listen) _
        (listen_of-Accepts raw_listen)
        (λ listen colon.
          found-Accepts (get_or (codes "upstreams") (items no_more) d) _ (λ us some' all.
            Accepts-bind (Loads u floats timeouts_fields) IsValid
              (section u floats timeouts_fields (codes "timeouts") d) _
              (section-Loads timeouts_fields (codes "timeouts") d)
              (λ o_timeouts l_timeouts.
                Accepts-bind (Loads u floats limits_fields) IsValid
                  (section u floats limits_fields (codes "limits") d) _
                  (section-Loads limits_fields (codes "limits") d)
                  (λ o_limits l_limits.
                    Accepts-bind (Loads u floats keep_alive_fields) IsValid
                      (section u floats keep_alive_fields (codes "keep_alive") d) _
                      (section-Loads keep_alive_fields (codes "keep_alive") d)
                      (λ o_keep_alive l_keep_alive.
                        Accepts-bind (Loads u floats upstream_keepalive_fields) IsValid
                          (section u floats upstream_keepalive_fields (codes "upstream_keepalive")
                            d)
                          _ (section-Loads upstream_keepalive_fields (codes "upstream_keepalive") d)
                          (λ o_upstream_keepalive l_upstream_keepalive.
                            Accepts-bind (Loads u floats circuit_breaker_fields) IsValid
                              (section u floats circuit_breaker_fields (codes "circuit_breaker") d)
                              _ (section-Loads circuit_breaker_fields (codes "circuit_breaker") d)
                              (λ o_circuit_breaker l_circuit_breaker.
                                Accepts-bind (Loads u floats retry_fields) IsValid
                                  (section u floats retry_fields (codes "retry") d) _
                                  (section-Loads retry_fields (codes "retry") d)
                                  (λ o_retry l_retry.
                                    Accepts-bind (Loads u floats rate_limit_fields) IsValid
                                      (section u floats rate_limit_fields (codes "rate_limit") d) _
                                      (section-Loads rate_limit_fields (codes "rate_limit") d)
                                      (λ o_rate_limit l_rate_limit.
                                        Accepts-bind
                                          (λ (l : LoggingConfig F). among l.level levels ≡ true)
                                          IsValid (logging_of u floats raw_logging) _
                                          (logging_of-Accepts raw_logging)
                                          (λ logging known. record {
                                            listen = colon;
                                            some_upstream = some';
                                            upstreams = all;
                                            timeouts = l_timeouts;
                                            limits = l_limits;
                                            keep_alive = l_keep_alive;
                                            upstream_keepalive = l_upstream_keepalive;
                                            circuit_breaker = l_circuit_breaker;
                                            retry = l_retry;
                                            rate_limit = l_rate_limit;
                                            level = known;
                                            rate_limiter = refl;
                                          }))))))))))

  -- What from_yaml accepts, of any file, has a listen with a colon, at least one upstream, each
  -- with a host that is not empty and a port from 1 to 65535, every field of its seven sections,
  -- in order, with a value of its type, one of the five levels of logging, and a rate limiter
  -- exactly if limiting is enabled; a whole number or a boolean lies within the bounds of its
  -- field's metadata, and of a float none of their comparisons that refuse holds (as of a NaN).
  pub from_yaml-IsValid : (file : Option (Value F)) → Accepts IsValid (from_yaml u floats file)
  unfolding from_yaml
  from_yaml-IsValid none = tt
  from_yaml-IsValid (some v) = go (truth u floats v)
    where
      go :
          (b : Bool)
          → Accepts IsValid (
              if b
              then (entries_of attribute_error v >>= λ d. of_entries u floats d)
              else of_entries u floats empty)
      go true =
          Accepts-bind (λ _. Unit {0}) IsValid (entries_of attribute_error v) (of_entries u floats)
            (Accepts-any (entries_of attribute_error v)) (λ d _. of_entries-IsValid d)
      go false = of_entries-IsValid empty
