-- ===== src/CircuitBreaker.antt =====
-- `CircuitState` and `CircuitBreaker` of proxy/upstream_pool.py, and its section of proxy/models.py.
--
-- Times are whole ticks of `time.monotonic()`; its readings are arguments. Each coroutine runs
-- whole under the breaker's lock, and `allow_request` has no await.
pub mod Trips
pub mod Probe
mod Tests
use nginx_remake_v.Prelude.{
  ℕ, zero, suc, ◌+◌, ◌-◌, ◌*◌, ◌/◌, ◌%◌, ◌≤◌, ◌<◌, min, max, ◌≡◌, refl, sym, ap, ◌∙◌, subst, ◌≢◌,
  ◌↔◌, ◌⊎◌, inl, inr, Bool, true, false, not, ◌&&◌, ◌||◌, Option, none, some, List, [], ◌∷◌, ◌++◌,
  map, append-nil, append_assoc, arith, ltb, leb, eqb, if◌then◌else◌, ltb→lt, leb→le, eqb_iff,
  Bool-cases, Option-cases, length, get_elem?, take, drop, length-append, take-append-drop,
  length-take, length-drop, Text, Bytes, codes, text_eq, text_eq_iff, Key, ◌==◌, number_keys,
  text_keys,
}
use nginx_remake_v.Prelude.Dict.{
  Dict, lookup, insert, lookup-insert, lookup-insert_self, lookup-insert_ne,
}

pub data CircuitState : Type 0 where
  closed open_state half_open : CircuitState

pub record CircuitBreakerConfig : Type 0 where
  pub failure_threshold : ℕ
  pub cooldown : ℕ

pub record CircuitBreaker : Type 0 where
  pub config : CircuitBreakerConfig
  pub state : CircuitState
  pub failure_count : ℕ
  pub last_open_time : ℕ

pub circuit_breaker : CircuitBreakerConfig → CircuitBreaker
circuit_breaker c = record { config = c; state = closed; failure_count = 0; last_open_time = 0 }

allow_in : CircuitState → CircuitBreaker → ℕ → Bool × CircuitBreaker
allow_in open_state b now =
    if leb b.config.cooldown (now - b.last_open_time)
    then (true, record b { state = half_open })
    else (false, b)
allow_in half_open b now = (false, b)
allow_in closed b now = (true, b)

unfoldable pub allow_request : CircuitBreaker → ℕ → Bool × CircuitBreaker
unfolding allow_in
allow_request b now = allow_in b.state b now

success_in : CircuitState → CircuitBreaker → CircuitBreaker
success_in half_open b = record b { state = closed; failure_count = 0 }
success_in closed b = b
success_in open_state b = b

pub record_success : CircuitBreaker → CircuitBreaker
unfolding success_in
record_success b = success_in b.state b

-- The test of the threshold, after the count has grown.
trip : CircuitBreaker → ℕ → CircuitBreaker
trip b now =
    if leb b.config.failure_threshold b.failure_count
    then record b { state = open_state; last_open_time = now }
    else b

failure_in : CircuitState → CircuitBreaker → ℕ → CircuitBreaker
unfolding trip
failure_in half_open b now = record b {
  state = open_state;
  last_open_time = now;
  failure_count = 0;
}
failure_in closed b now = trip b now
failure_in open_state b now = trip b now

pub record_failure : CircuitBreaker → ℕ → CircuitBreaker
unfolding failure_in
record_failure b now = failure_in b.state (record b { failure_count = b.failure_count + 1 }) now

-- What the pool does with a breaker, with the clock's reading.
pub data Event : Type 0 where
  asks : ℕ → Event
  succeeds : Event
  fails : ℕ → Event

pub step : CircuitBreaker → Event → CircuitBreaker
step b (asks now) = (allow_request b now).1
step b succeeds = record_success b
step b (fails now) = record_failure b now

pub run : CircuitBreaker → List Event → CircuitBreaker
run b [] = b
run b (e ∷ es) = run (step b e) es

-- The requests that the breaker let through.
pub granted : CircuitBreaker → List Event → ℕ
granted b [] = 0
granted b (asks now ∷ es) =
    (if (allow_request b now).0 then 1 else 0) + granted (allow_request b now).1 es
granted b (succeeds ∷ es) = granted (record_success b) es
granted b (fails now ∷ es) = granted (record_failure b now) es
