-- ===== src/CircuitBreaker/Trips.antt =====
-- When the breaker opens.
use nginx_remake_v.Prelude.{
  ℕ, ◌+◌, ◌<◌, ◌≡◌, refl, ◌∙◌, List, [], ◌∷◌, arith, number_keys, text_keys,
}
use nginx_remake_v.CircuitBreaker.{
  closed, open_state, CircuitBreaker, CircuitBreakerConfig, circuit_breaker, allow_request,
  record_success, record_failure, Event, asks, succeeds, fails, step, run,
}

-- A closed breaker has counted fewer failures than the threshold.
abbrev pub IsBelow : CircuitBreaker → Type 0
IsBelow b = b.state ≡ closed → b.failure_count < b.config.failure_threshold

-- Every operation, at any reading of the clock, keeps a closed breaker below its threshold and its
-- configuration as it was.
pub step-IsBelow :
    (b : CircuitBreaker) (e : Event)
    → 0 < b.config.failure_threshold
    → IsBelow b
    → IsBelow (step b e) × ((step b e).config ≡ b.config)
unfolding step allow_request record_success record_failure
step-IsBelow b (asks now) pos h = ground arith
step-IsBelow b succeeds pos h = ground arith
step-IsBelow b (fails now) pos h = ground arith

-- So it holds after any history of a new breaker.
run-IsBelow :
    (es : List Event) (b : CircuitBreaker)
    → 0 < b.config.failure_threshold
    → IsBelow b
    → IsBelow (run b es)
unfolding run
run-IsBelow [] b pos h = h
run-IsBelow (e ∷ es) b pos h =
    let (h', same) = step-IsBelow b e pos h in run-IsBelow es (step b e) (rw same pos) h'

-- After any history of a new breaker with a threshold above 0, if it is closed it has counted
-- fewer failures than the threshold.
pub run-new-IsBelow :
    (c : CircuitBreakerConfig) (es : List Event)
    → 0 < c.failure_threshold
    → IsBelow (run (circuit_breaker c) es)
unfolding circuit_breaker
run-new-IsBelow c es pos = run-IsBelow es _ pos (λ _. pos)

-- The failures among the events.
abbrev pub weight : Event → ℕ
weight (asks now) = 0
weight succeeds = 0
weight (fails now) = 1

abbrev pub failures : List Event → ℕ
failures [] = 0
failures (e ∷ es) = weight e + failures es

step_closed :
    (b : CircuitBreaker) (e : Event)
    → b.state ≡ closed
    → b.failure_count + weight e < b.config.failure_threshold
    → ((step b e).state ≡ closed)
      × ((step b e).failure_count ≡ b.failure_count + weight e)
      × ((step b e).config ≡ b.config)
unfolding step allow_request record_success record_failure
step_closed b (asks now) h lt = ground arith
step_closed b succeeds h lt = ground arith
step_closed b (fails now) h lt = ground arith

-- A closed breaker stays closed through any requests, successes and failures until the failures,
-- with those counted before, make up the threshold; successes reset nothing.
pub closed_until_threshold :
    (es : List Event) (b : CircuitBreaker)
    → b.state ≡ closed
    → b.failure_count + failures es < b.config.failure_threshold
    → ((run b es).state ≡ closed)
      × ((run b es).failure_count ≡ b.failure_count + failures es)
      × ((run b es).config ≡ b.config)
unfolding run
closed_until_threshold [] b h lt = (h, omega arith, refl)
closed_until_threshold (e ∷ es) b h lt =
    let (h', counted, same) = step_closed b e h (omega arith) in
    let (r, c, d) = closed_until_threshold es (step b e) h' (rw (counted, same) (omega arith)) in
    (r, c ∙ rw counted (omega arith), d ∙ same)

fails_at_threshold :
    (b : CircuitBreaker) (now : ℕ)
    → b.state ≡ closed
    → b.failure_count + 1 ≡ b.config.failure_threshold
    → ((record_failure b now).state ≡ open_state) × ((record_failure b now).last_open_time ≡ now)
unfolding record_failure
fails_at_threshold b now h e = ground arith

-- From a closed breaker, the failure that reaches the threshold opens it at the time of that
-- failure, whatever requests and successes stood between.
pub opens_at_threshold :
    (es : List Event) (b : CircuitBreaker) (now : ℕ)
    → b.state ≡ closed
    → b.failure_count + failures es + 1 ≡ b.config.failure_threshold
    → let b' = record_failure (run b es) now in (b'.state ≡ open_state) × (b'.last_open_time ≡ now)
opens_at_threshold es b now h e =
    let (shut, counted, same) = closed_until_threshold es b h (omega arith) in
    fails_at_threshold (run b es) now shut (rw (counted, same) e)
