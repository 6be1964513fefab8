-- ===== src/CircuitBreaker/Tests.antt =====
-- The circuit breaker on concrete histories.
use nginx_remake_v.Prelude.{◌≤◌, ◌≡◌, refl, [], ◌∷◌, arith, number_keys, text_keys}
use nginx_remake_v.CircuitBreaker.{
  closed, open_state, half_open, CircuitBreakerConfig, CircuitBreaker, allow_request,
  record_success, record_failure, asks, succeeds, fails, step, run, granted,
}
use nginx_remake_v.CircuitBreaker.Trips.{closed_until_threshold, opens_at_threshold}
use nginx_remake_v.CircuitBreaker.Probe.{one_probe}

abbrev config : CircuitBreakerConfig
config = record { failure_threshold = 2; cooldown = 30 }

abbrev fresh : CircuitBreaker
fresh = record { config = config; state = closed; failure_count = 0; last_open_time = 0 }

abbrev probing : CircuitBreaker
probing = record { config = config; state = half_open; failure_count = 2; last_open_time = 7 }

abbrev opened : CircuitBreaker
opened = record { config = config; state = open_state; failure_count = 2; last_open_time = 7 }

-- Two failures with a success between them open the breaker; the probe comes after the cooldown.
opens : run fresh (fails 5 ∷ succeeds ∷ fails 7 ∷ asks 36 ∷ []) ≡ opened
unfolding run step allow_request record_success record_failure
opens = refl

probes : granted opened (asks 36 ∷ asks 37 ∷ asks 38 ∷ []) ≡ 1
unfolding granted allow_request
probes = refl

closed_until_threshold_example :
    ((run fresh (fails 5 ∷ succeeds ∷ [])).state ≡ closed)
    × ((run fresh (fails 5 ∷ succeeds ∷ [])).failure_count ≡ 1)
    × ((run fresh (fails 5 ∷ succeeds ∷ [])).config ≡ config)
closed_until_threshold_example =
    closed_until_threshold (fails 5 ∷ succeeds ∷ []) fresh refl (omega arith)

opens_at_threshold_example :
    let b = record_failure (run fresh (fails 5 ∷ succeeds ∷ [])) 9 in
    (b.state ≡ open_state) × (b.last_open_time ≡ 9)
opens_at_threshold_example = opens_at_threshold (fails 5 ∷ succeeds ∷ []) fresh 9 refl refl

one_probe_example : granted opened (asks 36 ∷ asks 37 ∷ asks 38 ∷ []) ≤ 1
one_probe_example = one_probe (asks 36 ∷ asks 37 ∷ asks 38 ∷ []) opened (λ e. cc) tt
