-- ===== src/CircuitBreaker/Probe.antt =====
-- What an open breaker lets through: one probe, no earlier than the cooldown.
use nginx_remake_v.Prelude.{
  ℕ, ◌-◌, ◌≤◌, ◌≡◌, refl, ◌≢◌, ◌↔◌, ◌⊎◌, true, List, [], ◌∷◌, arith, if◌then◌else◌, number_keys,
  text_keys,
}
use nginx_remake_v.CircuitBreaker.{
  CircuitState, closed, open_state, half_open, CircuitBreaker, allow_request, Event, asks, succeeds,
  fails, step, run, granted,
}

-- The exact answer of `allow_request`: a closed breaker passes all, an open one the first request
-- after the cooldown, a half-open one none. It changes the state of the open breaker that lets its
-- probe through, and nothing else.
pub allow_request_iff :
    (b : CircuitBreaker) (now : ℕ)
    → let (ok, b') = allow_request b now in
      ((ok ≡ true) ↔ (
        (b.state ≡ closed)
        ⊎ ((b.state ≡ open_state) × (b.config.cooldown ≤ now - b.last_open_time))))
      × (b'
          ≡ (if ok then (elim b.state [ closed ↦ b | _ ↦ record b { state = half_open } ]) else b))
unfolding allow_request
allow_request_iff b now = go b.state refl
  where
    go :
        (s : CircuitState)
        → b.state ≡ s
        → let (ok, b') = allow_request b now in
          ((ok ≡ true) ↔ (
            (b.state ≡ closed)
            ⊎ ((b.state ≡ open_state) × (b.config.cooldown ≤ now - b.last_open_time))))
          × (b' ≡ (
              if ok then (elim b.state [ closed ↦ b | _ ↦ record b { state = half_open } ]) else b))
    go closed e = ground arith
    go open_state e = ground arith
    go half_open e = ground arith

-- Only requests, with no outcome recorded.
abbrev pub Asks : List Event → Type 0
Asks [] = Unit
Asks (asks now ∷ es) = Asks es
Asks (succeeds ∷ es) = ⊥
Asks (fails now ∷ es) = ⊥

half_open-Asks :
    (es : List Event) (b : CircuitBreaker)
    → b.state ≡ half_open
    → Asks es
    → (granted b es ≡ 0) × (run b es ≡ b)
unfolding granted run step allow_request
half_open-Asks [] b h a = (refl, refl)
half_open-Asks (asks now ∷ es) b h a = ground (arith, half_open-Asks es b h a)
half_open-Asks (succeeds ∷ es) b h a = elim a [ ]
half_open-Asks (fails now ∷ es) b h a = elim a [ ]

-- A breaker that is not closed lets at most one request through until an outcome is recorded.
pub one_probe :
    (es : List Event) (b : CircuitBreaker) → b.state ≢ closed → Asks es → granted b es ≤ 1
unfolding granted allow_request
one_probe [] b h a = omega arith
one_probe (asks now ∷ es) b h a = go b.state refl (one_probe es b h a)
  where
    go : (s : CircuitState) → b.state ≡ s → granted b es ≤ 1 → granted b (asks now ∷ es) ≤ 1
    go closed e ih = absurd (h e)
    go open_state e ih =
        ground (arith, ih, half_open-Asks es (record b { state = half_open }) refl a)
    go half_open e ih = ground (arith, half_open-Asks es b e a)
one_probe (succeeds ∷ es) b h a = elim a [ ]
one_probe (fails now ∷ es) b h a = elim a [ ]
