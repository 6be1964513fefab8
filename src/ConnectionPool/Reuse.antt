-- ===== src/ConnectionPool/Reuse.antt =====
-- Which connections are taken over, kept and closed.
use nginx_remake_v.Prelude.{
  ℕ, ◌+◌, ◌-◌, ◌≤◌, ◌<◌, ◌≡◌, refl, sym, ap, subst, ◌⊎◌, inl, inr, Bool, true, false, ◌||◌, Option,
  none, some, List, [], ◌∷◌, ◌++◌, map, arith, not, if◌then◌else◌, ltb, eqb, Bool-cases, length,
  number_keys, text_keys,
}
use nginx_remake_v.Exec.{timeout_error, Result, ok, err, spinning}
use nginx_remake_v.ConnectionPool.{
  PooledConnection, UpstreamKeepAliveConfig, PerUpstreamPool, is_closed, is_usable, scan, reused,
  opening, start, Opened, connected, failed, finish_open, acquire, release, close_connection, reap,
  close_idle, shutdown, finish, pooled_connection,
}

abbrev pub All {ℓ κ} : {A : Type ℓ} → (A → Type κ) → List A → Type κ
All P [] = Unit
All P (x ∷ xs) = P x × All P xs

-- The idle connections are those closed, the one found, and those left, in this order; those closed
-- are not usable, and the one found is. Where none is found, none is left.
abbrev pub Scans :
    UpstreamKeepAliveConfig
    → ℕ
    → List PooledConnection
    → Option PooledConnection × List PooledConnection × List PooledConnection
    → Type 0
Scans cfg now cs (some c, old, rest) =
    (cs ≡ old ++ c ∷ rest)
    × All (λ x. is_usable cfg now x ≡ false) old
    × (is_usable cfg now c ≡ true)
Scans cfg now cs (none, old, rest) =
    (cs ≡ old) × All (λ x. is_usable cfg now x ≡ false) old × (rest ≡ [])

Scans-skip :
    (cfg : UpstreamKeepAliveConfig) (now : ℕ) (c : PooledConnection) (cs : List PooledConnection)
    (x : Option PooledConnection × List PooledConnection × List PooledConnection)
    → is_usable cfg now c ≡ false
    → Scans cfg now cs x
    → Scans cfg now (c ∷ cs) (x.0, c ∷ x.1, x.2)
Scans-skip cfg now c cs (some y, old, rest) h (e, a, u) = (ap (◌∷◌ c) e, (h, a), u)
Scans-skip cfg now c cs (none, old, rest) h (e, a, u) = (ap (◌∷◌ c) e, (h, a), u)

pub scan-Scans :
    (cfg : UpstreamKeepAliveConfig) (now : ℕ) (cs : List PooledConnection)
    → Scans cfg now cs (scan cfg now cs)
unfolding scan
scan-Scans cfg now [] = (refl, tt, refl)
scan-Scans cfg now (c ∷ cs) = elim (Bool-cases (is_usable cfg now c)) [
  | inl h ↦ rw h (refl, tt, h)
  | inr h ↦ rw h (Scans-skip cfg now c cs (scan cfg now cs) h (scan-Scans cfg now cs))
]

-- What `acquire` has done. A connection comes from the idle ones, the first that is usable, or was
-- opened because none was; all those passed over, and no others, are closed; a permit is used up. A
-- raise leaves the permits as they were: there was none, or the opening failed, with every idle
-- connection found unusable and closed.
abbrev pub Acquires :
    PerUpstreamPool
    → ℕ
    → Opened
    → Result PooledConnection × PerUpstreamPool × List PooledConnection
    → Type 0
Acquires p now o (ok c, p', closed) =
    (p'.permits + 1 ≡ p.permits)
    × ((old : List PooledConnection) × (closed ≡ map close_connection old)
        × All (λ x. is_usable p.keepalive_cfg now x ≡ false) old
        × (((x : PooledConnection) × (p.idle ≡ old ++ x ∷ p'.idle)
              × (is_usable p.keepalive_cfg now x ≡ true)
              × (c ≡ record x { last_used = now }))
            ⊎ ((p.idle ≡ old)
                × (p'.idle ≡ [])
                × (o ≡ connected c.reader c.writer)
                × (c.request_count ≡ 1)
                × (c.last_used ≡ now))))
Acquires p now o (err e, p', closed) =
    (p'.permits ≡ p.permits)
    × (((p.permits ≡ 0) × (e ≡ timeout_error) × (p' ≡ p) × (closed ≡ []))
        ⊎ ((o ≡ failed e)
            × (p'.idle ≡ [])
            × (closed ≡ map close_connection p.idle)
            × All (λ x. is_usable p.keepalive_cfg now x ≡ false) p.idle))
Acquires p now o (spinning, p', closed) = ⊥

finish_scan :
    (p : PerUpstreamPool) (now : ℕ) (o : Opened)
    (x : Option PooledConnection × List PooledConnection × List PooledConnection)
    → 0 < p.permits
    → Scans p.keepalive_cfg now p.idle x
    → Acquires p now o (
        finish now o (
          elim x.0 [ some c ↦ reused (record c { last_used = now }) | none ↦ opening ],
          record p { permits = p.permits - 1; idle = x.2 },
          map close_connection x.1,
        ))
unfolding finish finish_open pooled_connection
finish_scan p now o (some c, old, rest) pos (e, a, u) =
    (omega arith, (old, refl, a, inl (c, e, u, refl)))
finish_scan p now (connected r w) (none, old, rest) pos (e, a, u) =
    (omega arith, (old, refl, a, inr (e, u, refl, refl, refl)))
finish_scan p now (failed x) (none, old, rest) pos (e, a, u) = (
  omega arith,
  inr (
    refl,
    u,
    ap (map close_connection) (sym e),
    subst (All (λ y. is_usable p.keepalive_cfg now y ≡ false)) (sym e) a,
  ),
)

-- acquire takes over the first usable idle connection, or opens one where none is usable, closing
-- exactly those passed over; where it raises, the permits are as before.
pub acquire-Acquires :
    (p : PerUpstreamPool) (now : ℕ) (o : Opened) → Acquires p now o (acquire p now o)
unfolding acquire start
acquire-Acquires p now o = elim (Bool-cases (eqb p.permits 0)) [
  | inl h ↦ let z : p.permits ≡ 0 = ground (arith, h) in simp h (refl, inl (z, refl, refl, refl))
  | inr h ↦ simp h (
      finish_scan p now o (scan p.keepalive_cfg now p.idle) (ground (arith, h))
        (scan-Scans p.keepalive_cfg now p.idle))
]

-- release gives a permit back in each of its cases: it drops a closed connection with no call of
-- close, keeps one within the limits, counted once more, behind the idle ones, and closes any
-- other.
pub release_cases :
    (p : PerUpstreamPool) (c : PooledConnection) (now : ℕ)
    → let (p', closed) = release p c now in
      let c' : PooledConnection = record c {
        last_used = now;
        request_count = c.request_count + 1;
      } in
      (p'.permits ≡ p.permits + 1)
      × (((is_closed c ≡ true) × (p'.idle ≡ p.idle) × (closed ≡ []))
          ⊎ ((is_closed c ≡ false)
              × (c.request_count + 1 < p.keepalive_cfg.max_requests)
              × (length p.idle < p.keepalive_cfg.max_idle)
              × (p'.idle ≡ p.idle ++ c' ∷ [])
              × (closed ≡ []))
          ⊎ ((is_closed c ≡ false)
              × ((p.keepalive_cfg.max_requests ≤ c.request_count + 1)
                  ⊎ (p.keepalive_cfg.max_idle ≤ length p.idle))
              × (p'.idle ≡ p.idle)
              × (closed ≡ close_connection c' ∷ [])))
unfolding release
release_cases p c now = ground arith

-- A connection that `close_idle` closes.
abbrev pub is_stale : UpstreamKeepAliveConfig → ℕ → PooledConnection → Bool
is_stale cfg now c = is_closed c || ltb cfg.idle_timeout (now - c.last_used)

-- The elements that pass a test, in order.
pub select {ℓ} : {A : Type ℓ} → (A → Bool) → List A → List A
select f [] = []
select f (x ∷ xs) = let rest = select f xs in if f x then x ∷ rest else rest

reap_parts :
    (cfg : UpstreamKeepAliveConfig) (now : ℕ) (cs : List PooledConnection)
    → let (keep, old) = reap cfg now cs in
      (keep ≡ select (λ c. not (is_stale cfg now c)) cs)
      × (old ≡ map close_connection (select (is_stale cfg now) cs))
unfolding reap select
reap_parts cfg now [] = (refl, refl)
reap_parts cfg now (c ∷ cs) =
    let (a, b) = reap_parts cfg now cs in
    elim (Bool-cases (is_stale cfg now c)) [
      | inl h ↦ rw h (a, ap (◌∷◌ (close_connection c)) b)
      | inr h ↦ rw h (ap (◌∷◌ c) a, b)
    ]

-- close_idle keeps exactly the idle connections that are neither closed nor timed out, in their
-- order, and closes exactly the others; the permits stay.
pub close_idle_parts :
    (p : PerUpstreamPool) (now : ℕ)
    → let (p', closed) = close_idle p now in
      (p'.idle ≡ select (λ c. not (is_stale p.keepalive_cfg now c)) p.idle)
      × (closed ≡ map close_connection (select (is_stale p.keepalive_cfg now) p.idle))
      × (p'.permits ≡ p.permits)
unfolding close_idle
close_idle_parts p now = let (a, b) = reap_parts p.keepalive_cfg now p.idle in (a, b, refl)

pub shutdown_idle : (p : PerUpstreamPool) → (shutdown p).0.idle ≡ []
unfolding shutdown
shutdown_idle p = refl

-- A release after `shutdown` keeps a connection that it would have kept before.
pub shutdown-release :
    (p : PerUpstreamPool) (c : PooledConnection) (now : ℕ)
    → is_closed c ≡ false
    → c.request_count + 1 < p.keepalive_cfg.max_requests
    → 0 < p.keepalive_cfg.max_idle
    → let (p', closed) = release (shutdown p).0 c now in (length p'.idle ≡ 1) × (closed ≡ [])
unfolding shutdown release
shutdown-release p c now h fresh room = ground arith
