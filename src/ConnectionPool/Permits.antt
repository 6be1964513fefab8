-- ===== src/ConnectionPool/Permits.antt =====
-- The pool among tasks that run in any order: permits, and how many connections are open.
use nginx_remake_v.Prelude.{
  ℕ, ◌+◌, ◌-◌, ◌≤◌, ◌<◌, ◌≡◌, refl, ap, ◌∙◌, ◌⊎◌, inl, inr, ◌||◌, Option, none, some, List, [], ◌∷◌,
  arith, ltb, Bool-cases, length, length-append, number_keys, text_keys,
}
use nginx_remake_v.Exec.{Exception}
use nginx_remake_v.Stream.{StreamReader, StreamWriter}
use nginx_remake_v.ConnectionPool.{
  PooledConnection, UpstreamKeepAliveConfig, PerUpstreamPool, per_upstream_pool, reused, opening,
  start, connected, failed, finish_open, release, reap, close_idle, shutdown, is_closed,
}
use nginx_remake_v.ConnectionPool.Reuse.{Scans, scan-Scans}

-- The pool, the tasks that are opening a connection, and the connections that tasks hold.
pub record Shared : Type 0 where
  pub pool : PerUpstreamPool
  pub opens : ℕ
  pub held : ℕ

-- One task goes on. The state of a connection that is released is any.
pub data Step (s : Shared) : Shared → Type 0 where
  reuse :
      (now : ℕ) (c : PooledConnection)
      → 0 < s.pool.permits
      → (start s.pool now).0 ≡ reused c
      → Step s (record { pool = (start s.pool now).1; opens = s.opens; held = s.held + 1 })
  open_begin :
      (now : ℕ)
      → 0 < s.pool.permits
      → (start s.pool now).0 ≡ opening
      → Step s (record { pool = (start s.pool now).1; opens = s.opens + 1; held = s.held })
  open_ends :
      (now : ℕ) (r : StreamReader) (w : StreamWriter)
      → 0 < s.opens
      → Step s (record {
        pool = (finish_open s.pool now (connected r w)).1;
        opens = s.opens - 1;
        held = s.held + 1;
      })
  open_fails :
      (now : ℕ) (e : Exception)
      → 0 < s.opens
      → Step s (record {
        pool = (finish_open s.pool now (failed e)).1;
        opens = s.opens - 1;
        held = s.held;
      })
  give_back :
      (c : PooledConnection) (now : ℕ)
      → 0 < s.held
      → Step s (record { pool = (release s.pool c now).0; opens = s.opens; held = s.held - 1 })
  reaps : (now : ℕ) → Step s (record s { pool = (close_idle s.pool now).0 })
  shuts : Step s (record s { pool = (shutdown s.pool).0 })

pub data Reach (s : Shared) : Shared → Type 0 where
  here : Reach s s
  next : {t u : Shared} → Reach s t → Step t u → Reach s u

-- Permits free and in use make up the limit; no more connections are open, idle ones included, than
-- the limit allows; and the idle ones keep within theirs.
pub record Inv (max_conns max_idle : ℕ) (s : Shared) : Type 0 where
  pub permits : s.pool.permits + s.opens + s.held ≡ max_conns
  pub connections : length s.pool.idle + s.opens + s.held ≤ max_conns
  pub kept : length s.pool.idle ≤ max_idle
  pub limit : s.pool.keepalive_cfg.max_idle ≡ max_idle

scan-found :
    (cfg : UpstreamKeepAliveConfig) (now : ℕ) (cs : List PooledConnection) (c : PooledConnection)
    (x : Option PooledConnection × List PooledConnection × List PooledConnection)
    → Scans cfg now cs x
    → (elim x.0 [ some y ↦ reused (record y { last_used = now }) | none ↦ opening ]) ≡ reused c
    → length x.2 + 1 ≤ length cs
scan-found cfg now cs c (some y, old, rest) (e, a, u) h =
    omega (arith, ap length e, length-append old (y ∷ rest))
scan-found cfg now cs c (none, old, rest) (e, a, u) h = cc

scan-opening :
    (cfg : UpstreamKeepAliveConfig) (now : ℕ) (cs : List PooledConnection)
    (x : Option PooledConnection × List PooledConnection × List PooledConnection)
    → Scans cfg now cs x
    → (elim x.0 [ some y ↦ reused (record y { last_used = now }) | none ↦ opening ]) ≡ opening
    → length x.2 ≡ 0
scan-opening cfg now cs (some y, old, rest) (e, a, u) h = cc
scan-opening cfg now cs (none, old, rest) (e, a, u) h = ap length u

record Starts (p : PerUpstreamPool) (now : ℕ) : Type 0 where
  permit : (start p now).1.permits ≡ p.permits - 1
  same : (start p now).1.keepalive_cfg ≡ p.keepalive_cfg
  found :
      (c : PooledConnection)
      → (start p now).0 ≡ reused c
      → length (start p now).1.idle + 1 ≤ length p.idle
  none_left : (start p now).0 ≡ opening → length (start p now).1.idle ≡ 0

start-Starts : (p : PerUpstreamPool) (now : ℕ) → Starts p now
unfolding start
start-Starts p now = record {
  permit = refl;
  same = refl;
  found = λ c. scan-found p.keepalive_cfg now p.idle c _ (scan-Scans p.keepalive_cfg now p.idle);
  none_left = scan-opening p.keepalive_cfg now p.idle _ (scan-Scans p.keepalive_cfg now p.idle);
}

length-reap :
    (cfg : UpstreamKeepAliveConfig) (now : ℕ) (cs : List PooledConnection)
    → length (reap cfg now cs).0 ≤ length cs
unfolding reap
length-reap cfg now [] = omega arith
length-reap cfg now (c ∷ cs) =
    elim (Bool-cases (is_closed c || ltb cfg.idle_timeout (now - c.last_used))) [
      | inl h ↦ rw h (omega (arith, length-reap cfg now cs))
      | inr h ↦ rw h (omega (arith, length-reap cfg now cs))
    ]

-- A release adds a permit, and at most one idle connection, and that only while there is room.
record Releases (p p' : PerUpstreamPool) : Type 0 where
  permit : p'.permits ≡ p.permits + 1
  same : p'.keepalive_cfg ≡ p.keepalive_cfg
  grows : length p'.idle ≤ length p.idle + 1
  room : (p'.idle ≡ p.idle) ⊎ (length p'.idle ≤ p.keepalive_cfg.max_idle)

release-Releases :
    (p : PerUpstreamPool) (c : PooledConnection) (now : ℕ) → Releases p (release p c now).0
unfolding release
release-Releases p c now = ground (
  arith,
  length-append p.idle (record c { last_used = now; request_count = c.request_count + 1 } ∷ []),
)

-- Every step of any task keeps all of it.
pub Step-Inv :
    (max_conns max_idle : ℕ) {s t : Shared}
    → Step s t
    → Inv max_conns max_idle s
    → Inv max_conns max_idle t
Step-Inv m k {s} (reuse now c pos e) v =
    let g = start-Starts s.pool now in
    let fewer = g.found c e in
    record {
      permits = omega (arith, g.permit, v.permits);
      connections = omega (arith, v.connections);
      kept = omega (arith, v.kept);
      limit = ap (λ x. x.max_idle) g.same ∙ v.limit;
    }
Step-Inv m k {s} (open_begin now pos e) v =
    let g = start-Starts s.pool now in
    let nothing = g.none_left e in
    record {
      permits = omega (arith, g.permit, v.permits);
      connections = omega (arith, v.permits);
      kept = omega arith;
      limit = ap (λ x. x.max_idle) g.same ∙ v.limit;
    }
Step-Inv m k {s} (open_ends now r w pos) v = finished
  where
    finished : Inv m k (record {
      pool = (finish_open s.pool now (connected r w)).1;
      opens = s.opens - 1;
      held = s.held + 1;
    })
    finished = unfold finish_open in ground (arith, v)
Step-Inv m k {s} (open_fails now e pos) v = unfold finish_open in ground (arith, v)
Step-Inv m k {s} (give_back c now pos) v =
    let g = release-Releases s.pool c now in
    record {
      permits = omega (arith, g.permit, v.permits);
      connections = omega (arith, g.grows, v.connections);
      kept = elim g.room [
        | inl e ↦ omega (arith, ap length e, v.kept)
        | inr h ↦ omega (arith, h, v.limit)
      ];
      limit = ap (λ x. x.max_idle) g.same ∙ v.limit;
    }
Step-Inv m k {s} (reaps now) v =
    let fewer = length-reap s.pool.keepalive_cfg now s.pool.idle in
    unfold close_idle in
    (record {
      permits = v.permits;
      connections = omega (arith, v.connections);
      kept = omega (arith, v.kept);
      limit = v.limit;
    })
Step-Inv m k shuts v =
    unfold shutdown in
    (record {
      permits = v.permits;
      connections = omega (arith, v.connections);
      kept = omega arith;
      limit = v.limit;
    })

Reach-Inv :
    (max_conns max_idle : ℕ) {s t : Shared}
    → Inv max_conns max_idle s
    → Reach s t
    → Inv max_conns max_idle t
Reach-Inv m k v here = v
Reach-Inv m k v (next r st) = Step-Inv m k st (Reach-Inv m k v r)

abbrev pub fresh : ℕ → UpstreamKeepAliveConfig → Shared
fresh max_conns cfg = record { pool = per_upstream_pool max_conns cfg; opens = 0; held = 0 }

-- Whatever tasks do with a new connection pool, in any order and over any network, the connections
-- idle, held or being opened are never more than max_conns, the idle ones never more than
-- max_idle, and no permit is lost or made.
pub reachable_bounds :
    (max_conns : ℕ) (cfg : UpstreamKeepAliveConfig) (t : Shared)
    → Reach (fresh max_conns cfg) t
    → Inv max_conns cfg.max_idle t
unfolding per_upstream_pool
reachable_bounds m cfg t r =
    Reach-Inv m cfg.max_idle
      (record {
        permits = omega arith;
        connections = omega arith;
        kept = omega arith;
        limit = refl;
      })
      r
