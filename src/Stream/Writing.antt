-- ===== src/Stream/Writing.antt =====
-- What a writer does with the bytes it is given.
use nginx_remake_v.Prelude.{
  ◌≡◌, refl, ◌≢◌, inl, inr, true, false, Option, none, some, List, [], ◌∷◌, ◌++◌, arith, Bool-cases,
  Bytes, number_keys, text_keys,
}
use nginx_remake_v.Exec.{Exception, connection_reset, Result, ok, err, spinning}
use nginx_remake_v.Stream.{StreamWriter, write, drain, drain_next, close}

pub write_open :
    (d : Bytes) (w : StreamWriter)
    → w.closing ≡ false
    → write d w ≡ record w { written = w.written ++ d }
unfolding write
write_open d w h = ground (arith, h)

-- A drain changes neither the bytes nor the transport's state; it ends or raises.
pub record Drains (w : StreamWriter) (x : Result (Unit {0}) × StreamWriter) : Type 0 where
  pub same_bytes : (x.1).written ≡ w.written
  pub same_state : (x.1).closing ≡ w.closing
  pub ends : x.0 ≢ spinning

drain_next-Drains : (ds : List (Option Exception)) (w : StreamWriter) → Drains w (drain_next ds w)
unfolding drain_next
drain_next-Drains [] w = ground arith
drain_next-Drains (none ∷ ds) w = ground arith
drain_next-Drains (some e ∷ ds) w = ground arith

pub drain-Drains : (w : StreamWriter) → Drains w (drain w)
unfolding drain
drain-Drains w = elim (Bool-cases w.closing) [
  | inl h ↦ simp h (record { same_bytes = refl; same_state = refl; ends = λ e. cc })
  | inr h ↦ simp h (drain_next-Drains w.drains w)
]

pub drain_calm : (w : StreamWriter) → w.closing ≡ false → w.drains ≡ [] → drain w ≡ (ok tt, w)
unfolding drain drain_next
drain_calm w h e = ground (arith, h, e)

pub drain_closed : (w : StreamWriter) → w.closing ≡ true → drain w ≡ (err connection_reset, w)
unfolding drain
drain_closed w h = simp h

pub write_closed : (d : Bytes) (w : StreamWriter) → w.closing ≡ true → write d w ≡ w
unfolding write
write_closed d w h = simp h

pub close_lem : (w : StreamWriter) → close w ≡ record w { closing = true }
unfolding close
close_lem w = refl
