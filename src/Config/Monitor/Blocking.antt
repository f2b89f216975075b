-- ===== src/Config/Monitor/Blocking.antt =====
-- config/oidc-token.go: when the loop of a monitor blocks, and when it does not.
use cells_sync.Prelude.{ℕ, ◌≡◌, refl, List, [], ◌∷◌}
use cells_sync.Config.Types.{Authority}
use cells_sync.Config.Keyring.{Keyring}
use cells_sync.Config.Authorities.{AuthWorld}
use cells_sync.Config.Monitor.{
  blocked, Event, safe_tick, timer, take_trigger, take_done, stop, room, renewed, TokenMonitor,
  start, step, run_events,
}

module _ (load_info : Authority → Authority) (K : Keyring) where
  -- The goroutine waits for a place in the trigger, whose place is taken, and the configuration is this.
  abbrev pub IsStuck : AuthWorld load_info K → TokenMonitor load_info K → Type 0
  IsStuck w m = (m.life ≡ blocked) × (m.trigger ≡ 1) × (m.auths ≡ w)

  step-IsStuck :
      (w : AuthWorld load_info K) (e : Event) (m : TokenMonitor load_info K)
      → IsStuck w m
      → IsStuck w (step load_info K e m)
  unfolding step
  step-IsStuck w (safe_tick now) m h = rw h.0 (refl, h.1, h.2)
  step-IsStuck w timer m h = rw h.0 (refl, h.1, h.2)
  step-IsStuck w (take_trigger r now ok) m h = rw h.0 (refl, h.1, h.2)
  step-IsStuck w take_done m h = rw h.0 (refl, h.1, h.2)
  step-IsStuck w stop m h = rw h.0 (refl, h.1, h.2)
  step-IsStuck w room m h = rw (h.0, h.1) (refl, refl, h.2)
  step-IsStuck w (renewed r now) m h = rw h.0 (refl, h.1, h.2)

  run_events-IsStuck :
      (w : AuthWorld load_info K) (es : List Event) (m : TokenMonitor load_info K)
      → IsStuck w m
      → IsStuck w (run_events load_info K es m)
  unfolding run_events
  run_events-IsStuck w [] m h = h
  run_events-IsStuck w (e ∷ es) m h =
      run_events-IsStuck w es (step load_info K e m) (step-IsStuck w e m h)

  -- When the timer fires again before the loop has taken the signal of the time before, then the
  -- monitor waits for a place in the buffer that only it could empty: whatever comes next, a stop and
  -- new tokens from elsewhere included, the buffer stays full, the loop does not go on and does not
  -- return, and it changes the configuration no more.
  pub timers-IsStuck :
      (a : Authority) (now : ℕ) (w : AuthWorld load_info K) (es : List Event)
      → IsStuck w (run_events load_info K (timer ∷ timer ∷ es) (start load_info K a now w))
  unfolding run_events step start
  timers-IsStuck a now w es = run_events-IsStuck w es _ (refl, refl, refl)
