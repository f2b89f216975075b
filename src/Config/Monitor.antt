-- ===== src/Config/Monitor.antt =====
-- config/oidc-token.go and `Refresh` of config/oidc-authorities.go: the loop of a monitor. The select
-- takes any of its cases that is ready, so the cases are events that the environment chooses. The
-- answer of the server is a parameter of the event, and a handler reads the clock once.
pub mod Blocking
pub mod Renewal
use cells_sync.Prelude.{
  ℕ, zero, suc, ◌+◌, ◌/◌, Bool, true, false, Option, none, some, List, [], ◌∷◌, if◌then◌else◌,
}
use cells_sync.Config.Types.{Authority}
use cells_sync.Config.Keyring.{Keyring}
use cells_sync.Config.Authorities.{
  refresh_required, loaded, dated, seen, AuthWorld, update_authority,
}

-- What the server answers to a request for new tokens. `expires_in` is in seconds.
pub record Response : Type 0 where
  pub id_token : List ℕ
  pub access_token : List ℕ
  pub refresh_token : List ℕ
  pub expires_in : ℕ

-- The goroutine of the loop: it selects, it waits for a place in the trigger, or it has returned.
pub data Life : Type 0 where
  selecting blocked returned : Life

pub data Event : Type 0 where
  safe_tick : ℕ → Event  -- the ticker of two minutes, and the time
  timer : Event  -- time.After(nextTick)
  take_trigger : Option Response → ℕ → Bool → Event  -- the answer, the time, does the save succeed?
  take_done : Event
  stop : Event  -- `Stop`, by another goroutine
  room : Event  -- a blocked sender goes on, if the buffer has a place
  renewed : Response → ℕ → Event  -- another goroutine gives the authority, which is shared, new tokens

abbrev pub with_response : Response → ℕ → Authority → Authority
with_response r now a = record a {
  id_token = r.id_token;
  access_token = r.access_token;
  refresh_token = r.refresh_token;
  expires_at = now / 1000000000 + r.expires_in;
}

module _ (load_info : Authority → Authority) (K : Keyring) where
  -- `tokenMonitor`: `authority` is what its pointer points to, which may be an authority of the
  -- configuration: what other goroutines do to that is the event `renewed`. `trigger` is the number of the signals in its buffer, `done` says whether that
  -- channel is closed. The configuration stands beside it.
  pub record TokenMonitor : Type 0 where
    pub authority : Authority
    pub trigger : ℕ
    pub next_tick : ℕ
    pub done : Bool
    pub life : Life
    pub auths : AuthWorld load_info K

  -- `Refresh`; every error of the exchange is `none`. The error of `UpdateAuthority` is not read.
  unfoldable pub refresh :
      Option Response
      → ℕ
      → Bool
      → Authority
      → AuthWorld load_info K
      → Authority × Bool × AuthWorld load_info K
  refresh none now ok a w = (a, false, w)
  refresh (some r) now ok a w =
      let a' = with_response r now a in
      (
        seen load_info K w.world.global.authorities (dated load_info true now a'),
        true,
        (update_authority load_info K a' true now ok w).0,
      )

  -- The beginning of `Start`.
  unfoldable pub start : Authority → ℕ → AuthWorld load_info K → TokenMonitor
  start a now w = record {
    authority = a;
    trigger = 0;
    next_tick = (refresh_required a now).0;
    done = false;
    life = selecting;
    auths = w;
  }

  -- `t.trigger <- struct{}{}`: the buffer has one place, and the sender is its only reader.
  abbrev pub send_trigger : TokenMonitor → TokenMonitor
  send_trigger m = elim (m.trigger) [
    | zero ↦ record m { trigger = 1 }
    | suc n ↦ record m { life = blocked }
  ]

  unfoldable pub on_safe_tick : ℕ → TokenMonitor → TokenMonitor
  on_safe_tick now m =
      let a = loaded load_info m.authority in
      let (next, is_due) = refresh_required a now in
      let m' = record m { authority = a; next_tick = next } in
      if is_due then send_trigger m' else m'

  abbrev pub after_refresh :
      ℕ → TokenMonitor → Authority × Bool × AuthWorld load_info K → TokenMonitor
  after_refresh now m (a, true, w) = record m {
    trigger = 0;
    authority = a;
    next_tick = (refresh_required a now).0;
    auths = w;
  }
  after_refresh now m (a, false, w) = record m {
    trigger = 0;
    authority = loaded load_info a;
    next_tick = 10000000000;
    auths = w;
  }

  unfoldable pub on_trigger : Option Response → ℕ → Bool → TokenMonitor → TokenMonitor
  on_trigger answer now ok m = after_refresh now m (refresh answer now ok m.authority m.auths)

  -- One event. A case that is not ready is not taken.
  abbrev pub selected : Event → TokenMonitor → TokenMonitor
  selected (safe_tick now) m = on_safe_tick now m
  selected timer m = send_trigger m
  selected (take_trigger answer now ok) m = elim (m.trigger) [
    | zero ↦ m
    | suc n ↦ on_trigger answer now ok m
  ]
  selected take_done m =
      if m.done then record m { authority = loaded load_info m.authority; life = returned } else m
  selected stop m = record m { done = true }
  selected room m = m
  selected (renewed r now) m = record m { authority = with_response r now m.authority }

  -- A sender waits until the buffer has a place.
  abbrev unblocked : TokenMonitor → TokenMonitor
  unblocked m = elim (m.trigger) [ zero ↦ record m { trigger = 1; life = selecting } | suc n ↦ m ]

  abbrev waiting : Event → TokenMonitor → TokenMonitor
  waiting stop m = record m { done = true }
  waiting (renewed r now) m = record m { authority = with_response r now m.authority }
  waiting room m = unblocked m
  waiting _ m = m

  abbrev over : Event → TokenMonitor → TokenMonitor
  over stop m = record m { done = true }
  over (renewed r now) m = record m { authority = with_response r now m.authority }
  over _ m = m

  unfoldable pub step : Event → TokenMonitor → TokenMonitor
  step e m = elim (m.life) [
    | selecting ↦ selected e m
    | blocked ↦ waiting e m
    | returned ↦ over e m
  ]

  unfoldable pub run_events : List Event → TokenMonitor → TokenMonitor
  run_events [] m = m
  run_events (e ∷ es) m = run_events es (step e m)
