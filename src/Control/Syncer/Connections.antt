-- ===== src/Control/Syncer/Connections.antt =====
-- control/syncer.go: what the reports of the endpoints do to a sync task, and runs of `dispatchBus`.
use cells_sync.Prelude.{
  ℕ, ◌≡◌, ◌∙◌, ◌⊎◌, inl, inr, String, Bool, true, false, ◌&&◌, not, Option, none, some, List, [],
  ◌∷◌, ◌++◌, arith, if◌then◌else◌, ◌>>=◌, >>=-eq-some, Bool-cases,
}
use cells_sync.Control.State.{idle, MemoryStateStore, both_connected, update_connection}
use cells_sync.Control.State.File.{same_status}
use cells_sync.Control.Syncer.{
  Lib, Syncer, run, Effect, pub_state, call_task, Outcome, state_of, with_mem, EndpointStatus,
  WatchConnection, watch_connected, watch_disconnected, watch_active, watch_idle, watch_stats,
  watch_other, Input, message, endpoint_status, other, handle_connection, handle_endpoint, handle,
  handle_all,
}
use cells_sync.Control.Syncer.Messages.{
  Handled, paused_by, cleans_all, last_published, handle_message-Handled,
}

-- Both sides have become connected, and the task is idle.
abbrev pub is_ready : Bool → MemoryStateStore → Bool
is_ready before m = same_status m.state.status idle && both_connected m && not before

abbrev quiet : Option MemoryStateStore → Syncer → Option Outcome
quiet update s = update >>= λ m. some (with_mem m s, pub_state m.state ∷ [])

module _ (lib : Lib) (now : ℕ) where
  -- A report of a connection that is handled updates the information of the side, and launches a
  -- full resync if the last run was stopped while processing, else a loop, if and only if the task
  -- is idle and both sides have just become connected. The flag of the dirty stop is then cleared.
  pub handle_connection-eq-some :
      (c : Bool) (uri : String) (s s' : Syncer) (es : List Effect)
      → handle_connection lib now c uri s ≡ some (s', es)
      → (m : MemoryStateStore) × (update_connection lib.parse c uri now s.store.mem ≡ some m)
        × (s' ≡ (
            if is_ready (both_connected s.store.mem) m
            then record (with_mem m s) { dirty_stopped = false }
            else with_mem m s))
        × (es ≡ (
            if is_ready (both_connected s.store.mem) m
            then call_task s.task (run false s.dirty_stopped) ∷ pub_state m.state ∷ []
            else pub_state m.state ∷ []))
  unfolding handle_connection
  handle_connection-eq-some c uri s s' es h =
      let (m, e, r) = >>=-eq-some (update_connection lib.parse c uri now s.store.mem) _ h in
      (m, e, ground arith, ground arith)

  connection-Handled :
      (c : Bool) (uri : String) (e : EndpointStatus) (s s' : Syncer) (es : List Effect)
      → handle_connection lib now c uri s ≡ some (s', es)
      → Handled (endpoint_status e) s s' es
  connection-Handled c uri e s s' es h =
      let (m, _, p, q) = handle_connection-eq-some c uri s s' es h in
      elim (Bool-cases (is_ready (both_connected s.store.mem) m)) [
        | inl b ↦ ground (arith, p, q, b)
        | inr b ↦ ground (arith, p, q, b)
      ]

  -- A report of an endpoint that leaves the connections alone publishes the new state.
  quiet-Handled :
      (update : Option MemoryStateStore) (e : EndpointStatus) (s s' : Syncer) (es : List Effect)
      → quiet update s ≡ some (s', es)
      → Handled (endpoint_status e) s s' es
  quiet-Handled none e s s' es h = cc
  quiet-Handled (some m) e s s' es h = ground arith

  endpoint-Handled :
      (c : WatchConnection) (e : EndpointStatus) (s s' : Syncer) (es : List Effect)
      → handle_endpoint lib now c e s ≡ some (s', es)
      → Handled (endpoint_status e) s s' es
  unfolding handle_endpoint
  endpoint-Handled watch_connected e s s' es h = connection-Handled true e.uri e s s' es h
  endpoint-Handled watch_disconnected e s s' es h = connection-Handled false e.uri e s s' es h
  endpoint-Handled watch_active e s s' es h = quiet-Handled _ e s s' es h
  endpoint-Handled watch_idle e s s' es h = quiet-Handled _ e s s' es h
  endpoint-Handled watch_stats e s s' es h = quiet-Handled _ e s s' es h
  endpoint-Handled watch_other e s s' es h = ground arith

  pub handle-Handled :
      (i : Input) (s s' : Syncer) (es : List Effect)
      → handle lib now i s ≡ some (s', es)
      → Handled i s s' es
  unfolding handle
  handle-Handled (message m) s s' es h = handle_message-Handled lib now m s s' es h
  handle-Handled (endpoint_status e) s s' es h = endpoint-Handled e.connection e s s' es h
  handle-Handled other s s' es h = ground arith

-- A flag after a run, from the inputs alone.
abbrev pub flag_after : (Input → Bool → Bool) → List (ℕ × Input) → Bool → Bool
flag_after step [] b = b
flag_after step ((_, i) ∷ is) b = flag_after step is (step i b)

last_published-append :
    (es es' : List Effect)
    → last_published (es ++ es')
      ≡ elim (last_published es') [ none ↦ last_published es | some st ↦ some st ]
last_published-append [] es' = ground arith
last_published-append (e ∷ es) es' = ground (arith, last_published-append es es')

-- What a whole run of `dispatchBus` does.
pub record Ran (is : List (ℕ × Input)) (s s' : Syncer) (es : List Effect) : Type 0 where
  pub paused : s'.task_paused ≡ flag_after paused_by is s.task_paused
  pub clean_all : s'.clean_all_after_stop ≡ flag_after cleans_all is s.clean_all_after_stop
  pub task : s'.task ≡ s.task
  pub patch_store : s'.patch_store ≡ s.patch_store
  pub snap_factory : s'.snap_factory ≡ s.snap_factory
  pub config_path : s'.config_path ≡ s.config_path
  pub published :
      (last_published es ≡ some (state_of s'))
      ⊎ ((last_published es ≡ none) × (state_of s' ≡ state_of s))

Ran-cons :
    (now : ℕ) (i : Input) (is : List (ℕ × Input)) (s t u : Syncer) (es es' : List Effect)
    → Handled i s t es
    → Ran is t u es'
    → Ran ((now, i) ∷ is) s u (es ++ es')
Ran-cons now i is s t u es es' h r = ground (arith, last_published-append es es')

handle_all-cons :
    (lib : Lib) (now : ℕ) (i : Input) (is : List (ℕ × Input)) (s s' : Syncer) (es : List Effect)
    → handle_all lib ((now, i) ∷ is) s ≡ some (s', es)
    → (t : Syncer) × (es1 : List Effect) × (es2 : List Effect) × (handle lib now i s
        ≡ some (t, es1))
      × (handle_all lib is t ≡ some (s', es2))
      × (es ≡ es1 ++ es2)
unfolding handle_all
handle_all-cons lib now i is s s' es h =
    let (o, e, r) = >>=-eq-some (handle lib now i s) _ h in
    let (o', e', r') = >>=-eq-some (handle_all lib is o.0) _ r in
    (o.0, o.1, o'.1, e, e' ∙ ground (arith, r'), ground (arith, r'))

-- Whatever arrives, if the service does not panic: its task is marked as paused if and only if the
-- last of the messages pause and resume was pause (and as before if there was none), it will clean
-- up if a message to halt and clean came, its task, stores and folder stay, and the last state
-- that it published is its state, unless it published nothing and its state is unchanged.
pub handle_all-Ran :
    (lib : Lib) (is : List (ℕ × Input)) (s s' : Syncer) (es : List Effect)
    → handle_all lib is s ≡ some (s', es)
    → Ran is s s' es
unfolding handle_all
handle_all-Ran lib [] s s' es h = ground arith
handle_all-Ran lib ((now, i) ∷ is) s s' es h =
    let (t, es1, es2, e, e', q) = handle_all-cons lib now i is s s' es h in
    rw q (
      Ran-cons now i is s t s' es1 es2 (handle-Handled lib now i s t es1 e)
        (handle_all-Ran lib is t s' es2 e'))
