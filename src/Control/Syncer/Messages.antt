-- ===== src/Control/Syncer/Messages.antt =====
-- control/syncer.go: what the messages of the bus do to a sync task.
use cells_sync.Prelude.{
  ℕ, ◌≡◌, refl, ◌⊎◌, inl, inr, String, Bool, true, false, Option, none, some, List, [], ◌∷◌, arith,
  >>=-eq-some, Bool-cases,
}
use cells_sync.Endpoint.Patch.{Patch}
use cells_sync.Control.Bus.{Message, pause, resume, sync_loop, resync, resync_dry, halt_clean}
use cells_sync.Control.State.{TaskStatus, processing, ProcessStatus, SyncState}
use cells_sync.Control.State.File.{FileStateStore, file_update_process_status}
use cells_sync.Control.Syncer.{
  Lib, Syncer, TaskCall, Effect, pub_state, call_task, Outcome, state_of, with_errors,
  forget_failed, update_process, process_then, handle_message, loop_call, Input, message,
}

-- The last state that a list of effects publishes.
abbrev pub last_published : List Effect → Option SyncState
last_published [] = none
last_published (pub_state st ∷ es) = elim (last_published es) [
  | none ↦ some st
  | some later ↦ some later
]
last_published (e ∷ es) = last_published es

module _ (lib : Lib) (now : ℕ) where
  -- The update of a process status changes the store alone, and publishes the new state.
  pub update_process-eq-some :
      (p : ProcessStatus) (st : TaskStatus) (s : Syncer) {o : Outcome}
      → update_process lib now p st s ≡ some o
      → (store : FileStateStore) × (o
          ≡ (record s { store = store }, pub_state store.mem.state ∷ []))
  unfolding update_process
  update_process-eq-some p st s h =
      let (store, e, r) =
        >>=-eq-some (file_update_process_status lib.parse p (some st) now s.store) _ h in
      (store, cc)

  pub process_then-eq-some :
      (text : String) (call : TaskCall) (s : Syncer) {o : Outcome}
      → process_then lib now text call s ≡ some o
      → (store : FileStateStore) × (o
          ≡ (record s { store = store }, pub_state store.mem.state ∷ call_task s.task call ∷ []))
  unfolding process_then
  process_then-eq-some text call s h =
      let (o, e, r) = >>=-eq-some (update_process lib now (lib.new_status text) processing s) _ h in
      let (store, q) = update_process-eq-some (lib.new_status text) processing s e in
      (store, ground (arith, q))

abbrev pub paused_by : Input → Bool → Bool
paused_by (message pause) b = true
paused_by (message resume) b = false
paused_by i b = b

abbrev pub cleans_all : Input → Bool → Bool
cleans_all (message halt_clean) b = true
cleans_all i b = b

-- What an input does to the flags of the service, and what it tells the subscribers.
pub record Handled (i : Input) (s s' : Syncer) (es : List Effect) : Type 0 where
  pub paused : s'.task_paused ≡ paused_by i s.task_paused
  pub clean_all : s'.clean_all_after_stop ≡ cleans_all i s.clean_all_after_stop
  pub task : s'.task ≡ s.task
  pub patch_store : s'.patch_store ≡ s.patch_store
  pub snap_factory : s'.snap_factory ≡ s.snap_factory
  pub config_path : s'.config_path ≡ s.config_path
  pub published :
      (last_published es ≡ some (state_of s'))
      ⊎ ((last_published es ≡ none) × (state_of s' ≡ state_of s))

module _ (lib : Lib) (now : ℕ) where
  process_then-Handled :
      (m : Input) (text : String) (call : TaskCall) (s s' : Syncer) (es : List Effect)
      → ((b : Bool) → paused_by m b ≡ b)
      → ((b : Bool) → cleans_all m b ≡ b)
      → process_then lib now text call s ≡ some (s', es)
      → Handled m s s' es
  process_then-Handled m text call s s' es p c h =
      let (store, q) = process_then-eq-some lib now text call s h in
      ground (arith, q, p s.task_paused, c s.clean_all_after_stop)

  resync-Handled :
      (s s' : Syncer) (es : List Effect)
      → Handled (message resync) (forget_failed s) s' es
      → Handled (message resync) s s' es
  resync-Handled s s' es h = ground (arith, Bool-cases (with_errors s.last_patch))

  loop_call-Handled :
      (o : Option Patch) (s s' : Syncer) (es : List Effect)
      → loop_call lib now s o ≡ some (s', es)
      → Handled (message sync_loop) s s' es
  loop_call-Handled none s s' es h =
      process_then-Handled (message sync_loop) _ _ s s' es (λ b. refl) (λ b. refl) h
  loop_call-Handled (some p) s s' es h = elim (Bool-cases (with_errors (some p))) [
    | inl e ↦
        process_then-Handled (message sync_loop) _ _ s s' es (λ b. refl) (λ b. refl) (rw e at h)
    | inr e ↦
        process_then-Handled (message sync_loop) _ _ s s' es (λ b. refl) (λ b. refl) (rw e at h)
  ]

  pub handle_message-Handled :
      (m : Message) (s s' : Syncer) (es : List Effect)
      → handle_message lib now m s ≡ some (s', es)
      → Handled (message m) s s' es
  unfolding handle_message
  handle_message-Handled resync s s' es h =
      resync-Handled s s' es (
        process_then-Handled (message resync) _ _ (forget_failed s) s' es (λ b. refl) (λ b. refl) h)
  handle_message-Handled resync_dry s s' es h =
      process_then-Handled (message resync_dry) _ _ s s' es (λ b. refl) (λ b. refl) h
  handle_message-Handled sync_loop s s' es h = loop_call-Handled s.last_patch s s' es h
  handle_message-Handled _ s s' es h = ground arith
