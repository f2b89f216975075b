-- ===== src/Control/Syncer/Endings.antt =====
-- control/syncer.go: what the end of a patch leaves behind.
use cells_sync.Prelude.{
  ℕ, ◌≡◌, refl, ◌∙◌, String, Bool, true, false, ◌&&◌, ◌||◌, not, Option, none, some, List, [], ◌∷◌,
  arith, if◌then◌else◌, ltb, Bool-cases, inl, inr, >>=-eq-some,
}
use cells_sync.Config.Types.{Url}
use cells_sync.Endpoint.Patch.{Patch}
use cells_sync.Control.Bus.{resync}
use cells_sync.Control.State.{
  TaskStatus, error, processing, ProcessStatus, MemoryStateStore, slot_of, update_process_status,
  update_endpoint_stats,
}
use cells_sync.Control.State.File.{FileStateStore, file_update_process_status, start_send}
use cells_sync.Control.Syncer.{
  Lib, Syncer, Effect, pub_state, persist, idle_later, state_of, with_mem, update_process,
  handle_message, process_then, forget_failed, with_errors,
}
use cells_sync.Control.Syncer.Status.{
  idle_status, ending, update_stats, remember_patch, finish, after_patch, idle_timer, Stats,
}
use cells_sync.Control.Syncer.Messages.{update_process-eq-some}

status-memory :
    (parse : String → Option Url) (p : ProcessStatus) (st : TaskStatus) (now : ℕ)
    (m : MemoryStateStore) {m' : MemoryStateStore}
    → update_process_status parse p (some st) now m ≡ some m'
    → m'.state.status ≡ st
unfolding update_process_status
status-memory parse p st now m h =
    let (slot, e, r) = >>=-eq-some (slot_of parse m.config p) _ h in ground (arith, r)

status-file :
    (parse : String → Option Url) (p : ProcessStatus) (st : TaskStatus) (now : ℕ)
    (f : FileStateStore) {f' : FileStateStore}
    → file_update_process_status parse p (some st) now f ≡ some f'
    → f'.mem.state.status ≡ st
unfolding file_update_process_status
status-file parse p st now f h =
    let (m, e, r) =
      >>=-eq-some (update_process_status parse p (some st) now (start_send st f).mem) _ h in
    ground (arith, r, status-memory parse p st now (start_send st f).mem e)

module _ (lib : Lib) (now : ℕ) where
  -- Whatever the status was, an update of the process status sets the one that it is given.
  pub status-update_process :
      (p : ProcessStatus) (st : TaskStatus) (s s' : Syncer) (es : List Effect)
      → update_process lib now p st s ≡ some (s', es)
      → (state_of s').status ≡ st
  unfolding update_process
  status-update_process p st s s' es h =
      let (f, e, r) =
        >>=-eq-some (file_update_process_status lib.parse p (some st) now s.store) _ h in
      ground (arith, r, status-file lib.parse p st now s.store e)

  update_stats-eq-some :
      (stats : Stats) (s s' : Syncer)
      → update_stats lib stats s ≡ some s'
      → (m : MemoryStateStore) × (s' ≡ with_mem m s)
  unfolding update_stats
  update_stats-eq-some none s s' h = (s.store.mem, ground arith)
  update_stats-eq-some (some table) s s' h =
      let (m, _, r) =
        >>=-eq-some (update_endpoint_stats lib.parse (table s.source_uri) s.source_uri s.store.mem)
          _ h in
      let (m', _, r') =
        >>=-eq-some (update_endpoint_stats lib.parse (table s.target_uri) s.target_uri m) _ r in
      (m', ground (arith, r'))

  remember_patch-eq-some :
      (stats : Stats) (p : Patch) (s s' : Syncer)
      → remember_patch lib now stats p s ≡ some s'
      → (m : MemoryStateStore) × (s'
          ≡ with_mem m (if ltb 0 p.size then record s { last_patch = some p } else s))
  unfolding remember_patch
  remember_patch-eq-some stats p s s' h = elim (Bool-cases (ltb 0 p.size)) [
    | inl e ↦ let (m, r) = update_stats-eq-some stats _ s' (rw e at h) in (m, r ∙ rw e refl)
    | inr e ↦ (s.store.mem, ground (arith, e))
  ]

-- The two ways in which a patch tells that it failed.
abbrev pub given : Option ℕ → Bool
given none = false
given (some n) = true

abbrev pub failed : Patch → Bool
failed p = given p.stats_errors || with_errors (some p)

abbrev pub persisted : List Effect → List Patch
persisted [] = []
persisted (persist p ∷ es) = p ∷ persisted es
persisted (e ∷ es) = persisted es

abbrev pub timers : List Effect → List TaskStatus
timers [] = []
timers (idle_later st ∷ es) = st ∷ timers es
timers (e ∷ es) = timers es

ending-status :
    (decimal : ℕ → String) (s : Syncer) (p : Patch)
    → (ending decimal s p).status ≡ (if failed p then error else idle_status s)
unfolding ending
ending-status decimal s p = ground arith

ending-defer_idle :
    (decimal : ℕ → String) (s : Syncer) (p : Patch)
    → (ending decimal s p).defer_idle ≡ (not (failed p) && given p.stats_processed)
unfolding ending
ending-defer_idle decimal s p = ground arith

persisted-after_patch :
    (s : Syncer) (p : Patch) (later : Bool)
    → persisted (after_patch s p later) ≡ (if s.patch_store then p ∷ [] else [])
persisted-after_patch s p later = ground arith

timers-after_patch :
    (s : Syncer) (p : Patch) (later : Bool)
    → timers (after_patch s p later) ≡ (if later then idle_status s ∷ [] else [])
timers-after_patch s p later = ground arith

module _ (lib : Lib) (decimal : ℕ → String) (now : ℕ) where
  -- When a patch is done, and the service does not panic on it: the task is in error if and only if
  -- the patch failed, by its statistics or by its own errors, and else it is idle, or paused if it
  -- was paused; the patch is kept for the next loop if and only if it has operations, and stored if
  -- and only if there is a store; and "Idle" follows later if and only if the patch did not fail and
  -- tells how many files it processed.
  pub finish-status :
      (stats : Stats) (p : Patch) (s s' : Syncer) (es : List Effect)
      → finish lib decimal now stats p s ≡ some (s', es)
      → ((state_of s').status ≡ (if failed p then error else idle_status s))
        × (s'.last_patch ≡ (if ltb 0 p.size then some p else s.last_patch))
        × (persisted es ≡ (if s.patch_store then p ∷ [] else []))
        × (timers es
            ≡ (if not (failed p) && given p.stats_processed then idle_status s ∷ [] else []))
  unfolding finish
  finish-status stats p s s' es h =
      let (t, e, r) = >>=-eq-some (remember_patch lib now stats p s) _ h in
      let (m, q) = remember_patch-eq-some lib now stats p s t e in
      let end = ending decimal s p in
      let (o, e', r') =
        >>=-eq-some (update_process lib now (lib.new_status end.text) end.status t) _ r in
      let (store, q') = update_process-eq-some lib now (lib.new_status end.text) end.status t e' in
      let reached =
        status-update_process lib now (lib.new_status end.text) end.status t o.0 o.1 e' in
      let es_eq : es ≡ pub_state store.mem.state ∷ after_patch s p end.defer_idle =
        ground (arith, r', q') in
      let s_eq : s' ≡ o.0 = ground (arith, r') in
      (
        rw s_eq (reached ∙ ending-status decimal s p),
        rw s_eq (ground (arith, q, q')),
        rw es_eq (persisted-after_patch s p end.defer_idle),
        rw es_eq (timers-after_patch s p end.defer_idle ∙ rw (ending-defer_idle decimal s p)),
      )

  -- The timer of an earlier patch does not look at what the task does by then: if a full resync
  -- has been started in between, it sets the status that it was given all the same, so a task that
  -- is processing is reported as idle.
  pub idle_timer-overrides :
      (later : ℕ) (st : TaskStatus) (s s' s'' : Syncer) (es es' : List Effect)
      → handle_message lib now resync s ≡ some (s', es)
      → idle_timer lib decimal later st s' ≡ some (s'', es')
      → ((state_of s').status ≡ processing) × ((state_of s'').status ≡ st)
  unfolding handle_message process_then idle_timer
  idle_timer-overrides later st s s' s'' es es' h h' =
      let (o, e, r) =
        >>=-eq-some
          (update_process lib now (lib.new_status "Starting full resync") processing
            (forget_failed s))
          _ h in
      (
        ground (arith, r, status-update_process lib now _ processing (forget_failed s) o.0 o.1 e),
        status-update_process lib later _ st s' s'' es' h',
      )
