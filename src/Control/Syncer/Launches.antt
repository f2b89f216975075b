-- ===== src/Control/Syncer/Launches.antt =====
-- control/syncer.go: which runs of the task the messages and the reports of the endpoints start.
use cells_sync.Prelude.{
  ℕ, ◌≡◌, ◌∙◌, String, Bool, true, false, Option, none, some, List, [], ◌∷◌, arith, if◌then◌else◌,
  Bool-cases, inl, inr,
}
use cells_sync.Endpoint.Patch.{Patch}
use cells_sync.Control.Bus.{Message, pause, resume, disable, sync_loop, resync, resync_dry}
use cells_sync.Control.Syncer.{
  Lib, Syncer, TaskCall, run, reapply, pause_task, resume_task, shutdown, Effect, call_task,
  with_errors, forget_failed, process_then, handle_message, loop_call,
}
use cells_sync.Control.Syncer.Messages.{process_then-eq-some}

-- The calls of the task among the effects, with the test that the task is not nil.
abbrev pub task_calls : List Effect → List (Bool × TaskCall)
task_calls [] = []
task_calls (call_task b c ∷ es) = (b, c) ∷ task_calls es
task_calls (e ∷ es) = task_calls es

-- What a loop does: the last patch once more, if it had errors.
abbrev pub loop_run : Option Patch → TaskCall
loop_run none = run false false
loop_run (some p) = if with_errors (some p) then reapply p else run false false

-- The calls of the task that each message asks for.
abbrev pub calls_of : Message → Option Patch → List TaskCall
calls_of resync p = run false true ∷ []
calls_of resync_dry p = run true true ∷ []
calls_of sync_loop p = loop_run p ∷ []
calls_of pause p = pause_task ∷ []
calls_of resume p = resume_task ∷ run false false ∷ []
calls_of disable p = shutdown ∷ []
calls_of m p = []

-- The patch that is kept for the next loop.
abbrev pub kept : Message → Option Patch → Option Patch
kept resync p = if with_errors p then none else p
kept m p = p

abbrev pub on_task : Bool → List TaskCall → List (Bool × TaskCall)
on_task b [] = []
on_task b (c ∷ cs) = (b, c) ∷ on_task b cs

module _ (lib : Lib) (now : ℕ) where
  abbrev Launches : Message → Syncer → Syncer → List Effect → Type 0
  Launches m s s' es =
      (task_calls es ≡ on_task s.task (calls_of m s.last_patch))
      × (s'.last_patch ≡ kept m s.last_patch)

  process_then-calls :
      (text : String) (call : TaskCall) (s s' : Syncer) (es : List Effect)
      → process_then lib now text call s ≡ some (s', es)
      → (task_calls es ≡ (s.task, call) ∷ []) × (s'.last_patch ≡ s.last_patch)
  process_then-calls text call s s' es h =
      let (store, q) = process_then-eq-some lib now text call s h in ground (arith, q)

  loop_call-calls :
      (o : Option Patch) (s s' : Syncer) (es : List Effect)
      → loop_call lib now s o ≡ some (s', es)
      → (task_calls es ≡ (s.task, loop_run o) ∷ []) × (s'.last_patch ≡ s.last_patch)
  loop_call-calls none s s' es h = process_then-calls _ _ s s' es h
  loop_call-calls (some p) s s' es h = elim (Bool-cases (with_errors (some p))) [
    | inl e ↦ rw e (process_then-calls _ _ s s' es (rw e at h))
    | inr e ↦ rw e (process_then-calls _ _ s s' es (rw e at h))
  ]

  -- Every message that is handled makes exactly the calls of the task that the table `calls_of`
  -- gives, on the task of the service, and keeps the last patch but for a resync after errors.
  pub handle_message-calls :
      (m : Message) (s s' : Syncer) (es : List Effect)
      → handle_message lib now m s ≡ some (s', es)
      → (task_calls es ≡ on_task s.task (calls_of m s.last_patch))
        × (s'.last_patch ≡ kept m s.last_patch)
  unfolding handle_message
  handle_message-calls resync s s' es h =
      let (calls, patch) = process_then-calls _ _ (forget_failed s) s' es h in
      ground (arith, calls, patch, Bool-cases (with_errors s.last_patch))
  handle_message-calls resync_dry s s' es h = process_then-calls _ _ s s' es h
  handle_message-calls sync_loop s s' es h = loop_call-calls s.last_patch s s' es h
  handle_message-calls _ s s' es h = ground arith

-- While the last patch has errors, a loop re-applies it and keeps it. A full resync forgets it,
-- so the loop that follows the resync is a plain one.
pub resync-forgets :
    (lib : Lib) (now later : ℕ) (s s' s'' : Syncer) (es es' : List Effect)
    → with_errors s.last_patch ≡ true
    → handle_message lib now resync s ≡ some (s', es)
    → handle_message lib later sync_loop s' ≡ some (s'', es')
    → (task_calls es ≡ (s.task, run false true) ∷ [])
      × (s'.last_patch ≡ none)
      × (task_calls es' ≡ (s'.task, run false false) ∷ [])
resync-forgets lib now later s s' s'' es es' bad h h' =
    let (calls, patch) = handle_message-calls lib now resync s s' es h in
    let (calls', patch') = handle_message-calls lib later sync_loop s' s'' es' h' in
    let gone : s'.last_patch ≡ none = patch ∙ rw bad in (calls, gone, rw gone at calls')
