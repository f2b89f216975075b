-- ===== src/Control/Syncer/Status.antt =====
-- control/syncer.go: `dispatchStatus`, which follows the running task.
use cells_sync.Prelude.{
  ℕ, String, ◌<>◌, Bool, true, false, Option, none, some, List, [], ◌∷◌, ◌++◌, if◌then◌else◌, ◌>>=◌,
  ltb, length,
}
use cells_sync.Endpoint.Patch.{Patch}
use cells_sync.Control.State.{
  TaskStatus, idle, paused, processing, error, ProcessStatus, touch_last_ops_time,
  update_endpoint_stats,
}
use cells_sync.Control.Syncer.{
  Lib, Syncer, Effect, pub_event, pub_loop, persist, idle_later, Outcome, update_process, with_mem,
}

-- `idleStatus`
abbrev pub idle_status : Syncer → TaskStatus
idle_status s = if s.task_paused then paused else idle

-- What ends the processing of a patch: the status of the task, and whether "Idle" follows later.
pub record Ending : Type 0 where
  pub text : String
  pub status : TaskStatus
  pub defer_idle : Bool

-- `dispatchStatus` asks for the statistics of the two roots; `none` is an error, and the argument
-- of the table is the URI of an endpoint (a missing key gives nil).
abbrev pub Stats : Type 0
Stats = Option (String → Option ℕ)

-- What arrives on the channels. `done_other` is a value on `patchDone` that is no patch.
pub data Report : Type 0 where
  progress : ProcessStatus → Report
  done : Patch → Stats → Report
  done_other : Report
  event : Report
  timeout : Report

-- What follows the last update of the status: the patch is stored, and "Idle" may come later.
abbrev pub after_patch : Syncer → Patch → Bool → List Effect
after_patch s p later =
    (if s.patch_store then persist p ∷ [] else [])
    ++ (if later then idle_later (idle_status s) ∷ [] else [])

-- `fmt.Sprintf` with the verb %d is the parameter `decimal`.
unfoldable pub ending : (ℕ → String) → Syncer → Patch → Ending
ending decimal s p = elim (p.stats_errors) [
  | some total ↦ record {
    text = "Processing ended on error (" <> decimal total <> " errors)!";
    status = error;
    defer_idle = false;
  }
  | none ↦ elim (p.errors) [
    | some errs ↦ record {
      text = "Processing ended with " <> decimal (length errs) <> " errors!";
      status = error;
      defer_idle = false;
    }
    | none ↦ elim (p.stats_processed) [
      | some total ↦ record {
        text = "Finished Processing " <> decimal total <> " files and folders";
        status = idle_status s;
        defer_idle = true;
      }
      | none ↦ record { text = "Idle"; status = idle_status s; defer_idle = false }
    ]
  ]
]

module _ (lib : Lib) where
  -- The statistics of the two roots, after a patch that has operations.
  unfoldable pub update_stats : Stats → Syncer → Option Syncer
  update_stats none s = some s
  update_stats (some table) s = do
    m ← update_endpoint_stats lib.parse (table s.source_uri) s.source_uri s.store.mem
    m' ← update_endpoint_stats lib.parse (table s.target_uri) s.target_uri m
    some (with_mem m' s)

  unfoldable pub remember_patch : ℕ → Stats → Patch → Syncer → Option Syncer
  remember_patch now stats p s =
      if ltb 0 p.size
      then update_stats stats
          (with_mem (touch_last_ops_time none now s.store.mem) (record s { last_patch = some p }))
      else some s

module _ (lib : Lib) (decimal : ℕ → String) where
  -- The case of `patchDone` for a patch.
  unfoldable pub finish : ℕ → Stats → Patch → Syncer → Option Outcome
  finish now stats p s = do
    s' ← remember_patch lib now stats p s
    let end = ending decimal s p
    (s'', published) ← update_process lib now (lib.new_status end.text) end.status s'
    some (s'', published ++ after_patch s p end.defer_idle)

  -- The cases of `dispatchStatus`.
  unfoldable pub handle_report : ℕ → Report → Syncer → Option Outcome
  handle_report now (progress p) s = update_process lib now p processing s
  handle_report now (done p stats) s = finish now stats p s
  handle_report now done_other s = some (s, idle_later (idle_status s) ∷ [])
  handle_report now event s = some (s, pub_event ∷ [])
  handle_report now timeout s = some (s, pub_loop ∷ [])

  -- The goroutine that `idle_later` has started, after its three seconds.
  unfoldable pub idle_timer : ℕ → TaskStatus → Syncer → Option Outcome
  idle_timer now st s = update_process lib now (lib.new_status "Idle") st s
