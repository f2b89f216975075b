-- ===== src/Examples/Services.antt =====
-- The theorems on the service of a sync task at concrete services.
use cells_sync.Prelude.{
  All, ℕ, ◌≡◌, refl, true, false, ◌&&◌, Option, none, some, List, [], ◌∷◌, if◌then◌else◌,
}
use cells_sync.Config.Types.{Task}
use cells_sync.Control.Bus.{Message, pause, resync, sync_loop, halt_clean}
use cells_sync.Control.State.{
  TaskStatus-discrete, idle, error, removed, update_connection, new_memory_store,
  update_sync_status, update_process_status, both_connected, side_of, simple_uri, on_side, slot_of,
  is_about, touch_last_ops_time,
}
use cells_sync.Control.State.File.{
  file_update_sync_status, file_update_process_status, new_file_store, read_last_state,
}
use cells_sync.Control.Syncer.{
  Syncer, run, Outcome, state_of, Input, message, endpoint_status, watch_connected, handle_message,
  handle_connection, handle_endpoint, handle, handle_all, stop, update_process, process_then,
}
use cells_sync.Control.Syncer.Status.{finish, idle_timer, ending, remember_patch, update_stats}
use cells_sync.Control.Syncer.Start.{new_syncer, blank, prepare, direction_of, with_start_error}
use cells_sync.Control.Syncer.Connections.{Ran, handle_all-Ran, flag_after}
use cells_sync.Control.Syncer.Total.{IsSafe, handle_all-returns}
use cells_sync.Control.Syncer.Launches.{handle_message-calls, task_calls}
use cells_sync.Control.Syncer.Messages.{cleans_all, last_published}
use cells_sync.Control.Syncer.Stopping.{any, is_removal, is_reset, stop-cleans}
use cells_sync.Control.Syncer.Endings.{persisted, timers, finish-status}
use cells_sync.Examples.Values.{lib, service, store, bad_patch, world, task, left_url, right_url}

abbrev inputs : List (ℕ × Input)
inputs =
    (1, message pause)
    ∷ (2, endpoint_status (record { connection = watch_connected; uri = "fs:///a"; stats = none }))
    ∷ (3, message halt_clean)
    ∷ []

-- All that a handler computes with.
unfoldable run_inputs : Outcome
run_inputs = service_after (handle_all lib inputs service)
  where
    service_after : Option Outcome → Outcome
    service_after none = (service, [])
    service_after (some o) = o

run_inputs_lem : handle_all lib inputs service ≡ some run_inputs
unfolding run_inputs handle_all handle handle_message handle_endpoint handle_connection
    file_update_sync_status update_connection side_of simple_uri on_side both_connected store
    new_file_store new_memory_store update_sync_status TaskStatus-discrete
run_inputs_lem = refl

handle_all-Ran_example : Ran inputs service run_inputs.0 run_inputs.1
handle_all-Ran_example = handle_all-Ran lib inputs service run_inputs.0 run_inputs.1 run_inputs_lem

handle_all-returns_example :
    (r : Outcome) × (handle_all lib inputs service ≡ some r) × All IsSafe r.1
unfolding store new_file_store new_memory_store
handle_all-returns_example =
    handle_all-returns lib (λ text. refl) inputs service refl refl
      ((left_url, refl), (right_url, refl))

stop-cleans_example :
    let asked = flag_after cleans_all inputs false in
    (any is_removal (stop run_inputs.0).1 ≡ asked)
    × (any is_reset (stop run_inputs.0).1 ≡ (true && asked))
    × (last_published (stop run_inputs.0).1
        ≡ (if asked then some (record (state_of run_inputs.0) { status = removed }) else none))
stop-cleans_example = stop-cleans lib inputs service run_inputs.0 run_inputs.1 refl run_inputs_lem

abbrev failing : Syncer
failing = record service { last_patch = some bad_patch }

-- The service after a message.
after : Message → Syncer → Outcome
after m s = elim (handle_message lib 5 m s) [ none ↦ (s, []) | some o ↦ o ]

after-resync : handle_message lib 5 resync failing ≡ some (after resync failing)
unfolding after handle_message process_then update_process file_update_process_status
    update_process_status slot_of is_about store new_file_store new_memory_store TaskStatus-discrete
after-resync = refl

after-sync_loop :
    handle_message lib 5 sync_loop (after resync failing).0
    ≡ some (after sync_loop (after resync failing).0)
unfolding after handle_message process_then update_process file_update_process_status
    update_process_status slot_of is_about store new_file_store new_memory_store TaskStatus-discrete
after-sync_loop = refl

handle_message-calls_example :
    (task_calls (after resync failing).1 ≡ (true, run false true) ∷ [])
    × ((after resync failing).0.last_patch ≡ none)
handle_message-calls_example =
    handle_message-calls lib 5 resync failing (after resync failing).0 (after resync failing).1
      after-resync

-- The service after the failing patch is done.
after_patch : Outcome
after_patch = elim (finish lib (λ n. "2") 9 none bad_patch service) [
  | none ↦ (service, [])
  | some o ↦ o
]

after_patch_lem : finish lib (λ n. "2") 9 none bad_patch service ≡ some after_patch
unfolding after_patch finish remember_patch update_stats touch_last_ops_time ending update_process
    file_update_process_status update_process_status slot_of is_about store new_file_store
    new_memory_store TaskStatus-discrete
after_patch_lem = refl

finish-status_example :
    ((state_of after_patch.0).status ≡ error)
    × (after_patch.0.last_patch ≡ some bad_patch)
    × (persisted after_patch.1 ≡ bad_patch ∷ [])
    × (timers after_patch.1 ≡ [])
finish-status_example =
    finish-status lib (λ n. "2") 9 none bad_patch service after_patch.0 after_patch.1
      after_patch_lem

-- The timer of an earlier patch, after the resync.
late_timer : Outcome
late_timer = elim (idle_timer lib (λ n. "2") 7 idle (after resync failing).0) [
  | none ↦ (failing, [])
  | some o ↦ o
]

late_timer_lem : idle_timer lib (λ n. "2") 7 idle (after resync failing).0 ≡ some late_timer
unfolding late_timer idle_timer after handle_message process_then update_process
    file_update_process_status update_process_status slot_of is_about store new_file_store
    new_memory_store TaskStatus-discrete
late_timer_lem = refl

started : Outcome
started = elim (new_syncer world lib 1 task) [ none ↦ (service, []) | some o ↦ o ]

started_lem : new_syncer world lib 1 task ≡ some (started.0, started.1)
unfolding started new_syncer blank prepare direction_of with_start_error new_file_store
    new_memory_store read_last_state TaskStatus-discrete
started_lem = refl

abbrev sideways : Task
sideways = record task { direction = "Both" }

-- The right side has reported its connection, and now the left side does.
half : Outcome
half = elim (handle_connection lib 3 true "https://cells/b" service) [
  | none ↦ (service, [])
  | some o ↦ o
]

abbrev connected : Outcome
connected = elim (handle_connection lib 4 true "fs:///a" half.0) [
  | none ↦ (service, [])
  | some o ↦ o
]

connected_lem : handle_connection lib 4 true "fs:///a" half.0 ≡ some connected
unfolding half handle_connection update_connection side_of simple_uri on_side both_connected store
    new_file_store new_memory_store TaskStatus-discrete
connected_lem = refl
