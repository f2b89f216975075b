-- ===== src/Control/Syncer.antt =====
-- control/syncer.go: the service that wraps a sync task. The handlers of `dispatchBus`.
-- Calls that leave the service are effects, in the order of the calls. `none` is a panic; and a call
-- through s.task or s.cmd says whether that pointer is set: where it is not, the call is a panic.
pub mod Status
pub mod Start
pub mod Messages
pub mod Connections
pub mod Stopping
pub mod Launches
pub mod Total
pub mod Endings
pub mod Starting
use cells_sync.Prelude.{
  ℕ, String, ◌<>◌, Bool, true, false, ◌&&◌, not, Option, none, some, List, [], ◌∷◌, ◌++◌,
  if◌then◌else◌, ◌>>=◌,
}
use cells_sync.Config.Types.{Url}
use cells_sync.Endpoint.Patch.{Patch}
use cells_sync.Control.Bus.{
  Message, halt, restart, interrupt, pause, resume, enable, disable, sync_loop, resync, resync_dry,
  publish_state, publish_store, restart_clean, halt_clean,
}
use cells_sync.Control.State.{
  TaskStatus, idle, paused, disabled, processing, restarting, stopping, removed, ProcessStatus,
  SyncState, MemoryStateStore, both_connected, update_connection, update_watcher_activity,
  update_endpoint_stats,
}
use cells_sync.Control.State.File.{
  FileStateStore, file_update_sync_status, file_update_process_status, close, same_status,
}

-- What the service uses of other packages: `url.Parse`, `model.NewProcessingStatus`, `SetError`.
pub record Lib : Type 0 where
  pub parse : String → Option Url
  pub new_status : String → ProcessStatus
  pub set_error : String → ProcessStatus → ProcessStatus

-- `Syncer`. A pointer of which only the nil test matters is a Boolean, `true` when it is not nil.
pub record Syncer : Type 0 where
  pub uuid : String
  pub task : Bool
  pub cmd : Bool
  pub watches : Bool
  pub config_path : String
  pub source_uri : String  -- s.task.Source.GetEndpointInfo().URI
  pub target_uri : String
  pub store : FileStateStore
  pub patch_store : Bool
  pub snap_factory : Bool
  pub task_paused : Bool
  pub last_patch : Option Patch
  pub dirty_stopped : Bool
  pub clean_snaps_after_stop : Bool
  pub clean_all_after_stop : Bool

pub data Direction : Type 0 where
  bi left_only right_only : Direction

-- The constructor and the methods of `task.Sync` that the service calls.
pub data TaskCall : Type 0 where
  create : Direction → TaskCall
  set_filters : List String → List String → TaskCall
  set_patch_listener setup_cmd setup_events set_snapshots : TaskCall
  run : Bool → Bool → TaskCall  -- dry run, force resync
  reapply : Patch → TaskCall
  pause_task resume_task shutdown : TaskCall
  start : Bool → TaskCall

pub data Effect : Type 0 where
  pub_state : SyncState → Effect
  pub_store : Effect
  pub_event : Effect
  pub_loop : Effect
  call_task : Bool → TaskCall → Effect  -- on s.task, `false` when that is nil
  cmd_interrupt : Bool → Effect  -- on s.cmd, `false` when that is nil
  cmd_stop : Effect
  unsubscribe : Effect
  close_channels : Effect
  persist : Patch → Effect
  stop_patch_store : Effect
  reset_snapshots close_snapshots : Effect
  remove_all : String → Effect
  idle_later : TaskStatus → Effect  -- the goroutine that waits three seconds

abbrev pub Outcome : Type 0
Outcome = Syncer × List Effect

abbrev pub state_of : Syncer → SyncState
state_of s = s.store.mem.state

-- `s.stateStore.UpdateSyncStatus`
abbrev pub set_status : TaskStatus → Syncer → Syncer
set_status st s = record s { store = file_update_sync_status st s.store }

-- `bus.Pub(s.stateStore.UpdateSyncStatus(st), TopicState)`
abbrev pub announce : TaskStatus → Syncer → Outcome
announce st s = let s' = set_status st s in (s', pub_state (state_of s') ∷ [])

abbrev pub with_errors : Option Patch → Bool
with_errors none = false
with_errors (some p) = elim (p.errors) [ none ↦ false | some _ ↦ true ]

-- `s.lastPatch = nil`, if that patch has errors.
abbrev pub forget_failed : Syncer → Syncer
forget_failed s = if with_errors s.last_patch then record s { last_patch = none } else s

abbrev pub with_mem : MemoryStateStore → Syncer → Syncer
with_mem m s = record s { store = record (s.store) { mem = m } }

-- The launch when both sides have become connected.
abbrev pub launch : Bool → Syncer → Outcome
launch true s = (record s { dirty_stopped = false }, call_task s.task (run false true) ∷ [])
launch false s = (s, call_task s.task (run false false) ∷ [])

-- What `model.EndpointStatus` reports.
pub data WatchConnection : Type 0 where
  watch_connected watch_disconnected watch_active watch_idle watch_stats watch_other :
      WatchConnection

pub record EndpointStatus : Type 0 where
  pub connection : WatchConnection
  pub uri : String
  pub stats : Option ℕ

-- What arrives on the topics of the service. `other` is a value of any other type.
pub data Input : Type 0 where
  message : Message → Input
  endpoint_status : EndpointStatus → Input
  other : Input

module _ (lib : Lib) (now : ℕ) where
  -- `s.stateStore.UpdateProcessStatus(p, st)`, which publishes the state.
  unfoldable pub update_process : ProcessStatus → TaskStatus → Syncer → Option Outcome
  update_process p st s = do
    store ← file_update_process_status lib.parse p (some st) now s.store
    let s' = record s { store = store }
    some (s', pub_state (state_of s') ∷ [])

  -- A process status, and then a call of the task.
  unfoldable pub process_then : String → TaskCall → Syncer → Option Outcome
  process_then text call s = do
    (s', published) ← update_process (lib.new_status text) processing s
    some (s', published ++ (call_task s.task call ∷ []))

  abbrev loop_call : Syncer → Option Patch → Option Outcome
  loop_call s none = process_then "Starting sync loop" (run false false) s
  loop_call s (some p) =
      if with_errors (some p)
      then process_then "Re-applying last patch that had errors" (reapply p) s
      else process_then "Starting sync loop" (run false false) s

  -- The cases of `dispatchBus` for the messages.
  unfoldable pub handle_message : Message → Syncer → Option Outcome
  handle_message restart s = some (announce restarting s)
  handle_message restart_clean s =
      some (announce restarting (record s { clean_snaps_after_stop = true }))
  handle_message halt s = some (announce stopping s)
  handle_message halt_clean s = some (announce stopping (record s { clean_all_after_stop = true }))
  handle_message resync s = process_then "Starting full resync" (run false true) (forget_failed s)
  handle_message resync_dry s = process_then "Dry-running sync" (run true true) s
  handle_message sync_loop s = loop_call s s.last_patch
  handle_message publish_state s = some (s, pub_state (state_of s) ∷ [])
  handle_message publish_store s = some (s, if s.patch_store then pub_store ∷ [] else [])
  handle_message interrupt s = some (s, cmd_interrupt s.cmd ∷ [])
  handle_message pause s =
      let (s', published) = announce paused (record s { task_paused = true }) in
      some (s', call_task s.task pause_task ∷ published)
  handle_message resume s =
      let (s', published) = announce idle (record s { task_paused = false }) in
      some
        (s', call_task s.task resume_task ∷ published ++ (call_task s.task (run false false) ∷ []))
  handle_message disable s =
      let (s', published) = announce disabled s in some (s', call_task s.task shutdown ∷ published)
  handle_message enable s = some (s, [])

  unfoldable pub handle_connection : Bool → String → Syncer → Option Outcome
  handle_connection c uri s = do
    m ← update_connection lib.parse c uri now s.store.mem
    let before = both_connected s.store.mem
    let after = both_connected m
    let s' = with_mem m s
    let ready = same_status m.state.status idle && after && not before
    let (s'', calls) = if ready then launch s.dirty_stopped s' else (s', [])
    some (s'', calls ++ (pub_state m.state ∷ []))

  -- The default case of `dispatchBus`.
  unfoldable pub handle_endpoint : WatchConnection → EndpointStatus → Syncer → Option Outcome
  handle_endpoint watch_connected e s = handle_connection true e.uri s
  handle_endpoint watch_disconnected e s = handle_connection false e.uri s
  handle_endpoint watch_active e s = do
    m ← update_watcher_activity lib.parse true e.uri s.store.mem
    some (with_mem m s, pub_state m.state ∷ [])
  handle_endpoint watch_idle e s = do
    m ← update_watcher_activity lib.parse false e.uri s.store.mem
    some (with_mem m s, pub_state m.state ∷ [])
  handle_endpoint watch_stats e s = do
    m ← update_endpoint_stats lib.parse e.stats e.uri s.store.mem
    some (with_mem m s, pub_state m.state ∷ [])
  handle_endpoint watch_other e s = some (s, [])

  unfoldable pub handle : Input → Syncer → Option Outcome
  handle (message m) s = handle_message m s
  handle (endpoint_status e) s = handle_endpoint e.connection e s
  handle other s = some (s, [])

-- The loop of `dispatchBus` over what arrives, each with the time of its arrival.
unfoldable pub handle_all : Lib → List (ℕ × Input) → Syncer → Option Outcome
handle_all lib [] s = some (s, [])
handle_all lib ((now, i) ∷ is) s = do
  (s', es) ← handle lib now i s
  (s'', es') ← handle_all lib is s'
  some (s'', es ++ es')

-- The end of `dispatchBus`, when the service is stopped.
unfoldable pub stop : Syncer → Outcome
stop s =
    let s' = if s.clean_all_after_stop then set_status removed s else s in
    (
      record s' { store = close s'.store },
      unsubscribe
          ∷ ((if s.task then call_task true shutdown ∷ close_channels ∷ cmd_stop ∷ [] else [])
              ++ ((if s.patch_store then stop_patch_store ∷ [] else [])
                  ++ ((if s.snap_factory
                        then (if s.clean_all_after_stop then reset_snapshots else close_snapshots)
                          ∷ []
                        else [])
                      ++ (if s.clean_all_after_stop
                          then remove_all s.config_path ∷ pub_state (state_of s') ∷ []
                          else [])))),
    )
