-- ===== src/Control/State.antt =====
-- control/sync-state.go and common/common.go: the state of a sync task, kept in memory.
-- The caller gives the clock (`time.Now`) and the parser of URLs.
pub mod File
pub mod Disk
pub mod Connectivity
use cells_sync.Prelude.{
  ℕ, String, ◌<>◌, Bool, false, ◌&&◌, Option, none, some, ◌==◌, string_eq, if◌then◌else◌, ◌>>=◌,
  ℕ_discrete, not,
}
use cells_sync.Config.Types.{Task, Url}

-- `model.TaskStatus`, by the constants that the program names. Any other number is `unnamed`.
pub data TaskStatus : Type 0 where
  idle paused disabled processing error restarting stopping removed : TaskStatus
  unnamed : ℕ → TaskStatus

unfoldable pub TaskStatus-discrete : Discrete TaskStatus
TaskStatus-discrete = hlevel ℕ_discrete

-- What the program reads of a `model.Status`. `text` is its String().
pub record ProcessStatus : Type 0 where
  pub endpoint_uri : String
  pub text : String
  pub is_error : Bool
  pub progress : ℕ  -- the bits of a float32

-- `common.EndpointInfo`. The statistics are a pointer, `none` is nil. The time 0 is the zero time.
pub record EndpointInfo : Type 0 where
  pub stats : Option ℕ
  pub connected : Bool
  pub watcher_active : Bool
  pub last_connection : ℕ

-- `common.SyncState`, and a ConcreteSyncState whose Config, LeftInfo and RightInfo are set, as in every state
-- that `NewMemoryStateStore` starts. A state without them is not a value of this type.
pub record SyncState : Type 0 where
  pub uuid : String
  pub config : Task
  pub status : TaskStatus
  pub last_sync_time : ℕ
  pub last_ops_time : ℕ
  pub last_process : Option ProcessStatus
  pub left_process : Option ProcessStatus
  pub right_process : Option ProcessStatus
  pub left_info : EndpointInfo
  pub right_info : EndpointInfo

pub record MemoryStateStore : Type 0 where
  pub config : Task
  pub state : SyncState

abbrev pub new_info : EndpointInfo
new_info = record { stats = none; connected = false; watcher_active = false; last_connection = 0 }

-- `NewMemoryStateStore`
unfoldable pub new_memory_store : Task → MemoryStateStore
new_memory_store t = record {
  config = t;
  state = record {
    uuid = t.uuid;
    config = t;
    status = idle;
    last_sync_time = 0;
    last_ops_time = 0;
    last_process = none;
    left_process = none;
    right_process = none;
    left_info = new_info;
    right_info = new_info;
  };
}

-- `TouchLastOpsTime`, with the argument or the time now.
unfoldable pub touch_last_ops_time : Option ℕ → ℕ → MemoryStateStore → MemoryStateStore
touch_last_ops_time (some t) now m = record m { state = record (m.state) { last_ops_time = t } }
touch_last_ops_time none now m = record m { state = record (m.state) { last_ops_time = now } }

-- `UpdateSyncStatus`. The state that the source returns is the field `state` of the result.
unfoldable pub update_sync_status : TaskStatus → MemoryStateStore → MemoryStateStore
update_sync_status s m = record m { state = record (m.state) { status = s } }

-- `BothConnected`
unfoldable pub both_connected : MemoryStateStore → Bool
both_connected m = m.state.left_info.connected && m.state.right_info.connected

pub data Side : Type 0 where
  left right : Side

-- Writes through the pointer to the information of one side.
unfoldable pub on_side : Side → (EndpointInfo → EndpointInfo) → MemoryStateStore → MemoryStateStore
on_side left f m = record m { state = record (m.state) { left_info = f m.state.left_info } }
on_side right f m = record m { state = record (m.state) { right_info = f m.state.right_info } }

abbrev pub set_status : Option TaskStatus → SyncState → SyncState
set_status (some s) st = record st { status = s }
set_status none st = st

-- The slot that takes a process status: that of a side, or the last status of the task.
pub data Slot : Type 0 where
  endpoint : Side → Slot
  whole : Slot

abbrev pub put_process : Slot → ProcessStatus → SyncState → SyncState
put_process (endpoint left) p st = record st { left_process = some p }
put_process (endpoint right) p st = record st { right_process = some p }
put_process whole p st = record st { last_process = some p }

abbrev pub on_found :
    Option Side → (EndpointInfo → EndpointInfo) → MemoryStateStore → MemoryStateStore
on_found (some s) f m = on_side s f m
on_found none f m = m

abbrev pub url_text : Url → String
url_text u = u.scheme <> "://" <> u.host <> u.path

module _ (parse : String → Option Url) where
  -- `compareURI`. A text that is no URL leaves a nil pointer, and reading its scheme panics.
  unfoldable pub compare_uri : String → String → Option Bool
  compare_uri status config = do
    s ← parse status
    c ← parse config
    some (s.scheme == c.scheme && s.host == c.host && s.path == c.path)

  -- The test of `UpdateProcessStatus`; `&&` does not compare when there is no URI.
  unfoldable pub is_about : String → ProcessStatus → Option Bool
  is_about uri p = if not (p.endpoint_uri == "") then compare_uri uri p.endpoint_uri else some false

  unfoldable pub slot_of : Task → ProcessStatus → Option Slot
  slot_of t p = do
    l ← is_about t.left_uri p
    if l
        then some (endpoint left)
        else do r ← is_about t.right_uri p; some (if r then endpoint right else whole)

  -- `UpdateProcessStatus`. It publishes the new state on the topic of states, and returns it.
  unfoldable pub update_process_status :
      ProcessStatus → Option TaskStatus → ℕ → MemoryStateStore → Option MemoryStateStore
  update_process_status p status now m = do
    slot ← slot_of m.config p
    some (record m {
      state = set_status status (put_process slot p (record (m.state) { last_sync_time = now }));
    })

  -- `simpleURI`
  unfoldable pub simple_uri : String → Option String
  simple_uri uri = do u ← parse uri; some (u.scheme <> "://" <> u.host <> u.path)

  -- `internalInfoFromEndpointInfo`: the side whose information the URI of the endpoint selects.
  unfoldable pub side_of : Task → String → Option (Option Side)
  side_of t uri = do
    l ← simple_uri t.left_uri
    if uri == l
        then some (some left)
        else do r ← simple_uri t.right_uri; some (if uri == r then some right else none)

  -- `UpdateConnection`
  unfoldable pub update_connection : Bool → String → ℕ → MemoryStateStore → Option MemoryStateStore
  update_connection c uri now m = do
    side ← side_of m.config uri
    some (
        on_found side
          (λ i.
            let j = record i { connected = c } in
            if c then record j { last_connection = now } else j)
          m)

  -- `UpdateWatcherActivity`
  unfoldable pub update_watcher_activity :
      Bool → String → MemoryStateStore → Option MemoryStateStore
  update_watcher_activity a uri m = do
    side ← side_of m.config uri
    some (on_found side (λ i. record i { watcher_active = a }) m)

  -- `UpdateEndpointStats`
  unfoldable pub update_endpoint_stats :
      Option ℕ → String → MemoryStateStore → Option MemoryStateStore
  update_endpoint_stats s uri m = do
    side ← side_of m.config uri
    some (on_found side (λ i. record i { stats = s }) m)
