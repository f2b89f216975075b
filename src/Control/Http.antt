-- ===== src/Control/Http.antt =====
-- control/http-server.go and the messages of common/common.go: the server of the web interface.
-- Sockets, JSON and the bus are outside: what arrives is a value, and what is sent is an effect.
pub mod Routing
pub mod States
pub mod Patches
pub mod Exits
pub mod Trees
pub mod Logs
pub mod Session
pub mod Serving
pub mod Settings
use cells_sync.Prelude.{
  ℕ, String, Bool, true, false, ◌&&◌, ◌||◌, not, Option, none, some, List, [], ◌∷◌, ◌++◌,
  if◌then◌else◌, ◌==◌, string_eq, ltb, length, drop,
}
use cells_sync.Config.Types.{Task, Authority}
use cells_sync.Control.Bus.{
  Message, halt, restart, publish_state, Topic, global, sync_all, sync, message_from_string,
}
use cells_sync.Control.State.{SyncState, ProcessStatus, TaskStatus, processing}
use cells_sync.Control.State.File.{same_status}

-- The content of a message, once `MessageFromData` has found its type. `raw` is any other content.
pub data Content : Type 0 where
  cmd_content : String → String → Content  -- UUID, Cmd
  config_content : String → Option Task → Option Authority → Content
  check_request : Bool → Bool → Content  -- Check, Version
  apply_request : Content
  state_content : SyncState → Content
  raw : Content

-- `common.Message`
pub record SocketMessage : Type 0 where
  pub kind : String
  pub content : Content

-- What a handler does. Publications are in goroutines but for the global topic.
pub data Effect : Type 0 where
  write_pong : Effect
  write_authorities : Effect
  write_version : Effect
  broadcast_back : Effect
  publish : Message → Topic → Effect
  publish_update : Content → Effect
  create_task update_task remove_task : Task → Effect
  create_authority update_authority remove_authority : Authority → Effect
  log_error : Effect

-- The commands that go to the supervisor.
abbrev pub is_global : Message → Bool
is_global halt = true
is_global restart = true
is_global _ = false

-- The case "CMD".
abbrev pub route : String → Message → Effect
route u m =
    if not (u == "")
    then publish m (sync u)
    else if is_global m
    then publish m global
    else publish m sync_all

abbrev pub route_parsed : String → Option Message → List Effect
route_parsed u none = []
route_parsed u (some m) = route u m ∷ []

unfoldable pub handle_cmd : Content → List Effect
handle_cmd (cmd_content u text) = route_parsed u (message_from_string text)
handle_cmd (config_content c t a) = []
handle_cmd (check_request c v) = []
handle_cmd apply_request = []
handle_cmd (state_content s) = []
handle_cmd raw = []

-- The case "CONFIG". `new_uuid` is what `uuid.New()` gives.
abbrev pub task_command : String → String → Task → List Effect
task_command new_uuid c t =
    if c == "create"
    then create_task (record t { uuid = new_uuid }) ∷ []
    else if c == "edit"
    then update_task t ∷ []
    else if c == "delete"
    then remove_task t ∷ []
    else []

abbrev pub authority_command : String → Option Authority → List Effect
authority_command c none = []
authority_command c (some a) =
    if c == "create"
    then create_authority a ∷ []
    else if c == "edit"
    then update_authority a ∷ []
    else if c == "delete"
    then remove_authority a ∷ []
    else if c == "list"
    then write_authorities ∷ []
    else []

unfoldable pub handle_config : String → Content → List Effect
handle_config new_uuid (config_content c (some t) a) = task_command new_uuid c t
handle_config new_uuid (config_content c none a) = authority_command c a
handle_config new_uuid (cmd_content u text) = []
handle_config new_uuid (check_request c v) = []
handle_config new_uuid apply_request = []
handle_config new_uuid (state_content s) = []
handle_config new_uuid raw = []

-- The case "UPDATE".
unfoldable pub handle_update : Content → List Effect
handle_update (check_request c v) =
    if c then publish_update (check_request c v) ∷ [] else if v then write_version ∷ [] else []
handle_update apply_request = publish_update apply_request ∷ []
handle_update (cmd_content u text) = []
handle_update (config_content c t a) = []
handle_update (state_content s) = []
handle_update raw = []

-- The handler of the messages of the socket.
unfoldable pub handle_socket : String → SocketMessage → List Effect
handle_socket new_uuid m =
    if m.kind == "PING"
    then write_pong ∷ publish publish_state sync_all ∷ write_authorities ∷ []
    else if m.kind == "WEBVIEW_ROUTE"
    then broadcast_back ∷ []
    else if m.kind == "CMD"
    then handle_cmd m.content
    else if m.kind == "CONFIG"
    then handle_config new_uuid m.content
    else if m.kind == "UPDATE"
    then handle_update m.content
    else log_error ∷ []

-- The arithmetic of float32 that `drop` uses, on bits.
pub record Floats : Type 0 where
  pub zero : ℕ
  pub one : ℕ
  pub less : ℕ → ℕ → Bool
  pub is_small_step : ℕ → ℕ → Bool  -- old and new: new - old <= 0.001

module _ (F : Floats) where
  abbrev pub progress_of : Option ProcessStatus → ℕ
  progress_of none = F.zero
  progress_of (some p) = p.progress

  abbrev pub is_busy : SyncState → Bool
  is_busy s = same_status s.status processing

  abbrev pub too_close : ℕ → ℕ → Bool
  too_close old new =
      F.less F.zero new && F.less new F.one && F.less F.zero old && F.is_small_step old new

  abbrev small_step : SyncState → Option ProcessStatus → Bool
  small_step last none = false
  small_step last (some p) = too_close (progress_of last.last_process) p.progress

  -- `drop`, for the last state (`none` is the zero state that the server starts with).
  unfoldable pub drop_state : Option SyncState → SyncState → Bool
  drop_state none s = false
  drop_state (some last) s =
      if is_busy last && is_busy s then small_step last s.last_process else false

  -- `ListenStatus`: the states that are broadcast. Every state becomes the last one.
  unfoldable pub listen_status : Option SyncState → List SyncState → List SyncState
  listen_status last [] = []
  listen_status last (s ∷ ss) =
      let rest = listen_status (some s) ss in if drop_state last s then rest else s ∷ rest

-- A line of the logs, of which the last 200 are kept.
unfoldable pub push_log {ℓ} : {A : Type ℓ} → A → List A → List A
push_log line logs =
    if ltb (length logs) 200 then logs ++ (line ∷ []) else drop 1 logs ++ (line ∷ [])

unfoldable pub push_logs {ℓ} : {A : Type ℓ} → List A → List A → List A
push_logs [] logs = logs
push_logs (line ∷ lines) logs = push_logs lines (push_log line logs)
