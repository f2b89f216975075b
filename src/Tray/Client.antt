-- ===== src/Tray/Client.antt =====
-- app/tray/client.go: the client of the web socket, and the tasks that it knows. A method takes the
-- client and what the socket answers, and gives the client and the list of its effects.
pub mod Views
pub mod Entries
pub mod Shown
use cells_sync.Prelude.{
  String, Bool, true, false, not, ◌&&◌, ◌||◌, Option, none, some, List, [], ◌∷◌, ◌++◌, map, ◌==◌,
  string_eq, bool_eq, if◌then◌else◌,
}
use cells_sync.Go.Order.{sort_slice}
use cells_sync.Control.State.{SyncState, removed}
use cells_sync.Control.State.File.{same_status}
use cells_sync.Control.Http.{Content, state_content, SocketMessage}

-- `Client`. The map of the tasks is a list with distinct keys.
pub record Client : Type 0 where
  pub has_conn : Bool
  pub closing : Bool
  pub tasks : List (String × SyncState)

-- What goes to the channels, to the socket and to the process.
pub data Effect : Type 0 where
  send_status : Bool → Effect  -- `true` is StatusConnected
  send_tasks : List SyncState → Effect
  write : String → Effect
  write_cmd : String → String → Effect  -- UUID, Cmd
  write_route : String → Effect
  start_reconnect close_conn cancel_view log_error before_exit quit quit_later : Effect

-- What `ReadMessage` gives: an error, a message that is not a text, or a text, parsed.
pub data Frame : Type 0 where
  failed other : Frame
  text : SocketMessage → Frame

-- `NewClient`
unfoldable pub new_client : Client
new_client = record { has_conn = false; closing = false; tasks = [] }

module _ {A : Type 0} where
  unfoldable pub find : String → List (String × A) → Option A
  find u [] = none
  find u ((v, s) ∷ m) = let rest = find u m in if v == u then some s else rest

  unfoldable pub delete : String → List (String × A) → List (String × A)
  delete u [] = []
  delete u ((v, s) ∷ m) = let rest = delete u m in if v == u then rest else (v, s) ∷ rest

  unfoldable pub put : String → A → List (String × A) → List (String × A)
  put u s [] = (u, s) ∷ []
  put u s ((v, t) ∷ m) = let rest = (v, t) ∷ put u s m in if v == u then (u, s) ∷ m else rest

  abbrev pub has : Option A → Bool
  has none = false
  has (some s) = true

  abbrev pub values : List (String × A) → List A
  values [] = []
  values ((u, s) ∷ m) = s ∷ values m

abbrev pub label : SyncState → String
label s = s.config.label

-- `SendOrderedTasks`
unfoldable pub send_ordered_tasks : Client → Effect
send_ordered_tasks c = send_tasks (sort_slice label (values c.tasks))

-- Does the tray need to know?
abbrev pub has_changed : Option SyncState → SyncState → Bool
has_changed none s = true
has_changed (some p) s =
    not (same_status p.status s.status)
    || not (p.left_info.connected == s.left_info.connected)
    || not (p.right_info.connected == s.right_info.connected)

abbrev pub is_removal : Option SyncState → SyncState → Bool
is_removal p s = same_status s.status removed && has p

-- The case "STATE".
abbrev pub with_state : Option SyncState → SyncState → Client → Client
with_state p s c = record c {
  tasks = if is_removal p s then delete s.config.uuid c.tasks else put s.config.uuid s c.tasks;
}

unfoldable pub on_state : SyncState → Client → Client × List Effect
unfolding find delete put send_ordered_tasks
on_state s c =
    let p = find s.config.uuid c.tasks in
    let c' = with_state p s c in (c', if has_changed p s then send_ordered_tasks c' ∷ [] else [])

abbrev pub on_content : Content → Client → Client × List Effect
on_content (state_content s) c = on_state s c
on_content _ c = (c, [])

unfoldable pub on_message : SocketMessage → Client → Client × List Effect
on_message m c =
    if m.kind == "STATE"
    then on_content m.content c
    else if m.kind == "PONG"
    then (record c { tasks = [] }, send_ordered_tasks (record c { tasks = [] }) ∷ [])
    else if m.kind == "ERROR"
    then (c, log_error ∷ [])
    else (c, [])

-- The loop of `bindConn`.
unfoldable pub read_all : List Frame → Client → Client × List Effect
read_all [] c = (c, [])
read_all (failed ∷ fs) c =
    if c.closing then (c, []) else (c, send_status false ∷ start_reconnect ∷ [])
read_all (other ∷ fs) c = let rest = read_all fs c in if c.closing then (c, []) else rest
read_all (text m ∷ fs) c =
    let (c', es) = on_message m c in
    let (c'', es') = read_all fs c' in if c.closing then (c, []) else (c'', es ++ es')

-- `bindConn`, up to its goroutine.
unfoldable pub bind_conn : Client → Client × List Effect
bind_conn c = (record c { has_conn = true }, write "PING" ∷ [])

-- `Close`
unfoldable pub close : Client → Client × List Effect
close c = (record c { closing = true }, if c.has_conn then close_conn ∷ [] else [])

-- `SendCmd` and `SendRoute`. `ok` says whether the socket takes the message.
unfoldable pub send_cmd : Bool → String → String → Client → List Effect
send_cmd ok u cmd c = if c.has_conn && ok then write_cmd u cmd ∷ [] else log_error ∷ []

unfoldable pub send_route : Bool → String → Client → List Effect
send_route ok route c = if c.has_conn && ok then write_route route ∷ [] else log_error ∷ []

-- `SendHalt`, when the view is open or not.
unfoldable pub send_halt : Bool → Bool → Client → List Effect
send_halt view ok c =
    (if view then cancel_view ∷ [] else [])
    ++ (if c.has_conn && ok
        then write_cmd "" "quit" ∷ quit_later ∷ []
        else log_error ∷ before_exit ∷ quit ∷ [])
