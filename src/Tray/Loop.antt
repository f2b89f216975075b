-- ===== src/Tray/Loop.antt =====
-- app/tray/tray.go: the goroutine of `onReady`, which reacts to what the client sends and to the clicks.
pub mod Commands
use cells_sync.Prelude.{
  String, Bool, true, false, Option, none, some, List, [], ◌∷◌, ◌++◌, if◌then◌else◌, ◌>>=◌,
}
use cells_sync.Control.State.{SyncState}
use cells_sync.Tray.Menu.{
  Menu, on_ready, on_status, on_tasks, opens_create, Item, Reaction, view, command, send_halt,
  clicked,
}

-- The cases of the select. What the bus sends is never a CommandMessage, so its case does nothing.
pub data LoopEvent : Type 0 where
  bus_message client_error : LoopEvent
  status : Bool → LoopEvent
  tasks : List SyncState → LoopEvent
  partial_tasks : LoopEvent  -- tasks, and the loop reads a LeftInfo or RightInfo of theirs that is nil
  click : Item → LoopEvent

-- The menu, the commands that were sent, whether the halt was, and the views that were opened. The loop
-- ends with the halt.
pub record Tray : Type 0 where
  pub menu : Menu
  pub sent : List String
  pub halted : Bool
  pub views : List String

abbrev pub react : Reaction → Tray → Tray
react (view path) a = record a { views = a.views ++ (path ∷ []) }
react (command cmd) a = record a { sent = a.sent ++ (cmd ∷ []) }
react send_halt a = record a { halted = true }

module _ (t : String → String) where
  -- Before the first event.
  unfoldable pub ready : Bool → Tray
  ready first_run = record { menu = on_ready t first_run; sent = []; halted = false; views = [] }

  abbrev pub with_menu : List SyncState → Tray → Option Menu → Option Tray
  with_menu ss a none = none
  with_menu ss a (some m) = some (record a {
    menu = m;
    views = if opens_create t ss a.menu then a.views ++ ("/create" ∷ []) else a.views;
  })

  -- One event of a loop that has not ended.
  abbrev pub on_case : LoopEvent → Tray → Option Tray
  on_case bus_message a = some a
  on_case client_error a = some a
  on_case partial_tasks a = none
  on_case (status b) a = some (record a { menu = on_status b a.menu })
  on_case (tasks ss) a = with_menu ss a (on_tasks t ss a.menu)
  on_case (click i) a = some (react (clicked i a.menu) a)

  unfoldable pub on_event : LoopEvent → Tray → Option Tray
  on_event e a = if a.halted then some a else on_case e a

  unfoldable pub on_events : List LoopEvent → Tray → Option Tray
  on_events [] a = some a
  on_events (e ∷ es) a = on_event e a >>= λ b. on_events es b
