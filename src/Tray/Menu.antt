-- ===== src/Tray/Menu.antt =====
-- app/tray/tray.go and app/tray/icons.go: the items of the menu and the icon. `t` is the translation
-- of a key. A slot that is out of range panics, which is `none`.
pub mod Slots
pub mod Icons
use cells_sync.Prelude.{
  ℕ, zero, suc, ◌+◌, String, ◌<>◌, Bool, true, false, not, ◌&&◌, ◌||◌, Option, none, some, List, [],
  ◌∷◌, map, if◌then◌else◌, ltb, leb, length, get_elem?, set,
}
use cells_sync.Control.State.{
  SyncState, TaskStatus, idle, paused, disabled, processing, error, restarting, stopping, removed,
  unnamed,
}
use cells_sync.Control.State.File.{same_status}

-- An item for a task.
pub record Slot : Type 0 where
  pub title : String
  pub tooltip : String
  pub visible : Bool
  pub enabled : Bool

-- The icon, by the text that `setIconXXX` sends.
pub data Icon : Type 0 where
  icon_idle icon_active icon_error icon_pause : Icon

-- The items that change. `pause_toggle` says that the item resumes.
pub record Menu : Type 0 where
  pub slots : List Slot
  pub open_enabled : Bool
  pub new_tasks_enabled : Bool
  pub pause_title : String
  pub pause_tooltip : String
  pub pause_toggle : Bool
  pub icon : Icon
  pub first_run : Bool

abbrev blank_slot : Slot
blank_slot = record { title = "---"; tooltip = ""; visible = false; enabled = true }

-- `hasError`, `hasProcessing` and `allPaused`.
pub record Flags : Type 0 where
  pub has_error : Bool
  pub has_processing : Bool
  pub all_paused : Bool

abbrev pub no_flags : Flags
no_flags = record { has_error = false; has_processing = false; all_paused = true }

abbrev pub is_connected : SyncState → Bool
is_connected s = s.left_info.connected && s.right_info.connected

-- The flags after a task, in the order in which the code sets them.
abbrev pub with_error : Flags → SyncState → Bool
with_error f s = f.has_error || same_status s.status error

abbrev pub is_lost : Flags → SyncState → Bool
is_lost f s = not (with_error f s) && (not s.left_info.connected || not s.right_info.connected)

abbrev pub flags_after : Flags → SyncState → Flags
flags_after f s = record {
  has_error = with_error f s || is_lost f s;
  has_processing = f.has_processing || same_status s.status processing;
  all_paused = f.all_paused && same_status s.status paused;
}

abbrev pub icon_of : Flags → Icon
icon_of f = if f.has_error then icon_error else if f.has_processing then icon_active else icon_idle

abbrev pub disable_slot : Slot → Slot
disable_slot s = record s { enabled = false }

abbrev pub enable_slot : Slot → Slot
enable_slot s = record s { enabled = true }

-- The case of a status: `true` is StatusConnected.
unfoldable pub on_status : Bool → Menu → Menu
on_status true m = record m {
  open_enabled = true;
  new_tasks_enabled = true;
  slots = map disable_slot m.slots;
}
on_status false m = record m {
  icon = icon_error;
  open_enabled = false;
  new_tasks_enabled = false;
  slots = map enable_slot m.slots;
}

-- Those with an index from `k` on are hidden.
unfoldable pub hide_from : ℕ → List Slot → List Slot
hide_from k [] = []
hide_from zero (s ∷ ss) = record s { visible = false } ∷ hide_from zero ss
hide_from (suc k) (s ∷ ss) = s ∷ hide_from k ss

-- The part before the loop. That the first run is over is also written to a file.
abbrev pub before_tasks : List SyncState → Menu → Menu
before_tasks [] m = record m { icon = icon_idle; first_run = false }
before_tasks (s ∷ ss) m = record m { first_run = false }

module _ (t : String → String) where
  -- `onReady`, up to its goroutine.
  unfoldable pub on_ready : Bool → Menu
  on_ready first_run = record {
    slots =
        blank_slot ∷ blank_slot ∷ blank_slot ∷ blank_slot ∷ blank_slot ∷ blank_slot ∷ blank_slot
        ∷ blank_slot ∷ blank_slot ∷ blank_slot ∷ [];
    open_enabled = false;
    new_tasks_enabled = true;
    pause_title = t "main.all.pause";
    pause_tooltip = t "main.all.pause.legend";
    pause_toggle = false;
    icon = icon_active;
    first_run = first_run;
  }

  abbrev noted : String → String → String
  noted key text = text <> (" (" <> (t key <> ")"))

  abbrev with_status : TaskStatus → String → String
  with_status disabled text = noted "tray.task.status.disabled" text
  with_status processing text = noted "tray.task.status.processing" text
  with_status paused text = noted "tray.task.status.paused" text
  with_status error text = noted "tray.task.status.error" text
  with_status _ text = text

  abbrev pub title_of : Flags → SyncState → String
  title_of f s =
      let text = with_status s.status s.config.label in
      if is_lost f s then noted "tray.task.status.disconnected" text else text

  abbrev pub slot_of : Flags → SyncState → Bool → Slot
  slot_of f s open_enabled = record {
    title = title_of f s;
    tooltip = s.config.uuid;
    visible = true;
    enabled = open_enabled;
  }

  -- The body of the loop over the tasks.
  abbrev pub shown_at : ℕ → Flags → SyncState → Option Slot → Menu → Option Menu
  shown_at i f s none m = none
  shown_at i f s (some old) m = some (record m {
    slots = set m.slots i (slot_of f s m.open_enabled);
    icon = icon_of (flags_after f s);
  })

  -- The loop, from the task with the index `i` on.
  unfoldable pub show_tasks : ℕ → Flags → List SyncState → Menu → Option (Menu × Flags)
  show_tasks i f [] m = some (m, f)
  show_tasks i f (s ∷ ss) m = elim (shown_at i f s (get_elem? m.slots i) m) [
    | none ↦ none
    | some m' ↦
        let rest = show_tasks (suc i) (flags_after f s) ss m' in
        if leb (length m'.slots) (suc i) then some (m', flags_after f s) else rest
  ]

  abbrev pub with_pause : List SyncState → Menu × Flags → Menu
  with_pause [] (m, f) = record m {
    pause_title = t "main.all.pause";
    pause_tooltip = t "main.all.pause.legend";
    pause_toggle = false;
  }
  with_pause (s ∷ ss) (m, f) =
      if f.all_paused
      then record m {
        icon = icon_pause;
        pause_title = t "main.all.resume";
        pause_tooltip = t "main.all.resume.legend";
        pause_toggle = true;
      }
      else record m {
        pause_title = t "main.all.pause";
        pause_tooltip = t "main.all.pause.legend";
        pause_toggle = false;
      }

  abbrev after_tasks : List SyncState → Option (Menu × Flags) → Option Menu
  after_tasks ss none = none
  after_tasks ss (some (m, f)) =
      some (with_pause ss (record m { slots = hide_from (length ss) m.slots }, f))

  -- The case of the tasks.
  unfoldable pub on_tasks : List SyncState → Menu → Option Menu
  on_tasks ss m = after_tasks ss (show_tasks 0 no_flags ss (before_tasks ss m))

  -- Whether the case of the tasks opens the view to create one.
  unfoldable pub opens_create : List SyncState → Menu → Bool
  opens_create [] m = m.first_run
  opens_create (s ∷ ss) m = false

-- The command of the item that pauses and resumes.
unfoldable pub pause_clicked : Menu → String
pause_clicked m = if m.pause_toggle then "resume" else "pause"

-- The items that can be clicked, and what the click does.
pub data Item : Type 0 where
  open_item new_tasks_item about_item resync_item pause_item quit_item : Item
  task_item : ℕ → Item

pub data Reaction : Type 0 where
  view : String → Reaction  -- spawnWebView, with its path
  command : String → Reaction  -- SendCmd
  send_halt : Reaction  -- SendHalt, and the loop ends

unfoldable pub clicked : Item → Menu → Reaction
unfolding pause_clicked
clicked open_item m = view ""
clicked new_tasks_item m = view "/create"
clicked about_item m = view "/about"
clicked (task_item i) m = view "/"
clicked resync_item m = command "loop"
clicked pause_item m = command (pause_clicked m)
clicked quit_item m = send_halt
