-- ===== src/Examples/Trays.antt =====
-- The theorems on the messages of the socket and on the tray at a concrete server and its tasks.
use cells_sync.Prelude.{◌≡◌, refl, String, true, false, none, some, List, [], ◌∷◌, inr}
use cells_sync.Control.State.{SyncState, new_memory_store, paused, removed}
use cells_sync.Control.State.{TaskStatus-discrete}
use cells_sync.Control.Http.{state_content, raw}
use cells_sync.Control.Messages.{Decoder, message_from_data, IsSound, message_from_data-IsSound}
use cells_sync.Tray.Client.{
  new_client, Frame, failed, other, text, find, delete, put, send_ordered_tasks, on_state,
  on_message, read_all,
}
use cells_sync.Tray.Client.Views.{view_all, find-read_all}
use cells_sync.Tray.Client.Shown.{shown_after, AreKnown, Agree, read_all-Agree}
use cells_sync.Tray.Menu.{Menu, Slot, on_ready, on_tasks}
use cells_sync.Tray.Menu.Slots.{with_slots, Shows, on_tasks-Shows}
use cells_sync.Tray.Menu.Icons.{IsRight, on_tasks-IsRight}
use cells_sync.Tray.Loop.{LoopEvent, status, tasks, click, Tray, ready, on_events}
use cells_sync.Tray.Loop.Commands.{commands_after, on_events-sent}
use cells_sync.Tray.Menu.{resync_item, pause_item, quit_item}
use cells_sync.Examples.Values.{task}

-- Data that names the command of the service.
abbrev decoder : Decoder String String
decoder = record {
  message = λ d. inr ("SERVICE", d);
  cmd = λ j. none;
  config = λ j. none;
  state = λ j. none;
  check = λ j. none;
  has_package = λ j. none;
  text = λ j. some j;
}

message_from_data-IsSound_example : IsSound decoder (message_from_data decoder "restart")
message_from_data-IsSound_example = message_from_data-IsSound decoder "restart"

abbrev state : SyncState
unfolding new_memory_store
state = record ((new_memory_store task).state) { status = paused }

abbrev state_frame : SyncState → Frame
state_frame s = text (record { kind = "STATE"; content = state_content s })

abbrev frames : List Frame
frames =
    text (record { kind = "PONG"; content = raw })
    ∷ state_frame state
    ∷ state_frame state
    ∷ state_frame (record state { status = removed })
    ∷ state_frame state
    ∷ other
    ∷ failed
    ∷ []

find-read_all_example :
    find task.uuid (read_all frames new_client).0.tasks
    ≡ view_all task.uuid (find task.uuid new_client.tasks) frames
unfolding new_client
find-read_all_example = find-read_all task.uuid frames new_client refl

known : AreKnown frames new_client
unfolding new_client on_message on_state find put delete send_ordered_tasks TaskStatus-discrete
    new_memory_store
known = (tt, (refl, (refl, (refl, (refl, tt)))))

read_all-Agree_example :
    Agree (shown_after [] (read_all frames new_client).1) (read_all frames new_client).0
read_all-Agree_example = read_all-Agree frames known

abbrev keys : String → String
keys k = k

abbrev slot : Slot
slot = record { title = "---"; tooltip = ""; visible = false; enabled = true }

abbrev menu : Menu
unfolding on_ready
menu = on_ready keys true

-- More tasks than items.
on_tasks-Shows_example :
    (m' : Menu) × (on_tasks keys
        (state ∷ state ∷ state ∷ [])
        (with_slots keys menu (slot ∷ slot ∷ []))
      ≡ some m')
    × Shows keys false (state ∷ state ∷ state ∷ []) m'.slots
unfolding menu
on_tasks-Shows_example = on_tasks-Shows keys (state ∷ state ∷ state ∷ []) menu slot (slot ∷ [])

on_tasks-IsRight_example :
    (m' : Menu) × (on_tasks keys (state ∷ state ∷ []) (with_slots keys menu (slot ∷ slot ∷ []))
      ≡ some m')
    × IsRight keys (state ∷ state ∷ []) m'
on_tasks-IsRight_example = on_tasks-IsRight keys (state ∷ state ∷ []) menu slot (slot ∷ [])

-- The menu gets the status of the second connection.

abbrev session : List LoopEvent
session =
    status true
    ∷ tasks (state ∷ [])
    ∷ click pause_item
    ∷ click resync_item
    ∷ click quit_item
    ∷ click pause_item
    ∷ []

on_events-sent_example :
    (b : Tray) × (on_events keys session (ready keys true) ≡ some b)
    × (b.sent ≡ commands_after keys [] session)
on_events-sent_example = on_events-sent keys session true tt
