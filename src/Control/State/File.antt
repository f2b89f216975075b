-- ===== src/Control/State/File.antt =====
-- control/sync-state.go: the store that also keeps the status in a file that stays open.
-- A status is sent to the file by a goroutine of its own, through a channel with room for one.
-- The numbers of the statuses (`int(s)`, `model.TaskStatus(i)`) are parameters.
use cells_sync.Prelude.{
  ℕ, String, Bool, true, false, ◌&&◌, not, Option, none, some, List, [], ◌∷◌, ◌++◌, ◌==◌, nat_eq,
  if◌then◌else◌, length, drop, pick, ◌>>=◌,
}
use mathlib.Core.Logic.{ite}
use cells_sync.Go.Strconv.{itoa, atoi}
use cells_sync.Config.Types.{Task, Url}
use cells_sync.Control.State.{
  TaskStatus, TaskStatus-discrete, idle, ProcessStatus, MemoryStateStore, new_memory_store,
  update_sync_status, update_process_status,
}

pub record FileStateStore : Type 0 where
  pub mem : MemoryStateStore
  pub previous_state : TaskStatus
  pub file_error : Bool
  pub starting : List TaskStatus  -- goroutines that have not yet read `fileClosed`
  pub sending : List TaskStatus  -- goroutines at `f.fileState <- s`
  pub file_state : Option TaskStatus  -- the buffer of the channel
  pub done : Bool  -- the channel `done` is closed
  pub file_closed : Bool
  pub panicked : Bool
  pub file : List ℕ

-- `strings.Trim(s, "\n")`
trim_start : List ℕ → List ℕ
trim_start [] = []
trim_start (c ∷ cs) = let rest = trim_start cs in if c == 10 then rest else c ∷ cs

trim_end : List ℕ → List ℕ
trim_end [] = []
trim_end (c ∷ cs) = elim (trim_end cs) [ [] ↦ if c == 10 then [] else c ∷ [] | d ∷ ds ↦ c ∷ d ∷ ds ]

unfoldable pub trim : List ℕ → List ℕ
unfolding trim_start trim_end
trim s = trim_end (trim_start s)

-- `file.WriteAt(b, 0)`: what stood behind the written bytes stays.
unfoldable pub write_at_start : List ℕ → List ℕ → List ℕ
write_at_start b old = b ++ drop (length b) old

abbrev pub same_status : TaskStatus → TaskStatus → Bool
same_status a b = ite (TaskStatus-discrete a b) true false

-- What the goroutines and `listenToState` may do next.
pub data Action : Type 0 where
  test send : ℕ → Action
  write finish : Action

module _ (code : TaskStatus → ℕ) (of_int : Bool × ℕ → TaskStatus) where
  abbrev status_of_number : Option (Bool × ℕ) → TaskStatus
  status_of_number none = idle
  status_of_number (some n) = of_int n

  -- `readLastState`, given what the file holds. `none` is a file that cannot be read.
  unfoldable pub read_last_state : Option (List ℕ) → TaskStatus
  unfolding trim atoi
  read_last_state none = idle
  read_last_state (some bytes) = status_of_number (atoi (trim bytes))

  abbrev bytes_of : Option (List ℕ) → List ℕ
  bytes_of none = []
  bytes_of (some bytes) = bytes

  -- `NewFileStateStore`, given what the file holds and whether it opens for writing.
  unfoldable pub new_file_store : Task → Option (List ℕ) → Bool → FileStateStore
  unfolding read_last_state new_memory_store
  new_file_store t contents opens = record {
    mem = new_memory_store t;
    previous_state = read_last_state contents;
    file_error = not opens;
    starting = [];
    sending = [];
    file_state = none;
    done = false;
    file_closed = false;
    panicked = false;
    file = bytes_of contents;
  }

  abbrev tested : FileStateStore → Option (TaskStatus × List TaskStatus) → Option FileStateStore
  tested f none = none
  tested f (some (s, rest)) = some (
      if f.file_closed
      then record f { starting = rest }
      else record f { starting = rest; sending = f.sending ++ (s ∷ []) })

  -- A send blocks on a full channel, and panics on a closed one.
  abbrev sent :
      FileStateStore
      → Bool
      → Option TaskStatus
      → Option (TaskStatus × List TaskStatus)
      → Option FileStateStore
  sent f closed buffer none = none
  sent f true buffer (some (s, rest)) = some (record f { sending = rest; panicked = true })
  sent f false (some waiting) (some (s, rest)) = none
  sent f false none (some (s, rest)) = some (record f { sending = rest; file_state = some s })

  abbrev written : FileStateStore → Bool → Option TaskStatus → Option FileStateStore
  written f true buffer = none
  written f false none = none
  written f false (some s) =
      some (record f { file_state = none; file = write_at_start (itoa (code s)) f.file })

  -- `listenToState` and the goroutines; `none` is an action that cannot happen now.
  unfoldable pub act : Action → FileStateStore → Option FileStateStore
  unfolding write_at_start
  act (test i) f = tested f (pick i f.starting)
  act (send i) f = sent f f.file_closed f.file_state (pick i f.sending)
  act write f = written f f.file_closed f.file_state
  act finish f =
      if f.done && not f.file_closed then some (record f { file_closed = true }) else none

  unfoldable pub act_all : List Action → FileStateStore → Option FileStateStore
  act_all [] f = some f
  act_all (a ∷ as') f = do g ← act a f; act_all as' g

abbrev pub start_send : TaskStatus → FileStateStore → FileStateStore
start_send s f =
    if not f.file_error && not (same_status f.mem.state.status s)
    then record f { starting = f.starting ++ (s ∷ []) }
    else f

-- `FileStateStore.UpdateSyncStatus`
unfoldable pub file_update_sync_status : TaskStatus → FileStateStore → FileStateStore
unfolding update_sync_status
file_update_sync_status s f =
    let g = start_send s f in record g { mem = update_sync_status s g.mem }

abbrev start_process_send : Option TaskStatus → FileStateStore → FileStateStore
start_process_send none f = f
start_process_send (some s) f = start_send s f

-- `FileStateStore.UpdateProcessStatus`
unfoldable pub file_update_process_status :
    (String → Option Url)
    → ProcessStatus
    → Option TaskStatus
    → ℕ
    → FileStateStore
    → Option FileStateStore
file_update_process_status parse p status now f = do
  let g = start_process_send status f
  m ← update_process_status parse p status now g.mem
  some (record g { mem = m })

-- `FileStateStore.Close`
unfoldable pub close : FileStateStore → FileStateStore
close f = record f { done = true }
