-- ===== src/Control/Spawned.antt =====
-- control/spawned-service.go, control/spawn.go and control/spawn_windows.go: a service that runs
-- a command. The supervisor calls `Serve` again when it has ended; `Stop` may come at any time.
pub mod Kills
use cells_sync.Prelude.{
  ℕ, suc, nat_eq, String, Bool, true, false, not, ◌&&◌, Option, none, some, List, [], ◌∷◌, ◌++◌,
  if◌then◌else◌, ◌==◌, ◌>>=◌,
}
use cells_sync.Go.Strings.{contains}

-- Where `Serve` is: not called, before `cmd.Run` has started the process, or in `cmd.Run` after that.
pub data Phase : Type 0 where
  idle prepared running : Phase

-- What happens to the service. The errors are texts by their bytes.
pub data Event : Type 0 where
  serves : Event
  pipe_fails : Event  -- `StdoutPipe` or `StderrPipe` gives an error
  starts : Option (List ℕ) → Event  -- with the error, if the process cannot be started
  ends : Option (List ℕ) → Event  -- with the error of `cmd.Run`
  stops : Event

-- `SpawnedService`, with the number of the calls of `Serve` so far: the commands are numbered by it,
-- from 1. `cancel` is the command that the function kills, `has_process` whether the present command has
-- been started, `killed` the commands for which the function was called, the last one first, and
-- `panics` the errors with which `Serve` panicked.
pub record SpawnedService : Type 0 where
  pub name : String
  pub args : List String
  pub cancel : Option ℕ
  pub phase : Phase
  pub launched : ℕ
  pub has_process : Bool
  pub killed : List ℕ
  pub panics : List (List ℕ)

-- `NewSpawnedService`
unfoldable pub new_spawned_service : String → List String → SpawnedService
new_spawned_service name args = record {
  name = name;
  args = args;
  cancel = none;
  phase = idle;
  launched = 0;
  has_process = false;
  killed = [];
  panics = [];
}

-- The texts "killed" and "context canceled".
abbrev pub killed_text : List ℕ
killed_text = b'k' ∷ b'i' ∷ b'l' ∷ b'l' ∷ b'e' ∷ b'd' ∷ []

abbrev pub canceled_text : List ℕ
canceled_text =
    b'c' ∷ b'o' ∷ b'n' ∷ b't' ∷ b'e' ∷ b'x' ∷ b't' ∷ b' ' ∷ b'c' ∷ b'a' ∷ b'n' ∷ b'c' ∷ b'e' ∷ b'l'
    ∷ b'e' ∷ b'd' ∷ []

abbrev pub is_killed : ℕ → List ℕ → Bool
is_killed n [] = false
is_killed n (k ∷ ks) = if k == n then true else is_killed n ks

-- The end of `Serve`, with the error of `cmd.Run`.
unfoldable pub run_ended : Option (List ℕ) → SpawnedService → SpawnedService
run_ended none s = record s { phase = idle }
run_ended (some e) s =
    if contains e killed_text
    then record s { phase = idle }
    else record s { phase = idle; cancel = none; panics = s.panics ++ (e ∷ []) }

-- A command whose context is cancelled does not start. On Windows there is no context.
abbrev start_error : Bool → SpawnedService → Option (List ℕ) → Option (List ℕ)
start_error windows s e =
    if not windows && is_killed s.launched s.killed then some canceled_text else e

abbrev started : Option (List ℕ) → SpawnedService → SpawnedService
started none s = record s { phase = running; has_process = true }
started (some e) s = run_ended (some e) s

-- `Stop`. On Windows the function reads the number of the process: `none` is a panic when there is none.
unfoldable pub stop_spawned : Bool → Option ℕ → SpawnedService → Option SpawnedService
stop_spawned windows none s = some s
stop_spawned windows (some n) s =
    if windows && not s.has_process
    then none
    else some (record s { killed = n ∷ s.killed; cancel = none })

-- One step of `Serve` or of another goroutine; `none` also where an event cannot happen in this phase.
unfoldable pub spawned_step : Bool → Event → Phase → SpawnedService → Option SpawnedService
unfolding run_ended stop_spawned
spawned_step windows serves idle s = some (record s {
  cancel = some (suc s.launched);
  phase = prepared;
  launched = suc s.launched;
  has_process = false;
})
spawned_step windows pipe_fails prepared s = some (record s { phase = idle })
spawned_step windows (starts e) prepared s = some (started (start_error windows s e) s)
spawned_step windows (ends e) running s = some (run_ended e s)
spawned_step windows stops _ s = stop_spawned windows s.cancel s
spawned_step windows _ _ s = none

unfoldable pub spawned_steps : Bool → List Event → SpawnedService → Option SpawnedService
unfolding spawned_step
spawned_steps windows [] s = some s
spawned_steps windows (e ∷ es) s =
    spawned_step windows e s.phase s >>= λ r. spawned_steps windows es r
