-- ===== src/Commands/Signals.antt =====
-- cmd/signals.go and cmd/service.go: the signals of the system, and the command for the service.
use cells_sync.Prelude.{
  ◌≡◌, refl, ◌⊎◌, inl, inr, String, Bool, Option, none, some, List, [], ◌∷◌, if◌then◌else◌, ◌==◌,
  string_eq,
}
use cells_sync.Control.Bus.{halt, restart, global}
use cells_sync.Control.Supervisor.{listen_bus}
use cells_sync.Control.Messages.{allowed_service_cmd}
use cells_sync.Control.Http.{Effect, publish}
use cells_sync.Control.Http.Exits.{endings}

pub data Signal : Type 0 where
  interrupt hang_up : Signal

-- The loop of `handleSignals`: what it publishes on the bus.
unfoldable pub handle_signals : List Signal → List Effect
handle_signals [] = []
handle_signals (interrupt ∷ ss) = publish halt global ∷ handle_signals ss
handle_signals (hang_up ∷ ss) = publish restart global ∷ handle_signals ss

abbrev pub interrupts : List Signal → List Signal
interrupts [] = []
interrupts (interrupt ∷ ss) = interrupt ∷ interrupts ss
interrupts (hang_up ∷ ss) = interrupts ss

-- The supervisor does on all signals what it does on the interrupts alone: a hang up restarts nothing.
hang_up-ignored :
    (as_service : Bool) (ss : List Signal)
    → endings as_service (handle_signals ss) ≡ endings as_service (handle_signals (interrupts ss))
unfolding handle_signals listen_bus
hang_up-ignored as_service [] = refl
hang_up-ignored as_service (interrupt ∷ ss) = rw (hang_up-ignored as_service ss) refl
hang_up-ignored as_service (hang_up ∷ ss) = hang_up-ignored as_service ss

-- The package of the services: the status, and a command.
pub data ServiceStatus : Type 0 where
  unknown running stopped : ServiceStatus

-- A line that is printed, or the text of `log.Fatal`.
pub data ServiceOutput : Type 0 where
  printed : String → ServiceOutput
  fatal : String → ServiceOutput
  silent : ServiceOutput

abbrev status_text : ServiceStatus → String
status_text unknown = "Service status : Unknown"
status_text running = "Service status : Running"
status_text stopped = "Service status : Stopped"

abbrev status_output : String ⊎ ServiceStatus → ServiceOutput
status_output (inl e) = fatal e
status_output (inr s) = printed (status_text s)

abbrev control_output : Option String → ServiceOutput
control_output none = silent
control_output (some e) = fatal e

-- `ServiceCmd`, for its arguments; `control` is `ControlAppService`, which gives an error or none.
unfoldable pub service_command :
    String ⊎ ServiceStatus → (String → Option String) → List String → ServiceOutput
service_command status control [] =
    fatal "please provide one of install,uninstall,stop,start,restart,status"
service_command status control (arg ∷ args) =
    if arg == "status"
    then status_output status
    else if allowed_service_cmd arg
    then control_output (control arg)
    else fatal "Valid actions are"
