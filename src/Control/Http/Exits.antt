-- ===== src/Control/Http/Exits.antt =====
-- control/http-server.go and control/supervisor.go: which commands end the process.
use cells_sync.Prelude.{
  ◌≡◌, refl, sym, String, Bool, true, false, ◌&&◌, ◌||◌, Option, none, some, List, [], ◌∷◌, ◌++◌,
  arith, if◌then◌else◌, ◌==◌, string_eq,
}
use cells_sync.Control.Bus.{Message, halt, restart, Topic, global, message_from_string}
use cells_sync.Control.Supervisor.{Exit, stop_service, stop_supervisor, listen_bus}
use cells_sync.Control.Http.{Effect, publish, route, cmd_content, handle_cmd, handle_socket}

abbrev ends_of : Option Exit → List Exit
ends_of none = []
ends_of (some e) = e ∷ []

abbrev heard : Bool → Message → Topic → List Exit
heard as_service m global = ends_of (listen_bus as_service m)
heard as_service m _ = []

-- What the supervisor does on the messages that are published on the global topic.
abbrev pub endings : Bool → List Effect → List Exit
endings as_service [] = []
endings as_service (publish m t ∷ es) = heard as_service m t ++ endings as_service es
endings as_service (e ∷ es) = endings as_service es

abbrev end_of : Bool → Exit
end_of as_service = if as_service then stop_service else stop_supervisor

is_halt : Message → Bool
is_halt halt = true
is_halt _ = false

parsed_halt : Option Message → Bool
unfolding is_halt
parsed_halt none = false
parsed_halt (some m) = is_halt m

parsed_halt-from_string :
    (text : String) → parsed_halt (message_from_string text) ≡ (text == "exit" || text == "quit")
unfolding parsed_halt is_halt message_from_string
parsed_halt-from_string text = ground arith

endings-route :
    (as_service : Bool) (u : String) (m : Message)
    → endings as_service (route u m ∷ [])
      ≡ (if u == "" && is_halt m then end_of as_service ∷ [] else [])
unfolding is_halt listen_bus
endings-route as_service u halt = ground arith
endings-route as_service u restart = ground arith
endings-route as_service u _ = ground arith

endings-parsed :
    (as_service : Bool) (u text : String) (o : Option Message)
    → message_from_string text ≡ o
    → endings as_service (handle_cmd (cmd_content u text))
      ≡ (if u == "" && parsed_halt o then end_of as_service ∷ [] else [])
unfolding handle_cmd parsed_halt is_halt listen_bus
endings-parsed as_service u text none e = rw e (ground arith)
endings-parsed as_service u text (some m) e = rw e (endings-route as_service u m)

-- A command of the web interface ends the process if and only if it is "exit" or "quit" and has no
-- UUID; it does so through the manager of services, if the process runs as a service. No other
-- command does anything at the supervisor, not even the one to restart.
pub endings-handle_socket :
    (as_service : Bool) (new_uuid u text : String)
    → endings as_service
        (handle_socket new_uuid (record { kind = "CMD"; content = cmd_content u text }))
      ≡ (if u == "" && (text == "exit" || text == "quit") then end_of as_service ∷ [] else [])
unfolding handle_socket
endings-handle_socket as_service new_uuid u text =
    rw (sym (parsed_halt-from_string text)) (endings-parsed as_service u text _ refl)
