-- ===== src/Control/Http/Routing.antt =====
-- control/http-server.go: where the commands of the web interface go.
use cells_sync.Prelude.{
  ◌≡◌, ◌≢◌, refl, String, Bool, not, ◌&&◌, ◌||◌, Option, none, some, List, [], ◌∷◌, ◌++◌, arith,
  if◌then◌else◌, ◌==◌, string_eq, eq_iff,
}
use cells_sync.Control.Bus.{
  Message, Topic, global, sync_all, state, update, sync, store, message_from_string,
}
use cells_sync.Control.Http.{cmd_content, Effect, publish, handle_cmd, is_global, handle_socket}

-- The messages that the service of a task gets: those on its topic and on the topic of all tasks.
abbrev pub for_topic : String → Message → Topic → List Message
for_topic u m sync_all = m ∷ []
for_topic u m (sync v) = if v == u then m ∷ [] else []
for_topic u m global = []
for_topic u m state = []
for_topic u m update = []
for_topic u m (store v) = []

abbrev pub messages_for : String → List Effect → List Message
messages_for u [] = []
messages_for u (publish m t ∷ es) = for_topic u m t ++ messages_for u es
messages_for u (e ∷ es) = messages_for u es

-- A command with a UUID is for the service of that task; one without is for all of them, unless it
-- is for the supervisor.
abbrev pub is_meant_for : String → String → Message → Bool
is_meant_for u target m = u == target || (u == "" && not (is_global m))

abbrev pub delivered : String → String → Option Message → List Message
delivered u target none = []
delivered u target (some m) = if is_meant_for u target m then m ∷ [] else []

parsed_lem :
    (target u text : String) (o : Option Message)
    → message_from_string text ≡ o
    → target ≢ ""
    → messages_for target (handle_cmd (cmd_content u text)) ≡ delivered u target o
unfolding handle_cmd
parsed_lem target u text none e named = rw e refl
parsed_lem target u text (some m) e named =
    rw e (ground (arith, named, eq_iff u target, eq_iff u ""))

-- Of a command that the web interface sends, the service of a task gets the message if and only if
-- the text of the command is known, and the command has the UUID of the task, or has no UUID and is
-- neither to exit nor to restart. It then gets the message once.
pub handle_socket-messages :
    (new_uuid target u text : String)
    → target ≢ ""
    → messages_for target
        (handle_socket new_uuid (record { kind = "CMD"; content = cmd_content u text }))
      ≡ delivered u target (message_from_string text)
unfolding handle_socket
handle_socket-messages new_uuid target u text named = parsed_lem target u text _ refl named
