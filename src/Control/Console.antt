-- ===== src/Control/Console.antt =====
-- control/stdinner.go: the commands that are typed.
use cells_sync.Prelude.{Option, none, some, String, List, [], ◌∷◌, ◌++◌}
use cells_sync.Control.Bus.{Message, halt, Topic, global, sync_all, message_from_string}

abbrev topic_of : Message → Topic
topic_of halt = global
topic_of _ = sync_all

abbrev typed : Option Message → List (Message × Topic)
typed none = []
typed (some m) = (m, topic_of m) ∷ []

-- The loop of `Serve` over the lines: what it publishes.
unfoldable pub scan : List String → List (Message × Topic)
scan [] = []
scan (line ∷ lines) = typed (message_from_string line) ++ scan lines
