-- ===== src/Control/Bus.antt =====
-- control/pubsub.go: the messages and topics of the bus.
use cells_sync.Prelude.{String, ◌<>◌, ◌||◌, Option, none, some, ◌==◌, string_eq, if◌then◌else◌}

-- The constants `MessageXXX`, in the order of their numbers.
pub data Message : Type 0 where
  halt restart interrupt pause resume enable disable sync_loop resync resync_dry publish_state
        publish_store restart_clean halt_clean :
      Message

unfoldable pub Message-discrete : Discrete Message
Message-discrete = hlevel

-- The topics. `sync u` is TopicSync_ + u and `store u` is TopicStore_ + u.
pub data Topic : Type 0 where
  global sync_all state update : Topic
  sync store : String → Topic

-- The text of a topic, as the bus sees it.
unfoldable pub topic_name : Topic → String
topic_name global = "cmd"
topic_name sync_all = "sync"
topic_name (sync u) = "sync-" <> u
topic_name state = "state"
topic_name (store u) = "store" <> u
topic_name update = "update"

-- `MessageFromString`; `none` is the error "cannot find corresponding command".
unfoldable pub message_from_string : String → Option Message
message_from_string text =
    if text == "exit" || text == "quit"
    then some halt
    else if text == "resync"
    then some resync
    else if text == "dry"
    then some resync_dry
    else if text == "interrupt"
    then some interrupt
    else if text == "loop"
    then some sync_loop
    else if text == "enable"
    then some enable
    else if text == "disable"
    then some disable
    else if text == "restart"
    then some restart
    else if text == "pause"
    then some pause
    else if text == "resume"
    then some resume
    else none
