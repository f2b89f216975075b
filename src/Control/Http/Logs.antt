-- ===== src/Control/Http/Logs.antt =====
-- control/http-server.go: the socket of the logs. The package melody keeps the sessions; what is written
-- to a session is listed.
pub mod Delivered
use cells_sync.Prelude.{
  ℕ, Bool, true, false, ◌&&◌, List, [], ◌∷◌, ◌++◌, map, if◌then◌else◌, ◌==◌, nat_eq,
}
use cells_sync.Control.Http.{push_log}

abbrev pub Line : Type 0
Line = List ℕ

-- What changes the socket: a line is scanned, `InitHandlers` runs, a client opens or closes.
pub data LogEvent : Type 0 where
  line : Line → LogEvent
  init : LogEvent
  opens : ℕ → LogEvent
  closes : ℕ → LogEvent

pub record LogSocket : Type 0 where
  pub ready : Bool  -- LogSocket is not nil
  pub connected : Bool  -- logSocketConnected
  pub sessions : List ℕ
  pub recent : List Line
  pub written : List (ℕ × Line)

abbrev pub to_all : Line → List ℕ → List (ℕ × Line)
to_all l [] = []
to_all l (s ∷ ss) = (s, l) ∷ to_all l ss

abbrev pub to_one : ℕ → List Line → List (ℕ × Line)
to_one s [] = []
to_one s (l ∷ ls) = (s, l) ∷ to_one s ls

abbrev pub without_session : ℕ → List ℕ → List ℕ
without_session s [] = []
without_session s (t ∷ ts) = let rest = without_session s ts in if t == s then rest else t ∷ rest

-- The loop of the scanner in `NewHttpServer`.
abbrev pub on_line : Line → LogSocket → LogSocket
on_line l h = record h {
  written = if h.ready && h.connected then h.written ++ to_all l h.sessions else h.written;
  recent = push_log l h.recent;
}

-- The handlers of `InitHandlers`.
abbrev pub on_open : ℕ → LogSocket → LogSocket
on_open s h = record h {
  connected = true;
  sessions = s ∷ h.sessions;
  written = h.written ++ to_one s h.recent;
}

abbrev pub on_close : ℕ → LogSocket → LogSocket
on_close s h = record h { connected = false; sessions = without_session s h.sessions }

unfoldable pub log_step : LogEvent → LogSocket → LogSocket
log_step (line l) h = on_line l h
log_step init h = record h { ready = true; sessions = [] }
log_step (opens s) h = on_open s h
log_step (closes s) h = on_close s h

unfoldable pub log_steps : List LogEvent → LogSocket → LogSocket
log_steps [] h = h
log_steps (e ∷ es) h = log_steps es (log_step e h)

-- The server before `Serve`.
unfoldable pub new_log_socket : LogSocket
new_log_socket = record {
  ready = false;
  connected = false;
  sessions = [];
  recent = [];
  written = [];
}
