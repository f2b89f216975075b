-- ===== src/Control/Http/Logs/Delivered.antt =====
-- control/http-server.go: which lines of the logs a client gets.
use cells_sync.Prelude.{
  ℕ, ◌≡◌, true, false, List, [], ◌∷◌, ◌++◌, if◌then◌else◌, ◌==◌, nat_eq, count,
}
use cells_sync.Control.Http.{push_logs}
use cells_sync.Control.Http.Logs.{Line, LogEvent, line, init, opens, closes, LogSocket}

-- The lines that are written to one session, in their order.
abbrev pub received : ℕ → List (ℕ × Line) → List Line
received c [] = []
received c ((s, l) ∷ ws) = let rest = received c ws in if s == c then l ∷ rest else rest

-- Nobody leaves, the socket is not made again, and nobody takes the session.
abbrev pub Stays : ℕ → List LogEvent → Type 0
Stays c [] = Unit
Stays c (line l ∷ es) = Stays c es
Stays c (init ∷ es) = ⊥
Stays c (opens s ∷ es) = (s == c ≡ false) × Stays c es
Stays c (closes s ∷ es) = ⊥

abbrev pub NoOpens : List LogEvent → Type 0
NoOpens [] = Unit
NoOpens (line l ∷ es) = NoOpens es
NoOpens (init ∷ es) = NoOpens es
NoOpens (opens s ∷ es) = ⊥
NoOpens (closes s ∷ es) = NoOpens es

abbrev pub lines_of : List LogEvent → List Line
lines_of [] = []
lines_of (line l ∷ es) = l ∷ lines_of es
lines_of (init ∷ es) = lines_of es
lines_of (opens s ∷ es) = lines_of es
lines_of (closes s ∷ es) = lines_of es

-- A session that has not been there.
abbrev pub IsNew : ℕ → List LogEvent → Type 0
IsNew c [] = Unit
IsNew c (line l ∷ es) = IsNew c es
IsNew c (init ∷ es) = IsNew c es
IsNew c (opens s ∷ es) = (s == c ≡ false) × IsNew c es
IsNew c (closes s ∷ es) = IsNew c es

-- What the past leaves to a session that is new: all lines that were logged, from which the last ones
-- are kept, whoever came and went, and nothing that was written to it.
record Past (c : ℕ) (ls : List Line) (h o : LogSocket) : Type 0 where
  kept : o.recent ≡ push_logs ls h.recent
  none_yet : received c o.written ≡ []
  absent : count c o.sessions ≡ 0
  is_ready : h.ready ≡ true → o.ready ≡ true

-- What happened before, a client that opens, events while it stays, somebody who leaves, and what
-- follows.
abbrev pub visit : List LogEvent → ℕ → ℕ → List LogEvent → List LogEvent → List LogEvent
visit past c x es fs = init ∷ (past ++ (opens c ∷ (es ++ (closes x ∷ fs))))
