-- ===== src/Control/Http/States.antt =====
-- control/http-server.go: which states and which lines of the logs reach the web interface.
use mathlib.Core.List.{append_assoc, append-nil}
use cells_sync.Prelude.{
  suc, ◌+◌, ◌-◌, ◌≤◌, ◌<◌, ◌≡◌, refl, ap, ◌∙◌, true, false, Option, none, some, List, [], ◌∷◌, ◌++◌,
  arith, if◌then◌else◌, ltb, length, drop, length-append, Bool-cases, inl, inr,
}
use cells_sync.Control.State.{SyncState, ProcessStatus}
use cells_sync.Control.Http.{
  Floats, is_busy, too_close, progress_of, drop_state, listen_status, push_log, push_logs,
}

module _ (F : Floats) where
  -- The states of a task that is not processing.
  abbrev pub settled : List SyncState → List SyncState
  settled [] = []
  settled (s ∷ ss) = let rest = settled ss in if is_busy F s then rest else s ∷ rest

  pub drop_state-settled :
      (last : Option SyncState) (s : SyncState) → is_busy F s ≡ false → drop_state F last s ≡ false
  unfolding drop_state
  drop_state-settled none s e = refl
  drop_state-settled (some last) s e = ground (arith, e)

  -- However fast the states come, the states of the tasks that are not processing are all broadcast,
  -- in their order.
  pub settled-listen_status :
      (last : Option SyncState) (ss : List SyncState)
      → settled (listen_status F last ss) ≡ settled ss
  unfolding listen_status
  settled-listen_status last [] = refl
  settled-listen_status last (s ∷ ss) = elim (Bool-cases (is_busy F s)) [
    | inl busy ↦ elim (Bool-cases (drop_state F last s)) [
      | inl e ↦ rw (e, busy) (settled-listen_status (some s) ss)
      | inr e ↦ rw e (rw busy (settled-listen_status (some s) ss))
    ]
    | inr quiet ↦
        rw (drop_state-settled last s quiet)
          (rw quiet (ap (λ rest. s ∷ rest) (settled-listen_status (some s) ss)))
  ]

  -- Both states are processing, and the progress of the second is a small step on the first.
  abbrev pub IsStep : SyncState → SyncState → Type 0
  IsStep s t =
      (p : ProcessStatus) × (t.last_process ≡ some p)
      × (is_busy F s ≡ true)
      × (is_busy F t ≡ true)
      × (too_close F (progress_of F s.last_process) p.progress ≡ true)

  abbrev pub AreSteps : SyncState → List SyncState → Type 0
  AreSteps s [] = Unit
  AreSteps s (t ∷ ts) = IsStep s t × AreSteps t ts

  drop_state-step : (s t : SyncState) → IsStep s t → drop_state F (some s) t ≡ true
  unfolding drop_state
  drop_state-step s t (p, e, a, b, c) = rw (e, a, b) c

  -- A progress that goes on in small steps is never broadcast, however far it goes: each state is
  -- compared with the state before it, and not with the last one that was broadcast.
  pub listen_status_starves :
      (s : SyncState) (ts : List SyncState) → AreSteps s ts → listen_status F (some s) ts ≡ []
  unfolding listen_status
  listen_status_starves s [] h = refl
  listen_status_starves s (t ∷ ts) h = rw (drop_state-step s t h.0) (listen_status_starves t ts h.1)

module _ {A : Type 0} where
  append_line :
      (logs lines : List A) (line : A) → (logs ++ (line ∷ [])) ++ lines ≡ logs ++ (line ∷ lines)
  append_line logs lines line = append_assoc logs (line ∷ []) lines

  length-append_line : (logs : List A) (line : A) → length (logs ++ (line ∷ [])) ≡ length logs + 1
  length-append_line logs line = length-append logs (line ∷ [])

  -- What the lines leave, whatever was kept before them.
  abbrev KeepsLast : List A → Type 0
  KeepsLast lines =
      (logs : List A)
      → length logs ≤ 200
      → push_logs lines logs ≡ drop (length logs + length lines - 200) (logs ++ lines)

  -- A line that finds room.
  push_short :
      (line : A) (lines logs : List A)
      → KeepsLast lines
      → length logs < 200
      → push_logs lines (logs ++ (line ∷ []))
        ≡ drop (length logs + suc (length lines) - 200) (logs ++ (line ∷ lines))
  push_short line lines logs after h =
      let e : length (logs ++ (line ∷ [])) + length lines - 200
          ≡ length logs + suc (length lines) - 200 =
        omega (arith, length-append_line logs line) in
      after (logs ++ (line ∷ [])) (omega (arith, length-append_line logs line))
      ∙ rw (e, append_line logs lines line) refl

  -- A line for which the first one goes.
  push_full :
      (line : A) (lines logs : List A)
      → KeepsLast lines
      → length logs ≡ 200
      → push_logs lines (drop 1 logs ++ (line ∷ []))
        ≡ drop (length logs + suc (length lines) - 200) (logs ++ (line ∷ lines))
  push_full line lines [] after h = absurd (omega (arith, h))
  push_full line lines (x ∷ xs) after h =
      let e : length (xs ++ (line ∷ [])) + length lines - 200 ≡ length lines =
        omega (arith, length-append_line xs line, h) in
      let q : suc (length xs) + suc (length lines) - 200 ≡ suc (length lines) = omega (arith, h) in
      after (xs ++ (line ∷ [])) (omega (arith, length-append_line xs line, h))
      ∙ rw (e, q, append_line xs lines line) refl

  push_logs-KeepsLast : (lines : List A) → KeepsLast lines
  unfolding push_logs push_log
  push_logs-KeepsLast [] logs h =
      let e : length logs + 0 - 200 ≡ 0 = omega arith in rw (e, append-nil logs) refl
  push_logs-KeepsLast (line ∷ lines) logs h = elim (Bool-cases (ltb (length logs) 200)) [
    | inl room ↦
        rw room (push_short line lines logs (push_logs-KeepsLast lines) (ground (arith, room)))
    | inr full ↦
        rw full (push_full line lines logs (push_logs-KeepsLast lines) (ground (arith, full)))
  ]

  -- The server keeps the last 200 lines of the logs, or all of them if there are fewer.
  pub push_logs-drop : (lines : List A) → push_logs lines [] ≡ drop (length lines - 200) lines
  push_logs-drop lines =
      let e : 0 + length lines - 200 ≡ length lines - 200 = omega arith in
      push_logs-KeepsLast lines [] (omega arith) ∙ rw e refl
