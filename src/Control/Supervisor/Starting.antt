-- ===== src/Control/Supervisor/Starting.antt =====
-- control/supervisor.go: which services run when the supervisor starts.
use cells_sync.Prelude.{
  ℕ, ◌≡◌, refl, ap, ◌∙◌, String, Option, none, some, List, [], ◌∷◌, arith, if◌then◌else◌, ◌==◌,
  string_eq, eq_iff, Bool-cases, inl, inr,
}
use cells_sync.Config.Types.{Task}
use cells_sync.Config.Global.Tasks.{find}
use cells_sync.Control.Supervisor.{
  scheduler, other, Suture, Supervisor, start_task, start_scheduler, start_tasks, start_others,
  serve,
}
use cells_sync.Control.Supervisor.Entries.{IsDistinct}
use cells_sync.Control.Supervisor.Running.{IsLawful, Runs-same, Follows, Tracks, start_task-Follows}

-- The tasks of a list have different uuids.
abbrev pub HasDistinctUuids : List Task → Type 0
HasDistinctUuids [] = Unit
HasDistinctUuids (t ∷ ts) = (find t.uuid ts ≡ none) × HasDistinctUuids ts

-- A map of tasks, with the tasks of a list added.
abbrev added : List Task → (String → Option Task) → String → Option Task
added [] m = m
added (t ∷ ts) m = added ts (λ u. if t.uuid == u then some t else m u)

-- No task of a list is in a map.
abbrev AreNew : List Task → (String → Option Task) → Type 0
AreNew [] m = Unit
AreNew (t ∷ ts) m = (m t.uuid ≡ none) × AreNew ts m

AreNew-none : (ts : List Task) → AreNew ts (λ u. none)
AreNew-none [] = tt
AreNew-none (t ∷ ts) = (refl, AreNew-none ts)

AreNew-added :
    (t : Task) (ts : List Task) (m : String → Option Task)
    → find t.uuid ts ≡ none
    → AreNew ts m
    → AreNew ts (λ u. if t.uuid == u then some t else m u)
AreNew-added t [] m e h = tt
AreNew-added t (s ∷ ts) m e h = (
  ground (arith, e, h.0, eq_iff t.uuid s.uuid, eq_iff s.uuid t.uuid),
  AreNew-added t ts m (ground (arith, e)) h.1,
)

or_else : Option Task → Option Task → Option Task
or_else none o = o
or_else (some t) o = some t

added_lem :
    (ts : List Task) (m : String → Option Task) (u : String)
    → HasDistinctUuids ts
    → added ts m u ≡ or_else (find u ts) (m u)
unfolding or_else
added_lem [] m u d = refl
added_lem (t ∷ ts) m u d = added_lem ts _ u d.1 ∙ (elim (Bool-cases (t.uuid == u)) [
  | inl e ↦ let new : find u ts ≡ none = rw ((eq_iff t.uuid u).0 e) at d.0 in ground (arith, e, new)
  | inr e ↦ rw e refl
])

or_else-none : (o : Option Task) → or_else o none ≡ o
unfolding or_else
or_else-none none = refl
or_else-none (some t) = refl

module _ (S : Suture) (L : IsLawful S) where
  start_tasks-Follows :
      (ts : List Task) (m : String → Option Task) (js : List (ℕ × List Task)) (s : Supervisor S)
      → HasDistinctUuids ts
      → AreNew ts m
      → Follows S m js s
      → Follows S (added ts m) js (start_tasks S ts s)
  unfolding start_tasks
  start_tasks-Follows [] m js s d h F = F
  start_tasks-Follows (t ∷ ts) m js s d h F =
      start_tasks-Follows ts _ js (start_task S t s) d.1 (AreNew-added t ts m d.0 h.1) (
        start_task-Follows S L t m js s (record {
          distinct = F.distinct;
          stopped = (rw h.0 at (F.runs t.uuid)).1;
          runs = λ v differ. F.runs v;
          scheduled = F.scheduled;
        }))

  start_others-Follows :
      (os : List String) (m : String → Option Task) (js : List (ℕ × List Task)) (s : Supervisor S)
      → Follows S m js s
      → Follows S m js (record s { suture = start_others S os s.suture })
  unfolding start_others
  start_others-Follows [] m js s F = F
  start_others-Follows (o ∷ os) m js s F =
      let more = L.running-add (other o) s.suture in
      start_others-Follows os m js (record s { suture = (S.add (other o) s.suture).1 })
        (record {
          distinct = rw (more, IsDistinct) (L.add_fresh (other o) s.suture, F.distinct);
          runs = λ u. Runs-same S (m u) u s _ refl (rw more refl) (F.runs u);
          scheduled = rw more F.scheduled;
        })

  start_scheduler-Tracks :
      (tasks : List Task) (m : String → Option Task) (s : Supervisor S)
      → Follows S m [] s
      → Tracks S m tasks (start_scheduler S tasks s)
  unfolding start_scheduler
  start_scheduler-Tracks tasks m s F =
      let more = L.running-add (scheduler tasks) s.suture in
      record {
        distinct = rw (more, IsDistinct) (L.add_fresh (scheduler tasks) s.suture, F.distinct);
        runs = λ u. Runs-same S (m u) u s _ refl (rw more refl) (F.runs u);
        scheduled =
            rw more (ap (λ r. ((S.add (scheduler tasks) s.suture).0, tasks) ∷ r) F.scheduled);
      }

  -- When nothing runs yet and the tasks have different uuids, the start of the supervisor leaves one
  -- service running for each task of the configuration, no other service of a task, and one scheduler
  -- with all the tasks.
  pub serve-Tracks :
      (tasks : List Task) (others : List String) (st : S.State)
      → S.running st ≡ []
      → HasDistinctUuids tasks
      → Tracks S (λ u. find u tasks) tasks (serve S tasks others st)
  unfolding serve
  serve-Tracks tasks others st empty d =
      let s0 : Supervisor S = record { suture = st; tasks_tokens = []; scheduler_token = 0 } in
      let F0 : Follows S (λ u. none) [] s0 = record {
        distinct = rw (empty, IsDistinct) tt;
        runs = λ u. (refl, rw empty refl);
        scheduled = rw empty refl;
      } in
      let F1 = start_tasks-Follows tasks (λ u. none) [] s0 d (AreNew-none tasks) F0 in
      let F2 : Follows S (λ u. find u tasks) [] (start_tasks S tasks s0) = record {
        distinct = F1.distinct;
        runs =
            λ u. rw (added_lem tasks (λ v. none) u d, or_else-none (find u tasks)) at (F1.runs u);
        scheduled = F1.scheduled;
      } in
      start_others-Follows others _ _ _ (start_scheduler-Tracks tasks _ _ F2)
