-- ===== src/Control/Supervisor/Agreement.antt =====
-- control/supervisor.go and config/defaults.go: the services that run are the tasks of the
-- configuration. The events of a change are handled before the next change.
use cells_sync.Prelude.{
  Bool, false, ◌≡◌, ◌≢◌, refl, sym, ◌∙◌, String, true, Option, none, some, List, [], ◌∷◌, arith,
  if◌then◌else◌, ◌==◌, string_eq, eq_iff, Bool-cases, inl, inr,
}
use cells_sync.Config.Types.{Task}
use cells_sync.Config.Keyring.{Keyring}
use cells_sync.Config.Global.{Change, World, create_task, update_task, remove_task, save}
use cells_sync.Config.Global.Tasks.{
  Command, create, edit, delete, event_of, find, on_map, apply, find-apply,
}
use cells_sync.Control.Supervisor.{Suture, Supervisor, listen_config}
use cells_sync.Control.Supervisor.Running.{IsLawful, Tracks}
use cells_sync.Control.Supervisor.Changes.{after, IsAllowed, listen_config-Tracks}

-- A new task has a new uuid, and only a task of the configuration is edited.
abbrev pub IsSound : Command → List Task → Type 0
IsSound (create t) tasks = find t.uuid tasks ≡ none
IsSound (edit t) tasks = find t.uuid tasks ≢ none
IsSound (delete t) tasks = Unit

on_map-create :
    (t : Task) (u : String) (o : Option Task)
    → ((t.uuid == u) ≡ true → o ≡ none)
    → on_map (create t) u o ≡ (if t.uuid == u then some t else o)
on_map-create t u none h = ground arith
on_map-create t u (some old) h = elim (Bool-cases (t.uuid == u)) [
  | inl e ↦ cc (h e)
  | inr e ↦ rw e refl
]

on_map-edit :
    (t : Task) (u : String) (o : Option Task)
    → ((t.uuid == u) ≡ true → o ≢ none)
    → on_map (edit t) u o ≡ (if t.uuid == u then some t else o)
on_map-edit t u none h = elim (Bool-cases (t.uuid == u)) [
  | inl e ↦ absurd (h e refl)
  | inr e ↦ rw e refl
]
on_map-edit t u (some old) h = refl

after-on_map :
    (c : Command) (tasks : List Task) (u : String)
    → IsSound c tasks
    → on_map c u (find u tasks) ≡ after c (λ v. find v tasks) u
after-on_map (create t) tasks u sound =
    on_map-create t u (find u tasks) (λ e. rw ((eq_iff t.uuid u).0 e) at sound)
after-on_map (edit t) tasks u sound =
    on_map-edit t u (find u tasks) (λ e. rw ((eq_iff t.uuid u).0 e) at sound)
after-on_map (delete t) tasks u sound = refl

-- The loop of `listenConfig`, while the tasks of the configuration stay the same.
abbrev pub handle_events : (S : Suture) → List Task → List Change → Supervisor S → Supervisor S
handle_events S tasks [] s = s
handle_events S tasks (c ∷ cs) s = handle_events S tasks cs (listen_config S tasks c s).0

module _ (S : Suture) (L : IsLawful S) where
  Tracks-ext :
      (m m' : String → Option Task) (tasks : List Task) (s : Supervisor S)
      → ((u : String) → m u ≡ m' u)
      → Tracks S m tasks s
      → Tracks S m' tasks s
  Tracks-ext m m' tasks s e T = record {
    distinct = T.distinct;
    runs = λ u. rw (e u) at (T.runs u);
    scheduled = T.scheduled;
  }

  module _ (K : Keyring) where
    -- One change, with whether its save succeeds, before which the events were all handled.
    abbrev pub change_by : Command → Bool → World K → World K
    change_by c ok w = (apply K c ok (record w { events = [] })).0

    -- Changes one after the other: the supervisor handles the events that a change emits before the
    -- next change.
    unfoldable pub run_commands :
        List (Command × Bool) → World K → Supervisor S → World K × Supervisor S
    run_commands [] w s = (w, s)
    run_commands ((c, ok) ∷ cs) w s =
        let w' = change_by c ok w in
        run_commands cs w' (handle_events S w'.global.tasks w'.events s)

    -- Every change is sound at its turn, and its save succeeds.
    abbrev pub AreSound : List (Command × Bool) → World K → Type 0
    AreSound [] w = Unit
    AreSound ((c, ok) ∷ cs) w =
        IsSound c w.global.tasks × (ok ≡ true) × AreSound cs (change_by c ok w)

    emitted : (c : Command) (w : World K) → (change_by c true w).events ≡ event_of c ∷ []
    unfolding apply create_task update_task remove_task save
    emitted (create t) w = refl
    emitted (edit t) w = refl
    emitted (delete t) w = refl

    -- One service runs for each task of the configuration, and the scheduler has all the tasks.
    abbrev pub Agree : World K → Supervisor S → Type 0
    Agree w s = Tracks S (λ u. find u w.global.tasks) w.global.tasks s

    IsSound-IsAllowed :
        (c : Command) (tasks : List Task) → IsSound c tasks → IsAllowed c (λ u. find u tasks)
    IsSound-IsAllowed (create t) tasks h = h
    IsSound-IsAllowed (edit t) tasks h = tt
    IsSound-IsAllowed (delete t) tasks h = tt

    -- Let the services that run agree with the configuration. Let changes of the tasks come one after the
    -- other, each after the supervisor has handled the events of the one before: each creates a
    -- task with a new uuid, edits a task that exists or removes one, and each save succeeds. Then
    -- they agree again: each task of the configuration runs as one service, no other service of a task runs,
    -- and one scheduler runs, with the tasks of the configuration.
    pub run_commands-Agree :
        (cs : List (Command × Bool)) (w : World K) (s : Supervisor S)
        → AreSound cs w
        → Agree w s
        → Agree (run_commands cs w s).0 (run_commands cs w s).1
    unfolding run_commands
    run_commands-Agree [] w s sound T = T
    run_commands-Agree ((c, false) ∷ cs) w s sound T = cc (sound.1)
    run_commands-Agree ((c, true) ∷ cs) w s sound T =
        let w0 = record w { events = [] } in
        let w' = change_by c true w in
        run_commands-Agree cs w' _ sound.2 (
          rw (emitted c w) (
            Tracks-ext (after c (λ u. find u w.global.tasks)) (λ u. find u w'.global.tasks)
              w'.global.tasks _
              (λ u. sym (find-apply K c true w0 u ∙ after-on_map c w.global.tasks u sound.0))
              (listen_config-Tracks S L c (λ u. find u w.global.tasks) w.global.tasks
                w'.global.tasks s (IsSound-IsAllowed c w.global.tasks sound.0) T)))
