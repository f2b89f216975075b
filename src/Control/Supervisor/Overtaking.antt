-- ===== src/Control/Supervisor/Overtaking.antt =====
-- config/defaults.go and control/supervisor.go: two changes in quick succession.
use cells_sync.Prelude.{
  ◌≡◌, refl, ◌∙◌, String, true, Option, none, some, List, [], ◌∷◌, ◌==◌, string_eq, nat_eq, eq_iff,
}
use cells_sync.Config.Types.{Task}
use cells_sync.Config.Keyring.{Keyring}
use cells_sync.Config.Global.{Change, World}
use cells_sync.Config.Global.Tasks.{create, delete, event_of, find, apply, find-apply}
use cells_sync.Config.Watching.{deliver, deliver_all, emit_all}
use cells_sync.Config.Watching.Delivered.{inbox}
use cells_sync.Control.Supervisor.{Suture, Supervisor}
use cells_sync.Control.Supervisor.Running.{IsLawful, Tracks}
use cells_sync.Control.Supervisor.Agreement.{handle_events}
use cells_sync.Control.Supervisor.Changes.{after, listen_config-Tracks}

-- The supervisor is channel 0. The goroutine of the second event runs before that of the first.
abbrev pub overtaken : Change → Change → List Change
overtaken c c' = inbox 0 (deliver_all (1 ∷ 0 ∷ []) (emit_all (0 ∷ []) (c ∷ c' ∷ []), [])).1

overtaken_lem : (c c' : Change) → overtaken c c' ≡ c' ∷ c ∷ []
unfolding deliver_all deliver emit_all
overtaken_lem c c' = refl

module _ (S : Suture) (L : IsLawful S) (K : Keyring) where
  -- A new task is created and removed before the goroutine of the first event has sent it. If the
  -- second goroutine sends first, the configuration does not have the task and the supervisor runs it.
  pub overtaken-Tracks :
      (t : Task) (w : World K) (m : String → Option Task) (old : List Task) (s : Supervisor S)
      → m t.uuid ≡ none
      → Tracks S m old s
      → let tasks = (apply K (delete t) true (apply K (create t) true w).0).0.global.tasks in
        (find t.uuid tasks ≡ none)
        × Tracks S
            (after (create t) (after (delete t) m))
            tasks
            (handle_events S tasks (overtaken (event_of (create t)) (event_of (delete t))) s)
        × (after (create t) (after (delete t) m) t.uuid ≡ some t)
  overtaken-Tracks t w m old s new T =
      let w' = (apply K (create t) true w).0 in
      let tasks = (apply K (delete t) true w').0.global.tasks in
      let same_ : (t.uuid == t.uuid) ≡ true = (eq_iff t.uuid t.uuid).1 refl in
      (
        find-apply K (delete t) true w' t.uuid ∙ rw same_ refl,
        rw (overtaken_lem (event_of (create t)) (event_of (delete t))) (
            listen_config-Tracks S L (create t) (after (delete t) m) tasks tasks _ (rw same_ refl)
              (listen_config-Tracks S L (delete t) m old tasks s tt T)),
        rw same_ refl,
      )
