-- ===== src/Examples/Events.antt =====
-- The theorems on the events of the configuration at concrete changes.
use mathlib.Core.List.{Perm}
use cells_sync.Prelude.{◌≡◌, refl, true, none, some, List, [], ◌∷◌, string_eq, nat_eq}
use cells_sync.Config.Global.{Change}
use cells_sync.Config.Global.Tasks.{create, edit, delete, event_of, find, apply}
use cells_sync.Config.Watching.{deliver, deliver_all, emit_all}
use cells_sync.Config.Watching.Delivered.{inbox, deliver_all-Perm_events}
use cells_sync.Control.Supervisor.Changes.{after}
use cells_sync.Control.Supervisor.Running.{Tracks}
use cells_sync.Control.Supervisor.Agreement.{handle_events}
use cells_sync.Control.Supervisor.Overtaking.{overtaken, overtaken-Tracks}
use cells_sync.Examples.Values.{task}
use cells_sync.Examples.Settings.{world, ring}
use cells_sync.Examples.Supervisors.{services, services-IsLawful, started, started-Agree, second}

abbrev events : List Change
events = event_of (create second) ∷ event_of (edit task) ∷ []

-- Two channels, and the second event comes in between.
deliver_all-Perm_events_example :
    Perm (inbox 7 (deliver_all (0 ∷ 1 ∷ 1 ∷ 0 ∷ []) (emit_all (4 ∷ 7 ∷ []) events, [])).1) events
unfolding deliver_all deliver emit_all
deliver_all-Perm_events_example =
    deliver_all-Perm_events 7 (4 ∷ 7 ∷ []) (0 ∷ 1 ∷ 1 ∷ 0 ∷ []) events refl (refl, (refl, tt))

overtaken-Tracks_example :
    (find "u2"
        (apply ring (delete second) true (apply ring (create second) true world).0).0.global.tasks
      ≡ none)
    × Tracks services
        (after (create second) (after (delete second) (λ u. find u (task ∷ []))))
        (apply ring (delete second) true (apply ring (create second) true world).0).0.global.tasks
        (handle_events services
          (apply ring (delete second) true (apply ring (create second) true world).0).0.global.tasks
          (overtaken (event_of (create second)) (event_of (delete second)))
          started)
    × (after (create second) (after (delete second) (λ u. find u (task ∷ []))) "u2" ≡ some second)
overtaken-Tracks_example =
    overtaken-Tracks services services-IsLawful ring second world (λ u. find u (task ∷ []))
      (task ∷ []) started refl started-Agree
