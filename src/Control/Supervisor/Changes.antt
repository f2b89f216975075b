-- ===== src/Control/Supervisor/Changes.antt =====
-- control/supervisor.go: which services run after a change of the configuration.
use cells_sync.Prelude.{◌≡◌, String, Option, none, some, List, if◌then◌else◌, ◌==◌, string_eq}
use cells_sync.Config.Types.{Task}
use cells_sync.Config.Global.Tasks.{Command, create, edit, delete as delete_task, event_of}
use cells_sync.Control.Supervisor.{
  Suture, Supervisor, start_task, restart_scheduler, change_task, listen_config,
}
use cells_sync.Control.Supervisor.Running.{
  IsLawful, Tracks, TracksBut, restart_scheduler-Tracks, remove_task-TracksBut, start_task-Follows,
  forget-Tracks,
}

-- What a change of the tasks makes of the map of the tasks that run.
abbrev pub after : Command → (String → Option Task) → String → Option Task
after (create t) m u = if t.uuid == u then some t else m u
after (edit t) m u = if t.uuid == u then some t else m u
after (delete_task t) m u = if t.uuid == u then none else m u

-- A task that is created has a new uuid.
abbrev pub IsAllowed : Command → (String → Option Task) → Type 0
IsAllowed (create t) m = m t.uuid ≡ none
IsAllowed (edit t) m = Unit
IsAllowed (delete_task t) m = Unit

module _ (S : Suture) (L : IsLawful S) where
  Tracks-TracksBut :
      (u : String) (m : String → Option Task) (tasks : List Task) (s : Supervisor S)
      → m u ≡ none
      → Tracks S m tasks s
      → TracksBut S u m tasks s
  Tracks-TracksBut u m tasks s e T = record {
    distinct = T.distinct;
    stopped = (rw e at (T.runs u)).1;
    runs = λ v differ. T.runs v;
    scheduled = T.scheduled;
  }

  -- If the supervisor runs one service for each task of a map and one scheduler, then it still does
  -- after it has handled a change of a task, for the changed map and the tasks of the
  -- configuration: a task that is created or updated runs once, with its new settings, a task that
  -- is removed does not run, and the others go on. A created task must have a new uuid.
  pub listen_config-Tracks :
      (c : Command) (m : String → Option Task) (old tasks : List Task) (s : Supervisor S)
      → IsAllowed c m
      → Tracks S m old s
      → Tracks S (after c m) tasks (listen_config S tasks (event_of c) s).0
  unfolding listen_config change_task start_task restart_scheduler
  listen_config-Tracks (create t) m old tasks s new T =
      start_task-Follows S L t m _ _
        (Tracks-TracksBut t.uuid m tasks _ new (restart_scheduler-Tracks S L m old tasks s T))
  listen_config-Tracks (edit t) m old tasks s new T =
      start_task-Follows S L t m _ _
        (remove_task-TracksBut S L t.uuid m tasks _ (restart_scheduler-Tracks S L m old tasks s T))
  listen_config-Tracks (delete_task t) m old tasks s new T =
      forget-Tracks S L t.uuid m tasks _
        (remove_task-TracksBut S L t.uuid m tasks _ (restart_scheduler-Tracks S L m old tasks s T))
