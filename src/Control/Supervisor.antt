-- ===== src/Control/Supervisor.antt =====
-- control/supervisor.go: the services that the supervisor runs, and the changes of the configuration.
-- The package suture is a parameter: it keeps the services that were added, each with a token.
pub mod Entries
pub mod Running
pub mod Changes
pub mod Agreement
pub mod Overtaking
pub mod Starting
use cells_sync.Prelude.{
  ℕ, Bool, String, Option, none, some, List, [], ◌∷◌, ◌++◌, if◌then◌else◌, ◌==◌, string_eq,
}
use cells_sync.Config.Types.{Task}
use cells_sync.Config.Global.{Change, task_change, auth_change}
use cells_sync.Control.Bus.{Message, halt, restart_clean, halt_clean}

-- What the supervisor adds: the services of tasks, the scheduler, and the services without a state
-- that it follows (HTTP server, updater, profiler, standard input, tray).
pub data Service : Type 0 where
  syncer : Task → Service
  scheduler : List Task → Service
  other : String → Service

-- How the process ends: by the service manager of the system, or by the supervisor.
pub data Exit : Type 0 where
  stop_service stop_supervisor : Exit

-- `listenBus`, for a message on the global topic.
unfoldable pub listen_bus : Bool → Message → Option Exit
listen_bus as_service halt = some (if as_service then stop_service else stop_supervisor)
listen_bus as_service _ = none

-- `suture.Supervisor`
pub record Suture : Type 1 where
  pub State : Type 0
  pub add : Service → State → ℕ × State
  pub remove : ℕ → State → State
  pub running : State → List (ℕ × Service)

abbrev pub lookup : String → List (String × ℕ) → Option ℕ
lookup u [] = none
lookup u ((v, k) ∷ m) = if v == u then some k else lookup u m

abbrev pub delete : String → List (String × ℕ) → List (String × ℕ)
delete u [] = []
delete u ((v, k) ∷ m) = let rest = delete u m in if v == u then rest else (v, k) ∷ rest

module _ (S : Suture) where
  -- `Supervisor`
  pub record Supervisor : Type 0 where
    pub suture : S.State
    pub tasks_tokens : List (String × ℕ)
    pub scheduler_token : ℕ

  -- `s.tasksTokens[t.Uuid] = s.Add(NewSyncer(t))`
  unfoldable pub start_task : Task → Supervisor → Supervisor
  start_task t s =
      let (k, st) = S.add (syncer t) s.suture in
      record s { suture = st; tasks_tokens = (t.uuid, k) ∷ delete t.uuid s.tasks_tokens }

  -- `s.schedulerToken = s.Add(NewScheduler(tasks))`
  unfoldable pub start_scheduler : List Task → Supervisor → Supervisor
  start_scheduler tasks s =
      let (k, st) = S.add (scheduler tasks) s.suture in
      record s { suture = st; scheduler_token = k }

  unfoldable pub restart_scheduler : List Task → Supervisor → Supervisor
  restart_scheduler tasks s =
      start_scheduler tasks (record s { suture = S.remove s.scheduler_token s.suture })

  -- Remove the service of a task, if it has a token; its token stays.
  unfoldable pub remove_task : String → Supervisor → Supervisor
  remove_task u s = elim (lookup u s.tasks_tokens) [
    | none ↦ s
    | some k ↦ record s { suture = S.remove k s.suture }
  ]

  -- The message on the topic of the task, before its service is removed.
  abbrev announce_end : Message → String → Supervisor → List (Message × String)
  announce_end m u s = elim (lookup u s.tasks_tokens) [ none ↦ [] | some k ↦ (m, u) ∷ [] ]

  abbrev forget : String → Supervisor → Supervisor
  forget u s = record s { tasks_tokens = delete u s.tasks_tokens }

  -- A change of a task in `listenConfig`, by its type, after the scheduler was restarted.
  unfoldable pub change_task : String → Task → Supervisor → Supervisor × List (Message × String)
  change_task kind t s =
      if kind == "create"
      then (start_task t s, [])
      else if kind == "update"
      then (start_task t (remove_task t.uuid s), announce_end restart_clean t.uuid s)
      else if kind == "remove"
      then (forget t.uuid (remove_task t.uuid s), announce_end halt_clean t.uuid s)
      else (s, [])

  -- The loop of `listenConfig`. `tasks` is `config.Default().Tasks` when the event is handled.
  unfoldable pub listen_config :
      List Task → Change → Supervisor → Supervisor × List (Message × String)
  listen_config tasks (task_change kind t) s = change_task kind t (restart_scheduler tasks s)
  listen_config tasks (auth_change kind a) s = (s, [])

  -- The loop of `Serve` over the tasks.
  unfoldable pub start_tasks : List Task → Supervisor → Supervisor
  start_tasks [] s = s
  start_tasks (t ∷ ts) s = start_tasks ts (start_task t s)

  unfoldable pub start_others : List String → S.State → S.State
  start_others [] st = st
  start_others (o ∷ os) st = start_others os (S.add (other o) st).1

  -- `Serve`, with the names of the other services, up to the call that blocks.
  unfoldable pub serve : List Task → List String → S.State → Supervisor
  serve tasks others st =
      let s =
        start_scheduler tasks
          (start_tasks tasks (record { suture = st; tasks_tokens = []; scheduler_token = 0 })) in
      record s { suture = start_others others s.suture }
