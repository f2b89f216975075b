-- ===== src/Config/Global/Tasks.antt =====
-- config/defaults.go: what the changes of the tasks do to the tasks, by their uuid.
use cells_sync.Prelude.{
  ◌≡◌, String, Bool, true, false, ◌&&◌, Option, none, some, List, [], ◌∷◌, ◌++◌, arith,
  if◌then◌else◌, ◌==◌, string_eq, eq_iff,
}
use cells_sync.Config.Types.{Task}
use cells_sync.Config.Keyring.{Keyring}
use cells_sync.Config.Global.{
  Change, task_change, World, without_task, with_task, save, create_task, remove_task, update_task,
}

-- The first task with a uuid, and whether there is one.
abbrev pub find : String → List Task → Option Task
find u [] = none
find u (t ∷ ts) = if t.uuid == u then some t else find u ts

abbrev pub is_some {ℓ} : {A : Type ℓ} → Option A → Bool
is_some none = false
is_some (some a) = true

find-without_task :
    (u : String) (task : Task) (ts : List Task)
    → find u (without_task task ts) ≡ (if task.uuid == u then none else find u ts)
unfolding without_task
find-without_task u task [] = ground arith
find-without_task u task (t ∷ ts) = ground (
  arith,
  find-without_task u task ts,
  eq_iff t.uuid task.uuid,
  eq_iff task.uuid u,
  eq_iff t.uuid u,
)

find-with_task :
    (u : String) (task : Task) (ts : List Task)
    → find u (with_task task ts)
      ≡ (if task.uuid == u && is_some (find u ts) then some task else find u ts)
unfolding with_task
find-with_task u task [] = ground arith
find-with_task u task (t ∷ ts) =
    ground (
      arith,
      find-with_task u task ts,
      eq_iff t.uuid task.uuid,
      eq_iff task.uuid u,
      eq_iff t.uuid u,
    )

find-append :
    (u : String) (ts : List Task) (t : Task)
    → find u (ts ++ (t ∷ []))
      ≡ (if is_some (find u ts) then find u ts else if t.uuid == u then some t else none)
find-append u [] t = ground arith
find-append u (s ∷ ts) t = ground (arith, find-append u ts t)

-- The three changes of the tasks.
pub data Command : Type 0 where
  create edit delete : Task → Command

-- What a change does to a map from uuids to tasks.
abbrev pub on_map : Command → String → Option Task → Option Task
on_map (create t) u none = if t.uuid == u then some t else none
on_map (create t) u (some old) = some old
on_map (edit t) u none = none
on_map (edit t) u (some old) = if t.uuid == u then some t else some old
on_map (delete t) u old = if t.uuid == u then none else old

abbrev pub event_of : Command → Change
event_of (create t) = task_change "create" t
event_of (edit t) = task_change "update" t
event_of (delete t) = task_change "remove" t

module _ (K : Keyring) where
  unfoldable pub apply : Command → Bool → World K → World K × Bool
  apply (create t) = create_task K t
  apply (edit t) = update_task K t
  apply (delete t) = remove_task K t

  save-tasks : (ok : Bool) (w : World K) → (save K ok w).0.global ≡ w.global
  unfolding save
  save-tasks ok w = ground arith

  -- Every change acts on the tasks, looked up by uuid, as on a map, whether or not the save goes
  -- well: create adds a task if its uuid is new, update replaces the task of its uuid if there is
  -- one, remove deletes it, and all other tasks stay.
  pub find-apply :
      (c : Command) (ok : Bool) (w : World K) (u : String)
      → find u (apply c ok w).0.global.tasks ≡ on_map c u (find u w.global.tasks)
  unfolding apply create_task update_task remove_task save
  find-apply (create t) ok w u = ground (arith, find-append u w.global.tasks t)
  find-apply (edit t) ok w u = ground (arith, find-with_task u t w.global.tasks)
  find-apply (delete t) ok w u = ground (arith, find-without_task u t w.global.tasks)
