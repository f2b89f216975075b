-- ===== src/Config/Global.antt =====
-- config/defaults.go: the configuration in memory, its file, and the changes of its tasks.
-- A write to the file may fail (`write_ok` is false). The events are one goroutine each, which sends
-- the event to every channel of `Watch`; they stand in the order in which they are started.
pub mod Saved
pub mod Tasks
pub mod Loading
use cells_sync.Prelude.{
  ℕ, ◌+◌, suc, String, ◌<>◌, Bool, true, false, ◌&&◌, not, Option, none, some, List, [], ◌∷◌, ◌++◌,
  if◌then◌else◌, ◌==◌, string_eq, bool_eq, length,
}
use cells_sync.Config.Types.{Task, Authority}
use cells_sync.Config.Keyring.{Keyring, before_save}

pub record Logs : Type 0 where
  pub folder : String
  pub max_files_number : ℕ
  pub max_files_size : ℕ
  pub max_age_days : ℕ

pub record Updates : Type 0 where
  pub frequency : String
  pub download_auto : Bool
  pub update_channel : String
  pub update_url : String
  pub update_public_key : String

-- `config.Global`. `show_panels` and `auto_start` are the sections Debugging and Service, and
-- `changes` counts the channels that `Watch` gave out.
pub record Global : Type 0 where
  pub tasks : List Task
  pub authorities : List Authority
  pub logs : Option Logs
  pub updates : Option Updates
  pub show_panels : Option Bool
  pub auto_start : Option Bool
  pub changes : ℕ

-- `TaskChange` and `AuthChange`, with the text of their type.
pub data Change : Type 0 where
  task_change : String → Task → Change
  auth_change : String → Authority → Change

-- `NewLogs` and `NewUpdates`, for the folder of the logs and the public key.
unfoldable pub new_logs : String → Logs
new_logs folder = record {
  folder = folder;
  max_files_number = 8;
  max_files_size = 50;
  max_age_days = 30;
}

unfoldable pub new_updates : String → Updates
new_updates key = record {
  frequency = "restart";
  download_auto = false;
  update_channel = "stable";
  update_url = "https://updatecells.pydio.com/";
  update_public_key = key;
}

-- `Items`: a line for each task.
unfoldable pub arrow : String → String
arrow d = if d == "Left" then "=>" else if d == "Right" then "<=" else "<=>"

unfoldable pub items : List Task → List String
unfolding arrow
items [] = []
items (t ∷ ts) = (t.left_uri <> " " <> arrow t.direction <> " " <> t.right_uri) ∷ items ts

-- The loops of `RemoveTask` and `UpdateTask`.
unfoldable pub without_task : Task → List Task → List Task
without_task task [] = []
without_task task (t ∷ ts) =
    let rest = without_task task ts in if not (t.uuid == task.uuid) then t ∷ rest else rest

unfoldable pub with_task : Task → List Task → List Task
with_task task [] = []
with_task task (t ∷ ts) = (if t.uuid == task.uuid then task else t) ∷ with_task task ts

module _ (K : Keyring) where
  -- The configuration, the keyring, what the file holds, and the events that were started.
  pub record World : Type 0 where
    pub global : Global
    pub ring : K.State
    pub file : Option Global
    pub events : List Change

  -- The loop of `Save` over the authorities.
  unfoldable pub stored_authorities : List Authority → K.State → List Authority × K.State
  stored_authorities [] k = ([], k)
  stored_authorities (a ∷ as') k =
      let (b, k') = before_save K a k in let (bs, k'') = stored_authorities as' k' in (b ∷ bs, k'')

  -- `Save`, and whether it returned no error.
  unfoldable pub save : Bool → World → World × Bool
  save write_ok w =
      let (stored, k) = stored_authorities w.global.authorities w.ring in
      let w' = record w { ring = k } in
      (
        if write_ok
            then record w' { file = some (record (w.global) { authorities = stored }) }
            else w',
        write_ok,
      )

  -- A change of the configuration, its save, and the event if the save went well.
  abbrev pub saved_with : Global → Change → Bool → World → World × Bool
  saved_with g c write_ok w =
      let (w', saved) = save write_ok (record w { global = g }) in
      (if saved then record w' { events = w'.events ++ (c ∷ []) } else w', saved)

  -- `CreateTask`, `RemoveTask`, `UpdateTask`
  unfoldable pub create_task : Task → Bool → World → World × Bool
  create_task t ok w =
      saved_with (record (w.global) { tasks = w.global.tasks ++ (t ∷ []) }) (task_change "create" t)
        ok w

  unfoldable pub remove_task : Task → Bool → World → World × Bool
  remove_task t ok w =
      saved_with (record (w.global) { tasks = without_task t w.global.tasks })
        (task_change "remove" t) ok w

  unfoldable pub update_task : Task → Bool → World → World × Bool
  update_task t ok w =
      saved_with (record (w.global) { tasks = with_task t w.global.tasks }) (task_change "update" t)
        ok w

  -- `Watch`
  unfoldable pub watch : World → World
  watch w = record w { global = record (w.global) { changes = w.global.changes + 1 } }

  -- `UpdateGlobals`. `set_auto` is `setAutoStartValue`, `true` when it returned no error.
  abbrev set_service : (Bool → Bool) → Option Bool → Bool → Bool
  set_service set_auto none wanted = wanted
  set_service set_auto (some now) wanted =
      if wanted == now then wanted else if set_auto wanted then wanted else now

  abbrev given_or {ℓ} : {A : Type ℓ} → Option A → Option A → Option A
  given_or none old = old
  given_or (some new) old = some new

  abbrev with_service : (Bool → Bool) → Option Bool → Option Bool → Option Bool
  with_service set_auto none old = old
  with_service set_auto (some wanted) old = some (set_service set_auto old wanted)

  unfoldable pub update_globals :
      (Bool → Bool)
      → Option Logs
      → Option Updates
      → Option Bool
      → Option Bool
      → Bool
      → World
      → World × Bool
  update_globals set_auto logs updates debugging service ok w = save ok (record w {
    global = record (w.global) {
      logs = given_or logs w.global.logs;
      updates = given_or updates w.global.updates;
      show_panels = given_or debugging w.global.show_panels;
      auto_start = with_service set_auto service w.global.auto_start;
    };
  })
