-- ===== src/Control/Syncer/Start.antt =====
-- control/syncer.go: `NewSyncer` and `Serve`.
use cells_sync.Prelude.{
  ℕ, String, Bool, true, false, ◌||◌, Option, none, some, List, [], ◌∷◌, ◌++◌, ◌==◌, string_eq,
  if◌then◌else◌, ◌>>=◌,
}
use cells_sync.Config.Types.{Task}
use cells_sync.Endpoint.Patch.{Patch}
use cells_sync.Control.State.{TaskStatus, idle, processing, error, touch_last_ops_time}
use cells_sync.Control.State.File.{new_file_store, same_status}
use cells_sync.Control.Syncer.{
  Lib, Syncer, call_task, start, Direction, bi, left_only, right_only, create, set_filters,
  set_patch_listener, setup_cmd, setup_events, set_snapshots, Outcome, set_status, update_process,
  with_mem,
}

-- An endpoint, by the URI of its info, or an error.
pub data Opened : Type 0 where
  opened : String → Opened
  failed : String → Opened

-- What `NewSyncer` meets: the folder of a task, the state file with the numbers of the statuses, the
-- endpoints (`EndpointFromURI`), the folder and the patch store of the task, and `errors.Wrap`.
pub record World : Type 0 where
  pub task_folder : String → String  -- `filepath.Join(config.SyncClientDataDir(), uuid)`
  pub contents : Option (List ℕ)
  pub opens : Bool
  pub code : TaskStatus → ℕ
  pub of_int : Bool × ℕ → TaskStatus
  pub open_endpoint : String → String → Opened
  pub make_folder : Option String  -- the error of `os.MkdirAll`, `none` also if the folder exists
  pub patch_store_opens : Bool
  pub wrap : Option String → String → Option String

-- The switch on `conf.Direction`.
unfoldable pub direction_of : String → Option Direction
direction_of d =
    if d == "Bi"
    then some bi
    else if d == "Left"
    then some left_only
    else if d == "Right"
    then some right_only
    else none

-- How far the set up of the task came: the start error, or the two endpoints and their direction.
pub data Prepared : Type 0 where
  refused : Option String → Prepared
  prepared : String → String → Direction → Prepared

module _ (lib : Lib) (now : ℕ) where
  -- The deferred function of `NewSyncer`.
  unfoldable pub with_start_error : Option String → Syncer → Option Outcome
  with_start_error none s = some (s, [])
  with_start_error (some e) s = update_process lib now (lib.set_error e (lib.new_status e)) error s

module _ (w : World) where
  abbrev with_direction : String → String → Option Direction → Prepared
  with_direction l r none =
      refused (w.wrap none "unsupported direction type, please use one of Bi, Left, Right")
  with_direction l r (some d) = prepared l r d

  abbrev with_right : String → Opened → Option Direction → Prepared
  with_right l (failed e) d = refused (w.wrap (some e) "cannot start right endpoint")
  with_right l (opened r) d = with_direction l r d

  abbrev with_left : Opened → Opened → Option Direction → Prepared
  with_left (failed e) o d = refused (w.wrap (some e) "cannot start left endpoint")
  with_left (opened l) o d = with_right l o d

  -- The part of `NewSyncer` that may return early.
  unfoldable pub prepare : Task → Prepared
  prepare t =
      if t.left_uri == "" || t.right_uri == ""
      then refused
          (some "invalid arguments: please provide left and right endpoints using a valid URI")
      else with_left (w.open_endpoint t.left_uri t.right_uri)
          (w.open_endpoint t.right_uri t.left_uri) (direction_of t.direction)

  -- The service before its task is set up.
  unfoldable pub blank : Task → Syncer
  blank t =
      let store = new_file_store w.code w.of_int t w.contents w.opens in
      record {
        uuid = t.uuid;
        task = false;
        cmd = false;
        watches = false;
        config_path = w.task_folder t.uuid;
        source_uri = "";
        target_uri = "";
        store = store;
        patch_store = false;
        snap_factory = false;
        task_paused = false;
        last_patch = none;
        dirty_stopped = same_status store.previous_state processing;
        clean_snaps_after_stop = false;
        clean_all_after_stop = false;
      }

  module _ (lib : Lib) (now : ℕ) where
    abbrev pub with_folder : Task → String → String → Option String → Option Outcome
    with_folder t l r (some e) =
        with_start_error lib now (w.wrap (some e) "cannot create configuration folder for task")
          (blank t)
    with_folder t l r none = some (
      record (blank t) {
        task = true;
        cmd = true;
        watches = t.realtime;
        source_uri = l;
        target_uri = r;
        patch_store = w.patch_store_opens;
      },
      if w.patch_store_opens then call_task true set_patch_listener ∷ [] else [],
    )

    abbrev pub with_prepared : Task → Prepared → Option Outcome
    with_prepared t (refused e) = with_start_error lib now e (blank t)
    with_prepared t (prepared l r d) = do
      (s, calls) ← with_folder t l r w.make_folder
      some (
        s,
        call_task true (create d)
            ∷ call_task true (set_filters t.selective_roots ("**/.git**" ∷ "**/.pydio" ∷ []))
            ∷ calls,
      )

    -- `NewSyncer`
    unfoldable pub new_syncer : Task → Option Outcome
    new_syncer t = with_prepared t (prepare t)

module _ (lib : Lib) (now : ℕ) where
  abbrev with_last : Syncer → Option (List String) → Option Outcome
  with_last s none = some (set_status idle s, [])
  with_last s (some []) = none
  with_last s (some (e ∷ es)) =
      update_process lib now (lib.set_error e (lib.new_status "Previous sync ended on error!"))
        error s

  -- The last patch of the store, which `Serve` loads; `none` is an error of the store.
  unfoldable pub load_last : Option (List Patch) → Syncer → Option Outcome
  load_last none s = some (s, [])
  load_last (some []) s = some (s, [])
  load_last (some (p ∷ ps)) s =
      with_last
        (with_mem (touch_last_ops_time (some p.stamp) now s.store.mem)
          (record s { last_patch = some p }))
        p.errors

  abbrev with_store : Bool → Option (List Patch) → Syncer → Option Outcome
  with_store true lasts s = load_last lasts s
  with_store false lasts s = some (s, [])

  -- `Serve`, up to its wait for the stop. `lasts` is what `s.patchStore.Load(0, 1)` gives.
  unfoldable pub serve : Option (List Patch) → Syncer → Option Outcome
  serve lasts s =
      if s.task
      then (do
        (s', published) ← with_store s.patch_store lasts (record s { snap_factory = true })
        some (
          s',
          call_task true setup_cmd
              ∷ call_task true setup_events
              ∷ call_task true set_snapshots
              ∷ (published ++ (call_task true (start s.watches) ∷ [])),
        ))
      else some (s, [])
