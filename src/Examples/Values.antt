-- ===== src/Examples/Values.antt =====
-- Tasks, services and parameters for the examples.
use cells_sync.Prelude.{
  ℕ, String, nat_eq, ◌<>◌, Bool, true, false, Option, none, some, [], ◌∷◌, ◌==◌, string_eq,
  if◌then◌else◌,
}
use cells_sync.Config.Types.{Task, Url}
use cells_sync.Endpoint.Patch.{Patch}
use cells_sync.Control.State.{
  TaskStatus, idle, paused, disabled, processing, error, restarting, stopping, removed, unnamed,
}
use cells_sync.Control.State.File.{FileStateStore, new_file_store}
use cells_sync.Control.Syncer.{Lib, Syncer}
use cells_sync.Control.Syncer.Start.{World, opened}

abbrev pub task : Task
task = record {
  uuid = "u1";
  label = "docs";
  left_uri = "fs:///a";
  right_uri = "https://me@cells/b";
  direction = "Bi";
  selective_roots = [];
  realtime = true;
  loop_interval = "";
  hard_interval = "";
}

abbrev pub left_url : Url
left_url = record { scheme = "fs"; host = ""; path = "/a"; username = "" }

abbrev pub right_url : Url
right_url = record { scheme = "https"; host = "cells"; path = "/b"; username = "me" }

abbrev pub parse : String → Option Url
parse uri =
    if uri == "fs:///a"
    then some left_url
    else if uri == "https://me@cells/b"
    then some right_url
    else none

abbrev pub lib : Lib
lib = record {
  parse = parse;
  new_status = λ text. record { endpoint_uri = ""; text = text; is_error = false; progress = 0 };
  set_error = λ e p. record p { is_error = true };
}

abbrev pub code : TaskStatus → ℕ
code idle = 0
code paused = 1
code disabled = 2
code processing = 3
code error = 4
code restarting = 5
code stopping = 6
code removed = 7
code (unnamed n) = n

abbrev pub of_int : Bool × ℕ → TaskStatus
of_int (false, n) =
    if n == 0
    then idle
    else if n == 1
    then paused
    else if n == 2
    then disabled
    else if n == 3
    then processing
    else if n == 4
    then error
    else if n == 5
    then restarting
    else if n == 6
    then stopping
    else if n == 7
    then removed
    else unnamed n
of_int (true, n) = unnamed n

-- An open state file that holds the status idle.
unfoldable pub store : FileStateStore
store = new_file_store code of_int task (some (b'0' ∷ [])) true

abbrev pub service : Syncer
service = record {
  uuid = "u1";
  task = true;
  cmd = true;
  watches = true;
  config_path = "/data/u1";
  source_uri = "fs:///a";
  target_uri = "https://cells/b";
  store = store;
  patch_store = true;
  snap_factory = true;
  task_paused = false;
  last_patch = none;
  dirty_stopped = true;
  clean_snaps_after_stop = false;
  clean_all_after_stop = false;
}

abbrev pub bad_patch : Patch
bad_patch = record {
  uuid = "p1";
  stamp = 5;
  size = 2;
  errors = some ("no space" ∷ []);
  stats_errors = none;
  stats_processed = some 1;
  operations = 1 ∷ 2 ∷ [];
}

abbrev pub world : World
world = record {
  task_folder = λ uuid. "/data/" <> uuid;
  contents = some (b'3' ∷ []);
  opens = true;
  code = code;
  of_int = of_int;
  open_endpoint = λ uri other. opened uri;
  make_folder = none;
  patch_store_opens = true;
  wrap = λ e text. elim e [ none ↦ none | some cause ↦ some (text <> ": " <> cause) ];
}
