-- ===== src/Examples/Servers.antt =====
-- The theorems on the HTTP server and the scheduler at concrete inputs.
use cells_sync.Prelude.{
  ℕ, ◌≡◌, String, true, false, Option, none, some, List, [], ◌∷◌, arith, ltb, leb, nat_eq,
  string_eq, eq_iff, ◌+◌,
}
use cells_sync.Config.Types.{Task}
use cells_sync.Endpoint.PatchStore.{Loaded}
use cells_sync.Go.Strconv.{itoa}
use cells_sync.Control.Bus.{sync_loop}
use cells_sync.Control.State.{SyncState, processing, idle}
use cells_sync.Control.Http.{Floats}
use cells_sync.Control.Http.Patches.{list_patches, lookup, lookup-list_patches}
use cells_sync.Control.Scheduler.{Ticker}
use cells_sync.Examples.Values.{task}
use cells_sync.Examples.Patches.{two_patches}

-- Floats as thousandths.
abbrev pub floats : Floats
floats = record { zero = 0; one = 1000; less = ltb; is_small_step = λ old new. leb new (old + 1) }

abbrev pub at_progress : ℕ → SyncState
at_progress n = record {
  uuid = "u1";
  config = task;
  status = processing;
  last_sync_time = 0;
  last_ops_time = 0;
  last_process = some (record { endpoint_uri = ""; text = ""; is_error = false; progress = n });
  left_process = none;
  right_process = none;
  left_info = record { stats = none; connected = true; watcher_active = true; last_connection = 1 };
  right_info = record {
    stats = none;
    connected = true;
    watcher_active = true;
    last_connection = 1;
  };
}

abbrev pub done : SyncState
done = record (at_progress 7) { status = idle }

abbrev lines : List ℕ
lines = 1 ∷ 2 ∷ []

lookup-list_patches_example :
    (m : List (ℕ × Loaded)) × (list_patches (some two_patches) "u1" (itoa 0) (itoa 5) ≡ some m)
    × (lookup 0 m ≡ some (record { uuid = "b"; stamp = 4; operations = some 1 ∷ [] }))
lookup-list_patches_example =
    lookup-list_patches two_patches "u1" 0 5 0 (ground (arith, eq_iff "u1" "")) (omega arith)

abbrev hourly : Task
hourly = record task { loop_interval = "PT1H" }

abbrev parse_hour : String → Option ℕ
parse_hour text = some 3600

abbrev hour : Ticker
hour = record { owner = "u1"; interval = 3600; message = sync_loop }
