-- ===== src/Examples/Consoles.antt =====
-- The theorems on the commands at a concrete configuration and network, and on a spawned command.
use cells_sync.Prelude.{
  ℕ, ◌≡◌, refl, Bool, true, false, Option, none, some, List, [], ◌∷◌, inr, ltb,
}
use cells_sync.Go.Strings.{contains}
use cells_sync.Control.Spawned.{
  Event, serves, starts, ends, stops, running, SpawnedService, new_spawned_service, killed_text,
  is_killed, run_ended, stop_spawned, spawned_step, spawned_steps,
}
use cells_sync.Control.Spawned.Kills.{Descends, stopped_since, is_serving, spawned_steps-killed}
use cells_sync.Config.Types.{Task}
use cells_sync.Config.Global.{World}
use cells_sync.Commands.{delete_cmd, get_http_address, first_port}
use cells_sync.Commands.Deleting.{Deletes, delete_cmd-Deletes}
use cells_sync.Examples.Values.{task}
use cells_sync.Examples.Settings.{ring, world}

abbrev other_task : Task
other_task = record task { uuid = "other" }

abbrev two_tasks : World ring
two_tasks = record world { global = record (world.global) { tasks = task ∷ other_task ∷ [] } }

delete_cmd-Deletes_example :
    (r : World ring × Option ℕ) × (delete_cmd ring (inr 0) true two_tasks ≡ some r)
    × Deletes ring task two_tasks r
delete_cmd-Deletes_example = delete_cmd-Deletes ring 0 task two_tasks refl

-- The first two ports are taken.
abbrev is_free : ℕ → Bool
is_free port = ltb 3637 port

third_port : get_http_address is_free ≡ some 3638
unfolding get_http_address first_port
third_port = refl

-- A command is stopped while it runs, the next one runs on.
abbrev life : List Event
life = serves ∷ starts none ∷ stops ∷ ends (some killed_text) ∷ serves ∷ starts none ∷ []

abbrev spawned : SpawnedService
spawned = record {
  name = "systray";
  args = [];
  cancel = some 2;
  phase = running;
  launched = 2;
  has_process = true;
  killed = 1 ∷ [];
  panics = [];
}

lives : spawned_steps false life (new_spawned_service "systray" []) ≡ some spawned
unfolding spawned_steps spawned_step new_spawned_service run_ended stop_spawned contains
lives = refl

spawned_steps-killed_example :
    Descends 3 (1 ∷ [])
    × (is_serving running ≡ true → is_killed 2 (1 ∷ []) ≡ stopped_since life false)
spawned_steps-killed_example = spawned_steps-killed false life "systray" [] spawned lives
