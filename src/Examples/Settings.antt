-- ===== src/Examples/Settings.antt =====
-- The theorems on the configuration at a concrete keyring and configuration.
use cells_sync.Prelude.{
  ℕ, ◌≡◌, refl, String, true, false, Option, none, some, List, [], ◌∷◌, arith, if◌then◌else◌, ◌==◌,
  string_eq, eq_iff,
}
use cells_sync.Config.Types.{Task, Authority}
use cells_sync.Config.Keyring.{Keyring}
use cells_sync.Config.Keyring.RoundTrip.{IsLawful}
use cells_sync.Config.Global.{Global, World, save, new_logs, new_updates}
use cells_sync.Config.Global.Tasks.{edit, find, apply, find-apply}
use cells_sync.Config.Global.Loading.{
  Json, IsFaithful, write_to_file, with_sections, default_global, default_global-save,
}
use cells_sync.Config.Authorities.{is_monitored}
use cells_sync.Config.Authorities.Monitors.{has_id}
use cells_sync.Examples.Values.{task}

abbrev Entries : Type 0
Entries = List (String × List ℕ)

abbrev lookup : Entries → String → Option (List ℕ)
lookup [] key = none
lookup ((k, v) ∷ es) key = if k == key then some v else lookup es key

-- A keyring that takes everything.
abbrev pub ring : Keyring
ring = record {
  State = Entries;
  set = λ es key value. some ((key, value) ∷ es);
  get = lookup;
  delete = λ es key. none;
}

ring-IsLawful : IsLawful ring
ring-IsLawful = record {
  get-set = λ es es' key value e. ground (arith, e, eq_iff key key);
  get-set_ne = λ es es' key other value e differ. ground (arith, e, eq_iff key other);
}

abbrev pub alice : Authority
alice = record {
  id = "https://cells/alice";
  uri = "https://cells";
  insecure_skip_verify = false;
  server_label = "Cells";
  username = "alice";
  login_date = 3;
  refresh_date = 4;
  token_status = "";
  tasks_count = 0;
  id_token = b'i' ∷ [];
  access_token = b'a' ∷ b'b' ∷ [];
  refresh_token = b'r' ∷ b'_' ∷ [];
  expires_at = 90;
}

abbrev pub world : World ring
world = record {
  global = record {
    tasks = task ∷ [];
    authorities = alice ∷ [];
    logs = some (new_logs "/data/logs");
    updates = some (new_updates "key");
    show_panels = some false;
    auto_start = some true;
    changes = 2;
  };
  ring = [];
  file = none;
  events = [];
}

abbrev pub renamed : Task
renamed = record task { label = "papers" }

find-apply_example : find "u1" (apply ring (edit renamed) true world).0.global.tasks ≡ some renamed
find-apply_example = find-apply ring (edit renamed) true world "u1"

-- A text that is the configuration without its channels.
abbrev json : Json
json = record {
  Text = Global;
  marshal = λ g. some g;
  unmarshal = λ g. some (record g { changes = 0 });
}

json-IsFaithful : IsFaithful json
json-IsFaithful = record { unmarshal-marshal = λ g. (g, refl, refl) }

abbrev named : Authority → Authority
named a = record a { id = "https://me@cells" }

default_global-save_example :
    let saved = (save ring true world).0 in
    let (g, monitors) =
      default_global json named ring "/logs" "key" false
        (write_to_file json saved.file)
        saved.ring in
    (g ≡ record (with_sections "/logs" "key" false world.global) { changes = 0 })
    × ((k : String) → is_monitored k monitors ≡ has_id named k world.global.authorities)
default_global-save_example =
    default_global-save json named ring json-IsFaithful ring-IsLawful "/logs" "key" false world
      ((λ e. ground (arith, e, eq_iff alice.id "")), tt) (tt, tt)
      ((ground arith, ground arith, ground arith, refl), tt)
