-- ===== src/Examples/Updates.antt =====
-- The theorems on the updater and on the monitors of the tokens at a concrete server and package.
use cells_sync.Prelude.{
  ℕ, ◌≡◌, ◌≢◌, refl, arith, eq_iff, String, true, false, none, some, List, [], ◌∷◌, inr, ltb, ◌+◌,
  ◌/◌, All,
}
use cells_sync.Config.Types.{Url}
use cells_sync.Config.Global.{Updates}
use cells_sync.Config.Monitor.{
  Response, take_trigger, take_done, room, timer, stop, selecting, TokenMonitor, start, step,
  run_events,
}
use cells_sync.Config.Monitor.Blocking.{IsStuck, timers-IsStuck}
use cells_sync.Config.Monitor.Renewal.{IsInTime, HasTokens, step-renews}
use cells_sync.Control.Updater.{
  Package, Host, check_status, apply_status, load_updates, ask, report, only_slashes, trim_slashes,
}
use cells_sync.Control.Updater.Download.{
  Doubles, Options, Installer, Action, send, take, finish, download, running, act, act_all,
  apply_update,
}
use cells_sync.Control.Updater.Verified.{IsSigned, download-applied}
use cells_sync.Examples.Settings.{alice, ring}
use cells_sync.Examples.Logins.{load_info, load_info-IsStable, logins}

abbrev answer : Response
answer = record {
  id_token = 1 ∷ [];
  access_token = 2 ∷ [];
  refresh_token = 3 ∷ [];
  expires_in = 900;
}

timers-IsStuck_example : IsStuck load_info ring logins (
    run_events load_info ring
      (timer ∷ timer ∷ stop ∷ room ∷ take_done ∷ [])
      (start load_info ring alice 5 logins))
timers-IsStuck_example = timers-IsStuck load_info ring alice 5 logins (stop ∷ room ∷ take_done ∷ [])

abbrev due : TokenMonitor load_info ring
due = record {
  authority = alice;
  trigger = 1;
  next_tick = 0;
  done = false;
  life = selecting;
  auths = logins;
}

alice_named : alice.id ≢ ""
alice_named = ground (arith, eq_iff alice.id "")

step-renews_example :
    let m' = step load_info ring (take_trigger (some answer) 7000000000 false) due in
    (m'.life ≡ selecting)
    × (m'.trigger ≡ 0)
    × IsInTime load_info 7000000000 m'.next_tick (7000000000 / 1000000000 + answer.expires_in)
    × All (HasTokens load_info alice.id answer 7000000000) m'.auths.world.global.authorities
step-renews_example =
    step-renews load_info load_info-IsStable ring answer 7000000000 false due alice_named refl refl

abbrev server : Url
server = record { scheme = "https"; host = "updates"; path = "/"; username = "" }

abbrev release : Package
release = record {
  package_name = "CellsSync";
  version = "0.2.0";
  label = "";
  description = "";
  release_date = 1;
  binary_os = "linux";
  binary_arch = "amd64";
  binary_url = "https://updates/binary";
  binary_size = 4096;
  binary_checksum = "sum";
  binary_signature = "sign";
  license = "GPL";
}

abbrev machine : Host
machine = record {
  version = "0.1.0";
  package_type = "CellsSync";
  os = "linux";
  arch = "amd64";
  build_stamp = "stamp";
  temp_dir = "/tmp";
  data_dir = "/data";
  join = λ a b. b;
  mkdir_all = λ d. true;
  parse_url = λ u. inr server;
  url_text = λ u. "https://updates/a/update-server";
  check_version = λ v. none;
  post = λ u r. inr (200, inr (release ∷ []));
  status_text = λ n. "500";
}

abbrev updates : Updates
updates = record {
  frequency = "restart";
  download_auto = false;
  update_channel = "";
  update_url = "https://updates/";
  update_public_key = "key";
}

available :
    load_updates machine false 3 updates
    ≡ check_status "checking" [] "" ∷ check_status "available" (release ∷ []) "" ∷ []
unfolding load_updates ask report only_slashes trim_slashes
available = refl

-- Progress in hundredths.
abbrev doubles : Doubles
doubles = record {
  zero_bits = 0;
  one_bits = 100;
  exceeds = λ a b. ltb (b + 1) a;
  fraction = λ a b. a;
  single = λ a. a;
}

abbrev installer : Installer ℕ String
installer = record {
  pem_decode = λ k. some (7 ∷ []);
  asn1_key = λ b. inr 65537;
  download = λ u. inr (200, "binary");
  plain = λ b. b;
  base64 = λ s. inr (5 ∷ []);
  install = λ b o. (10 ∷ 11 ∷ 50 ∷ [], none);
}

abbrev interleaving : List Action
interleaving = send ∷ take ∷ send ∷ take ∷ send ∷ finish ∷ take ∷ []

-- The last progress is published after the end: it was read before, and the goroutine went on late.
late_progress :
    (apply_update doubles machine installer false "key" release true interleaving).published
    ≡ apply_status "downloading" release 10 ""
      ∷ apply_status "done" release 100 ""
      ∷ apply_status "downloading" release 50 ""
      ∷ []
unfolding apply_update download running act act_all
late_progress = refl

abbrev options : Options ℕ
options = record {
  checksum = 5 ∷ [];
  signature = 5 ∷ [];
  target_path = "pydio-update";
  old_save_path = "revision-stamp";
  public_key = 65537;
}

installs : (download doubles machine installer false "key" release true).applied ≡ some options
unfolding download
installs = refl

download-applied_example :
    ((block : List ℕ) × (installer.pem_decode "key" ≡ some block)
      × (installer.asn1_key block ≡ inr options.public_key))
    × (false ≡ false)
    × ((body : String) × (installer.download release.binary_url ≡ inr (200, body)))
    × IsSigned doubles machine installer release true options
download-applied_example =
    download-applied doubles machine installer release true false "key" options installs
