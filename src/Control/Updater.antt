-- ===== src/Control/Updater.antt =====
-- control/updater.go: the service that looks for updates, and the messages that it publishes on the
-- topic it listens to. The exchange with the server, the codecs, the package go-update and the file
-- system are parameters. Errors are texts. The size of a binary is not negative.
pub mod Download
pub mod Published
pub mod Progress
pub mod Checking
pub mod Verified
use Prim.Native.Char.{code}
use cells_sync.Prelude.{
  ℕ, ◌+◌, ◌*◌, ◌/◌, String, ◌<>◌, Bool, true, false, ◌||◌, Option, none, some, List, [], ◌∷◌, ◌++◌,
  ◌⊎◌, inl, inr, if◌then◌else◌, ◌==◌, string_eq, nat_eq,
}
use cells_sync.Config.Types.{Url}
use cells_sync.Config.Global.{Updates}

-- `update.Package`
pub record Package : Type 0 where
  pub package_name : String
  pub version : String
  pub label : String
  pub description : String
  pub release_date : ℕ
  pub binary_os : String
  pub binary_arch : String
  pub binary_url : String
  pub binary_size : ℕ
  pub binary_checksum : String
  pub binary_signature : String
  pub license : String

-- `common.UpdateMessage`. The progress is kept as the bits of a float64.
pub data UpdateMessage : Type 0 where
  check_request : Bool → Bool → UpdateMessage  -- Check, Version
  apply_request : Option Package → Bool → UpdateMessage  -- Package, DryRun
  check_status : String → List Package → String → UpdateMessage  -- CheckStatus, Binaries, Error
  apply_status : String → Package → ℕ → String → UpdateMessage  -- with Progress, Error

-- `update.UpdateRequest`
pub record UpdateRequest : Type 0 where
  pub package_name : String
  pub channel : String
  pub current_version : String
  pub os : String
  pub arch : String

-- What the build and the machine say, and what the code calls.
pub record Host : Type 0 where
  pub version : String
  pub package_type : String
  pub os : String
  pub arch : String
  pub build_stamp : String
  pub temp_dir : String  -- os.TempDir()
  pub data_dir : String  -- config.SyncClientDataDir()
  pub join : String → String → String  -- filepath.Join
  pub mkdir_all : String → Bool  -- os.MkdirAll, `true` without an error
  pub parse_url : String → String ⊎ Url
  pub url_text : Url → String
  pub check_version : String → Option String  -- the error of version.NewVersion
  pub post : String → UpdateRequest → String ⊎ (ℕ × (String ⊎ List Package))
  pub status_text : ℕ → String  -- the number in a message

-- Does a text hold slashes only?
unfoldable pub only_slashes : String → Bool
only_slashes String.[] = true
only_slashes (String.◌∷◌ c s) = if code c == 47 then only_slashes s else false

-- `strings.TrimRight(s, "/")`
unfoldable pub trim_slashes : String → String
unfolding only_slashes
trim_slashes String.[] = ""
trim_slashes (String.◌∷◌ c s) =
    let rest = String.◌∷◌ c (trim_slashes s) in
    if code c == 47 then if only_slashes s then "" else rest else rest

abbrev pub given_channel : String → String
given_channel channel = if channel == "" then "stable" else channel

abbrev pub server_url : Host → Url → String
server_url H u =
    trim_slashes
      (H.url_text (if only_slashes u.path then record u { path = "/a/update-server" } else u))
    <> "/"

abbrev pub request_for : Host → String → UpdateRequest
request_for H channel = record {
  package_name = H.package_type;
  channel = given_channel channel;
  current_version = H.version;
  os = H.os;
  arch = H.arch;
}

-- The package of the debug mode, at a time in seconds.
abbrev fake_package : Host → ℕ → Package
fake_package H now = record {
  package_name = H.package_type;
  version = "1.0.0";
  label = "New Release";
  description = "Bug fixes for 1.X branch";
  release_date = now;
  binary_os = H.os;
  binary_arch = H.arch;
  binary_url = "https://fake-dl-url.com/package-name";
  binary_size = 10 * 1024 * 1024;
  binary_checksum = "";
  binary_signature = "";
  license = "GPL";
}

abbrev answer : Host → String ⊎ (ℕ × (String ⊎ List Package)) → String ⊎ List Package
answer H (inl e) = inl e
answer H (inr (status, body)) =
    if status == 200
    then body
    else inl ("could not connect to the update server, error code was " <> H.status_text status)

abbrev ask_version : Host → Bool → ℕ → String → Url → Option String → String ⊎ List Package
ask_version H debug now channel u (some e) = inl e
ask_version H debug now channel u none =
    if debug
    then inr (fake_package H now ∷ [])
    else answer H (H.post (server_url H u) (request_for H channel))

abbrev ask_url : Host → Bool → ℕ → String → String ⊎ Url → String ⊎ List Package
ask_url H debug now channel (inl e) = inl e
ask_url H debug now channel (inr u) = ask_version H debug now channel u (H.check_version H.version)

-- The body of `LoadUpdates`: its error or its packages.
unfoldable pub ask : Host → Bool → ℕ → Updates → String ⊎ List Package
ask H debug now conf =
    if conf.update_url == ""
    then inl "empty server url"
    else ask_url H debug now conf.update_channel (H.parse_url conf.update_url)

-- Its deferred function.
unfoldable pub report : String ⊎ List Package → UpdateMessage
report (inl e) = check_status "error" [] e
report (inr []) = check_status "up-to-date" [] ""
report (inr (p ∷ ps)) = check_status "available" (p ∷ ps) ""

-- `LoadUpdates`: what it publishes.
unfoldable pub load_updates : Host → Bool → ℕ → Updates → List UpdateMessage
load_updates H debug now conf = check_status "checking" [] "" ∷ report (ask H debug now conf) ∷ []

-- The goroutines that the service starts.
pub data Job : Type 0 where
  load_job : Job
  load_after : ℕ → Job  -- seconds
  apply_job : Package → Bool → Job

-- `dispatch`, for one message.
unfoldable pub dispatch : UpdateMessage → List Job
dispatch (check_request c v) = load_job ∷ []
dispatch (apply_request (some p) dry) = apply_job p dry ∷ []
dispatch (apply_request none dry) = []
dispatch (check_status s ps e) = []
dispatch (apply_status s p pg e) = []

unfoldable pub dispatch_all : List UpdateMessage → List Job
dispatch_all [] = []
dispatch_all (m ∷ ms) = dispatch m ++ dispatch_all ms

-- `Serve`, up to the wait for the end.
unfoldable pub serve : Updates → List Job
serve conf = if conf.frequency == "restart" then load_after 3 ∷ [] else []
