-- ===== src/Examples/Uris.antt =====
-- The theorems on the URIs of endpoints at concrete URIs.
use cells_sync.Prelude.{
  Option, Bool, some, ℕ, ◌≡◌, refl, String, true, false, none, List, [], ◌∷◌, ◌++◌, ◌⊎◌, inr,
}
use cells_sync.Config.Types.{Url}
use cells_sync.Config.Authorities.Monitors.{AuthCommand, refresh, delete}
use cells_sync.Go.Strings.{split, split_from, begins}
use cells_sync.Endpoint.Uri.{ParsedUri, Factory, Watcher, endpoint_from_uri}
use cells_sync.Endpoint.Uri.Building.{IsShortDrive, LacksBucket, endpoint_from_uri-none}
use cells_sync.Examples.Settings.{alice}

abbrev uri_of : String → List ℕ → ParsedUri
uri_of scheme path = record {
  url = record { scheme = scheme; host = "minio"; path = ""; username = "" };
  host_name = [];
  path = path;
  user = none;
  root = "";
  query = λ k. "";
}

-- Everything is a URI of this scheme, with the path "b".
abbrev pub factory : String → Factory String
factory scheme = record {
  parse = λ u. inr (uri_of scheme (b'b' ∷ []));
  is_windows = false;
  file_join = λ a b. a ++ b;
  new_fs_client = λ p b. inr "fs";
  new_mem_db = "db";
  new_local = λ p b r. "router";
  new_remote = λ c p b. "remote";
  new_s3_client = λ c b. inr "s3";
  normalized = λ e. e;
}

panics : endpoint_from_uri (factory "s3") [] "s3://minio" "" false ≡ none
unfolding endpoint_from_uri split split_from begins
panics = refl

endpoint_from_uri-none_example :
    (u : ParsedUri) × ((factory "s3").parse "s3://minio" ≡ inr u)
    × (IsShortDrive (factory "s3") u false ⊎ LacksBucket (factory "s3") u)
endpoint_from_uri-none_example =
    endpoint_from_uri-none (factory "s3") [] "s3://minio" "" false panics

abbrev parse_any : String → Option Url
parse_any u = some (record { scheme = "https"; host = "minio"; path = ""; username = "" })

abbrev watcher : Watcher
watcher = record {
  config = record {
    url = "https://cells";
    id_token = [];
    refresh_token = [];
    expires_at = 0;
    skip_verify = false;
  };
  refreshed = [];
  returned = false;
}

abbrev changes : List (AuthCommand × Bool)
changes = (refresh alice true 5, true) ∷ (delete alice, true) ∷ []
