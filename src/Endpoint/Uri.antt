-- ===== src/Endpoint/Uri.antt =====
-- endpoint/uri-parser.go: the endpoint of a URI. The constructors of the endpoints and url.Parse are
-- parameters, and texts that are taken apart are bytes. `none` is a panic, `inl` an error.
pub mod Watching
pub mod Building
use cells_sync.Prelude.{
  ◌>>=◌, ℕ, suc, String, ◌<>◌, Bool, true, false, ◌&&◌, ◌||◌, not, Option, none, some, List, [],
  ◌∷◌, ◌++◌, ◌⊎◌, inl, inr, if◌then◌else◌, ◌==◌, string_eq, ltb, length, drop,
}
use cells_sync.Config.Types.{Authority, Url}
use cells_sync.Config.Global.{Change, task_change, auth_change}
use cells_sync.Go.Strings.{split, join, trim_left, contains}

-- What the code reads of a parsed URI. `root` is its text with an empty path, `query` finds a value.
pub record ParsedUri : Type 0 where
  pub url : Url
  pub host_name : List ℕ
  pub path : List ℕ
  pub user : Option (String × String)  -- name and password
  pub root : String
  pub query : String → String

-- `cells.RemoteConfig`; the header with the version is constant.
pub record RemoteConfig : Type 0 where
  pub url : String
  pub id_token : List ℕ
  pub refresh_token : List ℕ
  pub expires_at : ℕ
  pub skip_verify : Bool

pub record S3Config : Type 0 where
  pub host : String
  pub user_name : String
  pub password : String
  pub bucket : List ℕ
  pub root_path : List ℕ
  pub secure : Bool

-- The packages of the endpoints, the machine and url.Parse.
pub record Factory (E : Type 0) : Type 0 where
  pub parse : String → String ⊎ ParsedUri
  pub is_windows : Bool
  pub file_join : List ℕ → List ℕ → List ℕ
  pub new_fs_client : List ℕ → Bool → String ⊎ E  -- with BrowseOnly
  pub new_mem_db : E
  pub new_local : List ℕ → Bool → Bool → E  -- with BrowseOnly and RenewFolderUuids
  pub new_remote : RemoteConfig → List ℕ → Bool → E
  pub new_s3_client : S3Config → Bool → String ⊎ E
  pub normalized : E → E  -- ServerRequiresNormalization

-- `path[1:2] + ":\\"`, and the rest of the path behind its third byte. A path of one byte panics.
abbrev drive : List ℕ → Option (List ℕ)
drive [] = none
drive (a ∷ []) = none
drive (a ∷ b ∷ rest) = some (b ∷ b':' ∷ 92 ∷ [])

abbrev pub find_authority : String → List Authority → Option Authority
find_authority root [] = none
find_authority root (a ∷ as') =
    let rest = find_authority root as' in if a.id == root then some a else rest

-- The configuration of an authority. The access token goes where an id token is expected.
abbrev pub with_authority : Authority → RemoteConfig → RemoteConfig
with_authority a c = record c {
  id_token = a.access_token;
  refresh_token = a.refresh_token;
  expires_at = a.expires_at;
}

abbrev pub remote_config : ParsedUri → Authority → RemoteConfig
remote_config u a = record {
  url = u.url.scheme <> ("://" <> u.url.host);
  id_token = a.access_token;
  refresh_token = a.refresh_token;
  expires_at = a.expires_at;
  skip_verify = a.insecure_skip_verify;
}

module _ {E : Type 0} (F : Factory E) where
  abbrev with_drive : List ℕ → Option (List ℕ) → Option (List ℕ)
  with_drive path none = none
  with_drive path (some d) = some (if ltb 3 (length path) then F.file_join d (drop 3 path) else d)

  abbrev fs_path : List ℕ → Bool → Option (List ℕ)
  fs_path path browse =
      if F.is_windows && ltb 0 (length path) && browse
      then with_drive path (drive path)
      else some path

  abbrev fs_endpoint : Bool → Option (List ℕ) → Option (String ⊎ E)
  fs_endpoint browse none = none
  fs_endpoint browse (some path) = some (F.new_fs_client path browse)

  abbrev is_router : String ⊎ ParsedUri → Bool
  is_router (inl e) = false
  is_router (inr u) = u.url.scheme == "router"

  abbrev remote_endpoint : ParsedUri → Bool → Option Authority → String ⊎ E
  remote_endpoint u browse none = inl "cannot find authority"
  remote_endpoint u browse (some a) =
      inr (F.new_remote (remote_config u a) (trim_left b'/' u.path) browse)

  abbrev is_secure : ParsedUri → Bool
  is_secure u =
      contains u.host_name (
        b'a' ∷ b'm' ∷ b'a' ∷ b'z' ∷ b'o' ∷ b'n' ∷ b'a' ∷ b'w' ∷ b's' ∷ b'.' ∷ b'c' ∷ b'o' ∷ b'm'
        ∷ [])
      || u.query "secure" == "true"

  abbrev with_normalization : ParsedUri → String ⊎ E → String ⊎ E
  with_normalization u (inl e) = inl e
  with_normalization u (inr ep) =
      inr (if u.query "normalize" == "true" then F.normalized ep else ep)

  abbrev s3_client :
      ParsedUri → Bool → List ℕ → List (List ℕ) → Option (String × String) → String ⊎ E
  s3_client u browse bucket parts none = inl "please provide API keys and secret in URL"
  s3_client u browse bucket parts (some (name, password)) = with_normalization u (
      F.new_s3_client
        (record {
          host = u.url.host;
          user_name = name;
          password = password;
          bucket = bucket;
          root_path = join parts (b'/' ∷ []);
          secure = is_secure u;
        })
        browse)

  -- `parts[1]` and `parts[2:]`
  abbrev s3_endpoint : ParsedUri → Bool → List (List ℕ) → Option (String ⊎ E)
  s3_endpoint u browse [] = none
  s3_endpoint u browse (p ∷ []) = none
  s3_endpoint u browse (p ∷ bucket ∷ parts) = some (s3_client u browse bucket parts u.user)

  abbrev pub endpoint_of :
      List Authority → String ⊎ ParsedUri → Bool → String ⊎ ParsedUri → Option (String ⊎ E)
  endpoint_of as' other browse (inl e) = some (inl e)
  endpoint_of as' other browse (inr u) =
      if u.url.scheme == "fs"
      then fs_endpoint browse (fs_path u.path browse)
      else if u.url.scheme == "db"
      then some (inr F.new_mem_db)
      else if u.url.scheme == "router"
      then some (inr (F.new_local (trim_left b'/' u.path) browse (is_router other)))
      else if u.url.scheme == "http" || u.url.scheme == "https"
      then some (remote_endpoint u browse (find_authority u.root as'))
      else if u.url.scheme == "s3"
      then s3_endpoint u browse (split u.path (b'/' ∷ []))
      else some (inl ("unsupported scheme " <> u.url.scheme))

  -- `EndpointFromURI`, for the authorities of the configuration.
  unfoldable pub endpoint_from_uri : List Authority → String → String → Bool → Option (String ⊎ E)
  endpoint_from_uri as' uri other browse = endpoint_of as' (F.parse other) browse (F.parse uri)

  abbrev home_dir : Option (List ℕ) → List ℕ → List ℕ
  home_dir none sep = []
  home_dir (some home) sep =
      join (split home sep ++ ((b'C' ∷ b'e' ∷ b'l' ∷ b'l' ∷ b's' ∷ []) ∷ [])) (b'/' ∷ [])

  abbrev default_of : Option (List ℕ) → List ℕ → String ⊎ ParsedUri → List ℕ
  default_of home sep (inl e) = []
  default_of home sep (inr u) = if not (u.url.scheme == "fs") then [] else home_dir home sep

  -- `DefaultDirForURI`, for the home of the user and the separator of the file system.
  unfoldable pub default_dir_for_uri : Option (List ℕ) → List ℕ → String → List ℕ
  default_dir_for_uri home sep uri = default_of home sep (F.parse uri)

-- The goroutine of a remote endpoint that follows the changes of its authority.
pub record Watcher : Type 0 where
  pub config : RemoteConfig
  pub refreshed : List RemoteConfig  -- the calls of RefreshRemoteConfig
  pub returned : Bool

module _ (parse_url : String → Option Url) where
  -- Is the authority that of the endpoint? `none` is a panic: a URL that cannot be parsed is nil.
  abbrev pub is_mine : ParsedUri → Authority → Option Bool
  is_mine u a = parse_url a.uri >>= λ x.
      some (x.scheme == u.url.scheme && x.host == u.url.host && a.username == u.url.username)

  abbrev pub renew : Authority → Watcher → Watcher
  renew a w = record w {
    config = with_authority a w.config;
    refreshed = w.refreshed ++ (with_authority a w.config ∷ []);
  }

  abbrev pub on_mine : String → Authority → Watcher → Bool → Option Watcher
  on_mine kind a w mine =
      some
        (if mine then if kind == "delete" then record w { returned = true } else renew a w else w)

  -- One change, while the goroutine has not returned.
  unfoldable pub on_change : ParsedUri → Change → Watcher → Option Watcher
  on_change u (task_change kind t) w = some w
  on_change u (auth_change kind a) w =
      if w.returned then some w else is_mine u a >>= λ mine. on_mine kind a w mine

  unfoldable pub on_changes : ParsedUri → List Change → Watcher → Option Watcher
  on_changes u [] w = some w
  on_changes u (c ∷ cs) w = on_change u c w >>= λ w'. on_changes u cs w'
