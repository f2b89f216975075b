-- ===== src/Endpoint/Uri/Watching.antt =====
-- endpoint/uri-parser.go with config/oidc-authorities.go: how long an endpoint follows its authority.
use cells_sync.Prelude.{
  ◌&&◌, Option, none, some, if◌then◌else◌, ◌==◌, ◌≡◌, ◌≢◌, String, Bool, false, List, [], ◌∷◌, ◌++◌,
  string_eq,
}
use cells_sync.Config.Types.{Authority, Url}
use cells_sync.Config.Keyring.{Keyring}
use cells_sync.Config.Global.{Change, task_change, auth_change}
use cells_sync.Config.Authorities.{AuthWorld}
use cells_sync.Config.Authorities.Monitors.{IsStable, AuthCommand, run}
use cells_sync.Endpoint.Uri.{ParsedUri, RemoteConfig, Watcher, on_changes}

-- A change that is not called "delete".
abbrev pub IsNoDelete : Change → Type 0
IsNoDelete (task_change kind t) = Unit
IsNoDelete (auth_change kind a) = kind ≢ "delete"

abbrev pub AreNoDelete : List Change → Type 0
AreNoDelete [] = Unit
AreNoDelete (c ∷ cs) = IsNoDelete c × AreNoDelete cs

module _ (parse_url : String → Option Url) (u : ParsedUri) where
  -- The URIs of the authorities can be parsed.
  abbrev pub AreParsed : List Change → Type 0
  AreParsed [] = Unit
  AreParsed (task_change kind t ∷ cs) = AreParsed cs
  AreParsed (auth_change kind a ∷ cs) = ((x : Url) × (parse_url a.uri ≡ some x)) × AreParsed cs

  -- On the server of the endpoint, with its user.
  abbrev pub is_own : Authority → Option Url → Bool
  is_own a none = false
  is_own a (some x) =
      x.scheme == u.url.scheme && x.host == u.url.host && a.username == u.url.username

  -- The authorities of the endpoint among the changes.
  abbrev pub own : List Change → List Authority
  own [] = []
  own (task_change kind t ∷ cs) = own cs
  own (auth_change kind a ∷ cs) = if is_own a (parse_url a.uri) then a ∷ own cs else own cs

  -- The configurations with the tokens of one authority after the other.
  abbrev pub following : List Authority → RemoteConfig → List RemoteConfig
  following [] c = []
  following (a ∷ as') c =
      let c' = record c {
        id_token = a.access_token;
        refresh_token = a.refresh_token;
        expires_at = a.expires_at;
      } in
      c' ∷ following as' c'

  -- The goroutine goes on, and the endpoint was refreshed with each configuration in turn.
  abbrev pub Follows : List Change → Watcher → Type 0
  Follows cs v =
      (w : Watcher) × (on_changes parse_url u cs v ≡ some w)
      × (w.returned ≡ false)
      × (w.refreshed ≡ v.refreshed ++ following (own cs) v.config)

module _ (load_info : Authority → Authority) (L : IsStable load_info) (K : Keyring) where
  -- When the program has run any commands on its authorities, removals included.
  abbrev pub run_all : List (AuthCommand × Bool) → AuthWorld load_info K → AuthWorld load_info K
  run_all [] w = w
  run_all ((c, ok) ∷ cs) w = run_all cs (run load_info L K c ok w).0
