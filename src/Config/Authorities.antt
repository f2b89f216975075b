-- ===== src/Config/Authorities.antt =====
-- config/oidc-authorities.go and config/oidc-token.go: the authorities of the configuration, and the
-- monitors that refresh their tokens. `LoadInfo` asks a server: here it is a parameter. A monitor is known
-- by its key.
pub mod Monitors
pub mod Public
pub mod Info
use cells_sync.Prelude.{
  ℕ, ◌+◌, ◌-◌, ◌*◌, nat_eq, String, Bool, true, false, ◌&&◌, ◌||◌, not, Option, none, some, List,
  [], ◌∷◌, ◌++◌, if◌then◌else◌, ◌==◌, string_eq, ◌>>=◌,
}
use cells_sync.Config.Types.{Task, Authority, Url}
use cells_sync.Config.Keyring.{Keyring, clear_keyring}
use cells_sync.Config.Global.{Global, Change, auth_change, World, save}

-- The map of the monitors: `getTokenMonitor` starts one for a new key, `stopMonitoringToken` stops it.
abbrev pub is_monitored : String → List String → Bool
is_monitored k [] = false
is_monitored k (j ∷ js) = if j == k then true else is_monitored k js

unfoldable pub get_token_monitor : String → List String → List String
get_token_monitor k monitors = if is_monitored k monitors then monitors else k ∷ monitors

unfoldable pub stop_monitoring_token : String → List String → List String
stop_monitoring_token k [] = []
stop_monitoring_token k (j ∷ js) =
    let rest = stop_monitoring_token k js in if j == k then rest else j ∷ rest

-- `RefreshRequired`: the time left in nanoseconds, and whether to refresh now.
unfoldable pub refresh_required : Authority → ℕ → ℕ × Bool
refresh_required a now =
    let left = a.expires_at * 1000000000 - (now + 10000000000) in (left, left == 0)

module _ (load_info : Authority → Authority) where
  -- `key`: an authority without an id loads its information.
  unfoldable pub loaded : Authority → Authority
  loaded a = if a.id == "" then load_info a else a

  unfoldable pub is_same : Authority → Authority → Bool
  is_same a b = (loaded a).id == (loaded b).id

  abbrev pub dated : Bool → ℕ → Authority → Authority
  dated is_refresh now a =
      if is_refresh then record a { refresh_date = now } else record a { login_date = now }

  -- The fields that `UpdateAuthority` copies.
  abbrev pub with_tokens : Authority → Bool → ℕ → Authority → Authority
  with_tokens a is_refresh now auth = dated is_refresh now (record auth {
    id_token = a.id_token;
    access_token = a.access_token;
    refresh_token = a.refresh_token;
    expires_at = a.expires_at;
  })

  -- The loop of `UpdateAuthority`.
  unfoldable pub update_all : Authority → Bool → ℕ → List Authority → List Authority
  update_all a is_refresh now [] = []
  update_all a is_refresh now (b ∷ bs) =
      (if is_same b a then with_tokens a is_refresh now (loaded b) else loaded b)
      ∷ update_all a is_refresh now bs

  unfoldable pub exists_same : Authority → List Authority → Bool
  exists_same a [] = false
  exists_same a (b ∷ bs) = if is_same b a then true else exists_same a bs

  unfoldable pub load_all : List Authority → List Authority
  load_all [] = []
  load_all (b ∷ bs) = loaded b ∷ load_all bs

  -- The loop of `RemoveAuthority`: the authorities that stay, and the last one that goes.
  unfoldable pub without_same : Authority → List Authority → List Authority
  without_same a [] = []
  without_same a (b ∷ bs) =
      let rest = without_same a bs in if is_same a b then rest else loaded b ∷ rest

  unfoldable pub last_same : Authority → List Authority → Option Authority
  last_same a [] = none
  last_same a (b ∷ bs) = elim (last_same a bs) [
    | some c ↦ some c
    | none ↦ if is_same a b then some (loaded b) else none
  ]

  module _ (K : Keyring) where
    -- The configuration and the monitors.
    pub record AuthWorld : Type 0 where
      pub world : World K
      pub monitors : List String

    abbrev with_authorities : List Authority → World K → World K
    with_authorities as' w = record w { global = record (w.global) { authorities = as' } }

    abbrev add_event : Change → World K → World K
    add_event c w = record w { events = w.events ++ (c ∷ []) }

    -- `UpdateAuthority`. If there is an authority, the given one has loaded its information as well.
    abbrev pub seen : List Authority → Authority → Authority
    seen [] a = a
    seen (b ∷ bs) a = loaded a

    unfoldable pub update_authority : Authority → Bool → ℕ → Bool → AuthWorld → AuthWorld × Bool
    update_authority a is_refresh now ok w =
        let old = w.world.global.authorities in
        let a' = seen old (dated is_refresh now a) in
        let (w', saved) =
          save K ok
            (with_authorities (update_all (dated is_refresh now a) is_refresh now old) w.world) in
        (record w { world = if saved then add_event (auth_change "update" a') w' else w' }, saved)

    -- A new authority of `CreateAuthority`.
    abbrev pub append_authority : Authority → Bool → AuthWorld → AuthWorld × Bool
    append_authority a ok w =
        let (w', saved) =
          save K ok (with_authorities (load_all w.world.global.authorities ++ (a ∷ [])) w.world) in
        (
          if saved
              then record {
                world = add_event (auth_change "create" a) w';
                monitors = get_token_monitor (loaded a).id w.monitors;
              }
              else record w { world = w' },
          saved,
        )

    -- `CreateAuthority`
    unfoldable pub create_authority : Authority → ℕ → Bool → AuthWorld → AuthWorld × Bool
    create_authority a now ok w =
        let a' = load_info a in
        if exists_same a' w.world.global.authorities
        then update_authority a' false now ok w
        else append_authority (load_info (record a' { login_date = now })) ok w

    abbrev pub removed : Authority → Authority → Bool → AuthWorld → AuthWorld × Bool
    removed a gone ok w =
        let rest = without_same a w.world.global.authorities in
        let w1 = record (w.world) { ring = clear_keyring K gone w.world.ring } in
        let (w', saved) = save K ok (with_authorities rest w1) in
        (
          if saved
              then record {
                world = add_event (auth_change "remove" gone) w';
                monitors = stop_monitoring_token (loaded a).id w.monitors;
              }
              else record w { world = w' },
          saved,
        )

    -- `RemoveAuthority`
    unfoldable pub remove_authority : Authority → Bool → AuthWorld → AuthWorld × Bool
    remove_authority a ok w = elim (last_same a w.world.global.authorities) [
      | none ↦ (
        record w { world = with_authorities (load_all w.world.global.authorities) w.world },
        true,
      )
      | some gone ↦ removed a gone ok w
    ]
