-- ===== src/Control/State/Connectivity.antt =====
-- control/sync-state.go: which sides are connected after the reports of the endpoints.
use cells_sync.Prelude.{
  ℕ, ◌≡◌, refl, sym, ap₂, String, Bool, true, false, ◌&&◌, Option, none, some, List, [], ◌∷◌, arith,
  ◌==◌, string_eq, not, if◌then◌else◌, ◌>>=◌, >>=-eq-some,
}
use cells_sync.Config.Types.{Task, Url}
use cells_sync.Control.State.{
  MemoryStateStore, EndpointInfo, Side, left, right, on_side, on_found, side_of, simple_uri,
  url_text, update_connection, both_connected,
}

-- A report: the time, whether the endpoint is connected, and its URI.
abbrev pub Report : Type 0
Report = ℕ × Bool × String

abbrev pub is_side : Side → Option Side → Bool
is_side left (some left) = true
is_side left (some right) = false
is_side right (some right) = true
is_side right (some left) = false
is_side s none = false

abbrev pub connected_at : Side → MemoryStateStore → Bool
connected_at left m = m.state.left_info.connected
connected_at right m = m.state.right_info.connected

abbrev is_uri_of : Option Url → String → Bool
is_uri_of none uri = false
is_uri_of (some u) uri = uri == url_text u

-- Is a report with this URI about a side, given the URLs of both sides?
abbrev pub is_about : Side → Option Url → Option Url → String → Bool
is_about left l r uri = is_uri_of l uri
is_about right l r uri = not (is_uri_of l uri) && is_uri_of r uri

abbrev reported : Bool → ℕ → EndpointInfo → EndpointInfo
reported c now i =
    let j = record i { connected = c } in if c then record j { last_connection = now } else j

module _ (parse : String → Option Url) where
  -- The reports in the order in which they come.
  unfoldable pub connect_all : List Report → MemoryStateStore → Option MemoryStateStore
  connect_all [] m = some m
  connect_all ((now, c, uri) ∷ rs) m = do
    m' ← update_connection parse c uri now m
    connect_all rs m'

  -- What the last report on a side says, or what was known before.
  abbrev pub last_report : Task → Side → List Report → Bool → Bool
  last_report t s [] before = before
  last_report t s ((now, c, uri) ∷ rs) before =
      last_report t s rs
        (if is_about s (parse t.left_uri) (parse t.right_uri) uri then c else before)

  some_injective : {a b : MemoryStateStore} → some a ≡ some b → a ≡ b
  some_injective h = cc

  connected-on_found :
      (s : Side) (found : Option Side) (c : Bool) (now : ℕ) (m : MemoryStateStore)
      → (connected_at s (on_found found (reported c now) m)
          ≡ (if is_side s found then c else connected_at s m))
  unfolding on_side
  connected-on_found s found c now m = ground arith

  config-on_found :
      (found : Option Side) (f : EndpointInfo → EndpointInfo) (m : MemoryStateStore)
      → (on_found found f m).config ≡ m.config
  unfolding on_side
  config-on_found none f m = refl
  config-on_found (some left) f m = refl
  config-on_found (some right) f m = refl

  -- The choice of the side, for the URLs of both sides.
  found_lem :
      (s : Side) (l r : Option Url) (uri : String) (found : Option Side)
      → ((l >>= λ u. some (url_text u)) >>= λ x.
          if uri == x
          then some (some left)
          else ((r >>= λ v. some (url_text v)) >>= λ y.
              some (if uri == y then some right else none)))
        ≡ some found
      → is_side s found ≡ is_about s l r uri
  found_lem s none r uri found h = cc
  found_lem left (some u) none uri found h = ground (arith, h)
  found_lem right (some u) none uri found h = ground (arith, h)
  found_lem left (some u) (some v) uri found h = ground (arith, h)
  found_lem right (some u) (some v) uri found h = ground (arith, h)

  found_side :
      (s : Side) (t : Task) (uri : String) (found : Option Side)
      → side_of parse t uri ≡ some found
      → is_side s found ≡ is_about s (parse t.left_uri) (parse t.right_uri) uri
  unfolding side_of simple_uri
  found_side s t uri found h = found_lem s (parse t.left_uri) (parse t.right_uri) uri found h

  one_report :
      (s : Side) (c : Bool) (uri : String) (now : ℕ) (m m' : MemoryStateStore)
      → update_connection parse c uri now m ≡ some m'
      → (connected_at s m' ≡ (
          if is_about s (parse m.config.left_uri) (parse m.config.right_uri) uri
          then c
          else connected_at s m))
        × (m'.config ≡ m.config)
  unfolding update_connection
  one_report s c uri now m m' h =
      let (found, e, r) = >>=-eq-some (side_of parse m.config uri) _ h in
      let q : on_found found (reported c now) m ≡ m' = some_injective r in
      rw (sym q, sym (found_side s m.config uri found e))
        (connected-on_found s found c now m, config-on_found found _ m)

  connected-connect_all :
      (s : Side) (rs : List Report) (m m' : MemoryStateStore)
      → connect_all rs m ≡ some m'
      → connected_at s m' ≡ last_report m.config s rs (connected_at s m)
  unfolding connect_all
  connected-connect_all s [] m m' h = ground (arith, h)
  connected-connect_all s ((now, c, uri) ∷ rs) m m' h =
      let (k, e, r) = >>=-eq-some (update_connection parse c uri now m) _ h in
      let (here, same) = one_report s c uri now m k e in
      rw (same, here) at (connected-connect_all s rs k m' r)

  -- After any reports, if the store does not panic on them, both sides are connected if and only if
  -- for each of them the last report on it says so, or it was connected before and there is none. A
  -- report is on a side if its URI is the scheme, host and path of the URL of the side; one that is
  -- on both counts for the left one.
  pub both_connected-connect_all :
      (rs : List Report) (m m' : MemoryStateStore)
      → connect_all rs m ≡ some m'
      → both_connected m' ≡ (
          last_report m.config left rs m.state.left_info.connected
          && last_report m.config right rs m.state.right_info.connected)
  unfolding both_connected
  both_connected-connect_all rs m m' h =
      ap₂ (λ l r. l && r) (connected-connect_all left rs m m' h)
        (connected-connect_all right rs m m' h)
