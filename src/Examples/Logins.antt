-- ===== src/Examples/Logins.antt =====
-- The theorems on the authorities at a concrete configuration.
use cells_sync.Prelude.{◌≡◌, refl, some, [], ◌∷◌, arith, eq_iff, true}
use cells_sync.Config.Types.{Authority}
use cells_sync.Config.Authorities.{AuthWorld, is_monitored, loaded}
use cells_sync.Config.Authorities.Monitors.{
  has_id, IsStable, create, AreMonitored, run, run-AreMonitored,
}
use cells_sync.Config.Authorities.Public.{
  count_tasks, public_authority, public_authorities, AreViews, public_authorities-AreViews,
}
use cells_sync.Examples.Values.{task, parse}
use cells_sync.Examples.Settings.{alice, ring, world}

-- A server on which everybody has one name.
abbrev pub load_info : Authority → Authority
load_info a = record a { id = "https://me@cells"; username = "me" }

pub load_info-IsStable : IsStable load_info
load_info-IsStable = record { named = λ a. ground (arith, eq_iff "https://me@cells" "") }

abbrev pub logins : AuthWorld load_info ring
logins = record { world = world; monitors = "https://cells/alice" ∷ [] }

logins-AreMonitored : AreMonitored load_info load_info-IsStable ring logins
unfolding loaded
logins-AreMonitored k = refl

abbrev bob : Authority
bob = record alice { id = ""; uri = "https://me@cells/b" }

run-AreMonitored_example :
    is_monitored "https://me@cells"
      (run load_info load_info-IsStable ring (create bob 20) true logins).0.monitors
    ≡ has_id load_info "https://me@cells"
        (run load_info load_info-IsStable ring
          (create bob 20)
          true
          logins).0.world.global.authorities
run-AreMonitored_example =
    run-AreMonitored load_info load_info-IsStable ring (create bob 20) logins logins-AreMonitored
      "https://me@cells"

-- What is shown of bob: the right side of the task is on his server, and is not counted.
abbrev shown_bob : Authority
shown_bob = record (load_info bob) {
  tasks_count = 0;
  id_token = [];
  access_token = [];
  refresh_token = [];
}

shown : public_authorities load_info parse (task ∷ []) (bob ∷ []) ≡ some (shown_bob ∷ [])
unfolding public_authorities public_authority count_tasks loaded
shown = refl

public_authorities-AreViews_example :
    AreViews load_info parse (task ∷ []) (bob ∷ []) (shown_bob ∷ [])
public_authorities-AreViews_example =
    public_authorities-AreViews load_info parse (task ∷ []) (bob ∷ []) (shown_bob ∷ []) shown
