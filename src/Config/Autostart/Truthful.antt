-- ===== src/Config/Autostart/Truthful.antt =====
-- config/defaults.go: whether the system does what was set.
use cells_sync.Prelude.{◌≡◌, Bool, true, Option, none, some, if◌then◌else◌, string_eq, arith}
use cells_sync.Config.Autostart.{
  Installer, Machine, Desktop, ubuntu_installer, ServiceManager, control_app_service,
  service_installed, set_auto_start_value, read_auto_start_value,
}

-- What no error promises: a change that returned none is seen, and one that returned an error has not
-- changed what is seen.
abbrev pub Reports : {D : Type 0} → (D → Bool) → Bool → D → D × Bool → Type 0
Reports seen wanted d (d', ok) = seen d' ≡ (if ok then wanted else seen d)

pub record IsHonest {D : Type 0} (S : ServiceManager D) (i : Option (Installer D)) : Type 0 where
  pub sets :
      (wanted : Bool) (d : D) (r : D × Bool)
      → set_auto_start_value S i wanted d ≡ some r
      → Reports (read_auto_start_value S i) wanted d r

-- On Linux this holds if what was opened can be written and the file can be removed.
pub ubuntu_installer-IsHonest :
    (S : ServiceManager Desktop) (m : Machine)
    → m.writes_start_file ≡ true
    → m.removes_start_file ≡ true
    → IsHonest S (some (ubuntu_installer m))
unfolding set_auto_start_value read_auto_start_value
ubuntu_installer-IsHonest S m w r = record { sets = λ wanted d q h. ground (arith, w, r, h) }

-- A system without installer: the automatic start is a service, if the package keeps its word.
pub service-IsHonest :
    {D : Type 0} (S : ServiceManager D)
    → ((d : D) → Reports S.is_known true d (S.control "install" d))
    → IsHonest S none
unfolding set_auto_start_value read_auto_start_value control_app_service service_installed
service-IsHonest S k = record { sets = λ wanted d q h. ground (arith, h, k d) }
