-- ===== src/Config/Autostart.antt =====
-- config/desktop_linux.go, the interface of the installers and the automatic start of
-- config/defaults.go, and config/service.go. `none` is a panic; the Boolean is `true` where no error is
-- returned.
pub mod Truthful
use cells_sync.Prelude.{
  String, Bool, true, false, ◌&&◌, not, Option, none, some, List, [], ◌∷◌, if◌then◌else◌, ◌==◌,
  string_eq, bool_eq,
}

-- `ShortcutOptions`
pub record ShortcutOptions : Type 0 where
  pub shortcut : Bool
  pub auto_start : Bool

-- `ShortcutInstaller`, over the state of the desktop.
pub record Installer (D : Type 0) : Type 0 where
  pub install : ShortcutOptions → D → Option (D × Bool)
  pub uninstall : D → D × Bool
  pub is_installed : D → Bool

-- Which of the two files are there, and what the system answers for them.
pub record Desktop : Type 0 where
  pub application : Bool
  pub start_file : Bool

pub record Machine : Type 0 where
  pub user : Bool  -- `user.Current()`
  pub opens_application : Bool
  pub writes_application : Bool
  pub opens_start_file : Bool
  pub writes_start_file : Bool
  pub removes_start_file : Bool
  pub removes_application : Bool

module _ (m : Machine) where
  abbrev pub install_start : Bool → Desktop → Option (Desktop × Bool)
  install_start false d = some (d, true)
  install_start true d =
      if not m.user
      then none
      else if m.opens_start_file
      then some (record d { start_file = true }, m.writes_start_file)
      else some (d, false)

  -- `ubuntuInstaller.Install`: a file that is opened is there, also if it cannot be written.
  abbrev pub ubuntu_install : ShortcutOptions → Desktop → Option (Desktop × Bool)
  ubuntu_install o d =
      if o.shortcut
      then if m.opens_application
        then if m.writes_application
          then install_start o.auto_start (record d { application = true })
          else some (record d { application = true }, false)
        else some (d, false)
      else install_start o.auto_start d

  -- `Uninstall`, which does not look at the errors of `os.Remove`.
  abbrev pub ubuntu_uninstall : Desktop → Desktop × Bool
  ubuntu_uninstall d =
      if m.user
      then (
        record {
          application = d.application && not m.removes_application;
          start_file = d.start_file && not m.removes_start_file;
        },
        true,
      )
      else (d, false)

  -- `IsInstalled`
  abbrev pub ubuntu_is_installed : Desktop → Bool
  ubuntu_is_installed d = m.user && d.start_file

  abbrev pub ubuntu_installer : Installer Desktop
  ubuntu_installer = record {
    install = ubuntu_install;
    uninstall = ubuntu_uninstall;
    is_installed = ubuntu_is_installed;
  }

-- The package of the services: the name of the configuration, a command, and whether the status is
-- known.
pub record ServiceManager (D : Type 0) : Type 0 where
  pub name : String
  pub control : String → D → D × Bool
  pub is_known : D → Bool

module _ {D : Type 0} (S : ServiceManager D) where
  -- `ControlAppService`
  unfoldable pub control_app_service : String → D → D × Bool
  control_app_service cmd d = if S.name == "" then (d, false) else S.control cmd d

  -- `ServiceInstalled`
  unfoldable pub service_installed : D → Bool
  service_installed d = if S.name == "" then false else S.is_known d

  abbrev run_installer : Installer D → Bool → D → Option (D × Bool)
  run_installer I wanted d =
      if wanted
      then I.install (record { shortcut = true; auto_start = true }) d
      else some (I.uninstall d)

  -- `setAutoStartValue`; `none` as an installer is nil.
  unfoldable pub set_auto_start_value : Option (Installer D) → Bool → D → Option (D × Bool)
  set_auto_start_value none wanted d =
      if wanted then some (control_app_service "install" d) else some (d, false)
  set_auto_start_value (some I) wanted d = run_installer I wanted d

  -- `readAutoStartValue`
  unfoldable pub read_auto_start_value : Option (Installer D) → D → Bool
  read_auto_start_value none d = service_installed d
  read_auto_start_value (some I) d = I.is_installed d
