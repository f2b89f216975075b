-- ===== src/Examples/Sessions.antt =====
-- The theorems on the web server with its sockets, its settings and its trees, at concrete inputs.
use cells_sync.Prelude.{
  ◌≡◌, refl, String, true, false, Option, none, some, List, [], ◌∷◌, ◌⊎◌, inl, inr, arith, eq_iff,
  nat_eq, string_eq, length,
}
use cells_sync.Config.Types.{Task, Authority}
use cells_sync.Config.Global.{Global, World, create_task, update_globals, stored_authorities, save}
use cells_sync.Config.Autostart.{
  Machine, Desktop, ubuntu_installer, ServiceManager, read_auto_start_value, set_auto_start_value,
}
use cells_sync.Config.Autostart.Truthful.{ubuntu_installer-IsHonest}
use cells_sync.Control.Http.{config_content, handle_socket, handle_config}
use cells_sync.Control.State.{TaskStatus-discrete}
use cells_sync.Config.Global.Tasks.{apply}
use cells_sync.Control.Http.Session.{Exchange, exchange_commands, session_commands, session-Agree}
use cells_sync.Control.Http.Settings.{conf, update_conf, update_conf-IsTruthful}
use cells_sync.Control.Http.Logs.{LogEvent, line, opens, closes}
use cells_sync.Control.Http.Serving.{HttpServer, new_http_server, serve_all, stop, on_state}
use cells_sync.Control.Http.Serving.Repeated.{stop-serve_all}
use cells_sync.Control.Supervisor.Agreement.{Agree, run_commands}
use cells_sync.Examples.Values.{task}
use cells_sync.Examples.Settings.{world, ring}
use cells_sync.Examples.Servers.{floats, done}
use cells_sync.Examples.Supervisors.{services, services-IsLawful, started, started-Agree}

-- A task is created with the uuid of another one, and that other one is removed.
abbrev turn : String → String → Exchange
turn new command = record {
  new_uuid = new;
  saved = true;
  message = record { kind = "CONFIG"; content = config_content command (some task) none };
}

abbrev messages : List Exchange
messages = turn "u2" "create" ∷ turn "u3" "delete" ∷ []

creates :
    {t : Task} {a : Option Authority}
    → config_content "create" (some task) none ≡ config_content "edit" (some t) a
    → ⊥
creates e = ground (arith, e, eq_iff "create" "edit")

deletes :
    {t : Task} {a : Option Authority}
    → config_content "delete" (some task) none ≡ config_content "edit" (some t) a
    → ⊥
deletes e = ground (arith, e, eq_iff "delete" "edit")

session-Agree_example :
    Agree services services-IsLawful ring
      (run_commands services services-IsLawful ring (session_commands messages) world started).0
      (run_commands services services-IsLawful ring (session_commands messages) world started).1
unfolding handle_socket handle_config apply create_task save exchange_commands
session-Agree_example =
    session-Agree services services-IsLawful ring messages world started
      ((refl, λ t e. absurd (creates e.1)), refl, ((refl, λ t e. absurd (deletes e.1)), refl, tt))
      started-Agree

-- Another client comes and goes.
abbrev past : List LogEvent
past = line (1 ∷ []) ∷ opens 9 ∷ line (2 ∷ []) ∷ closes 9 ∷ []

stop-serve_all_example :
    ((on_state floats done (
        serve_all
          ((inl "no port", none) ∷ (inr "localhost:3636", some "in use") ∷ [])
          new_http_server)).1
      ≡ length {A = (String ⊎ String) × Option String}
          ((inl "no port", none) ∷ (inr "localhost:3636", some "in use") ∷ []))
    × ((h : HttpServer) × (stop (
            serve_all
              ((inl "no port", none) ∷ (inr "localhost:3636", some "in use") ∷ [])
              new_http_server)
          ≡ some h)
        × ((on_state floats done h).1
            ≡ length {A = (String ⊎ String) × Option String}
                ((inr "localhost:3636", some "in use") ∷ [])))
unfolding TaskStatus-discrete
stop-serve_all_example =
    stop-serve_all floats (inl "no port", none) ((inr "localhost:3636", some "in use") ∷ []) done
      refl

-- A system without installer, whose package installs.
abbrev manager : ServiceManager Desktop
manager = record { name = "sync"; control = λ c d. (d, true); is_known = λ d. false }

abbrev machine : Machine
machine = record {
  user = true;
  opens_application = false;
  writes_application = true;
  opens_start_file = true;
  writes_start_file = true;
  removes_start_file = true;
  removes_application = true;
}

abbrev desktop : Desktop
desktop = record { application = false; start_file = false }

abbrev wanted : Global
wanted = record {
  tasks = [];
  authorities = [];
  logs = none;
  updates = none;
  show_panels = none;
  auto_start = some true;
  changes = 0;
}

abbrev before_request : World ring
before_request = record world { global = record wanted { auto_start = some false } }

abbrev after_request : World ring
after_request = record before_request { file = some (before_request.global) }

-- The file of the application cannot be opened: the value stays as it was.
refused :
    update_conf ring manager
      (some (ubuntu_installer machine))
      true
      (inr (some wanted))
      desktop
      before_request
    ≡ some (after_request, desktop, conf before_request.global)
unfolding update_conf set_auto_start_value update_globals save stored_authorities
refused = refl

update_conf-IsTruthful_example :
    after_request.global.auto_start
    ≡ some (read_auto_start_value manager (some (ubuntu_installer machine)) desktop)
unfolding read_auto_start_value
update_conf-IsTruthful_example =
    update_conf-IsTruthful ring manager (some (ubuntu_installer machine))
      (ubuntu_installer-IsHonest manager machine refl refl) true (inr (some wanted)) desktop desktop
      before_request after_request (conf before_request.global) refl refused
