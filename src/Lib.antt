-- ===== src/Lib.antt =====
-- Cells Sync: a client that keeps folders in sync with each other and with Cells servers. Each
-- sync task is wrapped by a service, which a supervisor starts and stops; the services, the
-- scheduler and the HTTP server talk over a bus of topics, and the tasks come from a
-- configuration that is kept in a file, with the tokens of the servers in the keyring of the
-- system.
--
-- The parts, and the files that model them:
-- - config/defaults.go, config/file.go, config/keyring.go and the records of
--   config/oidc-authorities.go: Config.
--   `Global` has the tasks and sections, the save (`Save` is `save`) and the changes
--   (`CreateTask`, `RemoveTask`, `UpdateTask`, `UpdateGlobals`); a save may fail, and the events
--   are listed in the order in which their goroutines start, and Config/Watching lets these run
--   in any order. `Keyring` has `BeforeSave`, `AfterLoad` and what they call, over a keyring that
--   is a record of operations; texts of tokens are bytes. `Authorities` has the changes of the
--   authorities, with the map of the monitors of config/oidc-token.go and `LoadInfo` in
--   Config/Authorities/Info; Config/Monitor has the loop of one monitor and `Refresh`: the select
--   chooses, so its cases are events.
-- - control/pubsub.go: Control/Bus. common/common.go and control/sync-state.go: Control/State,
--   with the store that also writes a file in Control/State/File. There the goroutines that carry
--   a status to the file are actions, and a list of actions is one interleaving.
-- - control/syncer.go: Control/Syncer (`dispatchBus`), Control/Syncer/Status (`dispatchStatus`)
--   and Control/Syncer/Start (`NewSyncer`, `Serve`). A handler takes what arrives and the
--   service, and gives the service and the list of its effects (published states, calls of the
--   task, of the stores and of the file system) in the order of the code.
-- - control/supervisor.go: Control/Supervisor, over a record for the package suture. The services
--   that run are a list with their tokens.
-- - control/scheduler.go: Control/Scheduler. control/http-server.go and the messages of
--   common/common.go: Control/Http, where handlers give lists of effects. Control/Http/Logs has
--   the socket of the logs, Control/Http/Serving `Serve`, `Stop` and the goroutines, and
--   Control/Http/Session what the messages do to the tasks, through the configuration and the
--   supervisor. control/http-handler-patches.go: Control/Http/Patches.
--   control/http-handler-conf.go: Control/Http/Settings. control/http-handler-tree.go:
--   Control/Http/Trees, and Trees/Folders for the request, the creation of a folder and the
--   default folder. `MessageFromData`: Control/Messages, over a record for JSON.
-- - config/desktop_linux.go, config/service.go and the automatic start of config/defaults.go:
--   Config/Autostart. control/win-volumes.go: Control/Volumes, where the signals that are ready
--   at each letter are given.
-- - control/updater.go: Control/Updater (`LoadUpdates`, `dispatch`, `Serve`) and
--   Control/Updater/Download (`ApplyUpdate`, whose two goroutines are actions in any order).
-- - app/tray/client.go: Tray/Client, and Tray/Link for the way it connects again.
--   app/tray/tray.go: Tray/Menu, Tray/Loop for the goroutine of `onReady`, and Tray/View for
--   `spawnWebView`, whose goroutines are steps. app/tray/icons.go: Tray/Animation.
-- - endpoint/patch-store.go: Endpoint/PatchStore, over records for the database (bbolt) and for
--   JSON and the constructors of the merger; Endpoint/PatchStore/Queue has its goroutine.
--   endpoint/uri-parser.go: Endpoint/Uri, over a record for the packages of the endpoints.
--   endpoint/snapshot-factory.go: Endpoint/Snapshots.
-- - cmd/config.go and config/http-address.go: Commands. cmd/capture.go: Commands/Capture.
--   cmd/autotest.go: Commands/Autotest. cmd/signals.go and cmd/service.go: Commands/Signals.
--   i18n/i18n.go: I18n. control/stdinner.go: Control/Console. control/spawned-service.go,
--   control/spawn.go and control/spawn_windows.go: Control/Spawned, where `Serve` and `Stop` are
--   steps.
-- - Go stands for the parts of Go's library that the code computes with (strconv, strings), and
--   Prelude for shared names, Boolean tests, lists, and Go's int with its overflow.
--
-- Results are `Option` where the code may panic (a nil URL is read, an empty list of errors is
-- indexed) or where it returns an error. All loops are structural recursion, so nothing runs on
-- fuel, but for `itoa`, whose fuel is the number plus one: a number has fewer digits than that,
-- and the search for a port, whose fuel is the number of ports. Numbers are unbounded where the
-- source only adds to counters; the position and the number of a page of patches are Go's int,
-- and the keys of the operations are 64 bits.
--
-- Parameters: the parser of URLs, the constructors of process statuses, the numbers of the task
-- statuses, the keyring, the database, the sort of patches, the clock, the answers of servers,
-- the parser of intervals, the package suture, JSON, and the outcome of the file system.
-- A state of a task has its configuration and both infos, as the server makes it; that one
-- without an info may come over the socket is a case of Tray/Loop alone.
--
-- Not modelled: logging, the bus itself and the sync engine (third-party packages), the endpoints
-- themselves, the web framework, the web interface, the pictures of the tray, the shortcuts of
-- Windows, the profiler and the rest of the command line.
pub mod Prelude
pub mod Go
pub mod Config
pub mod Endpoint
pub mod Control
pub mod Tray
pub mod Commands
pub mod I18n
mod Examples
