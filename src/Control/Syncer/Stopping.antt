-- ===== src/Control/Syncer/Stopping.antt =====
-- control/syncer.go: what is cleaned up when the service is stopped.
use cells_sync.Prelude.{
  ℕ, ◌≡◌, Bool, true, false, ◌&&◌, ◌||◌, none, some, List, [], ◌∷◌, arith, if◌then◌else◌,
}
use cells_sync.Control.Bus.{restart, restart_clean}
use cells_sync.Control.State.{removed, update_sync_status}
use cells_sync.Control.State.File.{file_update_sync_status}
use cells_sync.Control.Syncer.{
  Lib, Syncer, Effect, remove_all, reset_snapshots, Outcome, state_of, Input, handle_message,
  handle_all, stop,
}
use cells_sync.Control.Syncer.Messages.{cleans_all, last_published}
use cells_sync.Control.Syncer.Connections.{flag_after, handle_all-Ran}

-- The effects among which a property looks for one of a kind.
abbrev pub is_removal : Effect → Bool
is_removal (remove_all path) = true
is_removal e = false

abbrev pub is_reset : Effect → Bool
is_reset reset_snapshots = true
is_reset e = false

abbrev pub any : (Effect → Bool) → List Effect → Bool
any p [] = false
any p (e ∷ es) = p e || any p es

stop_lem :
    (s : Syncer)
    → (any is_removal (stop s).1 ≡ s.clean_all_after_stop)
      × (any is_reset (stop s).1 ≡ (s.snap_factory && s.clean_all_after_stop))
      × (last_published (stop s).1 ≡ (
          if s.clean_all_after_stop then some (record (state_of s) { status = removed }) else none))
unfolding stop file_update_sync_status update_sync_status
stop_lem s = ground arith

-- Run the service from a state in which no clean up is asked for, over any inputs that it handles
-- without a panic, and stop it. The folder of the task is removed if and only if a message to halt
-- and clean was among the inputs; the snapshots are reset if and only if, besides, the service has
-- them; and the status "removed" is published if and only if the folder is removed.
pub stop-cleans :
    (lib : Lib) (is : List (ℕ × Input)) (s s' : Syncer) (es : List Effect)
    → s.clean_all_after_stop ≡ false
    → handle_all lib is s ≡ some (s', es)
    → let asked = flag_after cleans_all is false in
      (any is_removal (stop s').1 ≡ asked)
      × (any is_reset (stop s').1 ≡ (s.snap_factory && asked))
      × (last_published (stop s').1
          ≡ (if asked then some (record (state_of s') { status = removed }) else none))
stop-cleans lib is s s' es fresh h =
    let ran = handle_all-Ran lib is s s' es h in
    let asked : s'.clean_all_after_stop ≡ flag_after cleans_all is false =
      rw (← fresh) ran.clean_all in
    rw (← asked, ← ran.snap_factory) (stop_lem s')

-- A message to restart and clean leaves the same behind as one to restart: the same publication,
-- and the same effects when the service is stopped right after it.
pub restart_clean-stop :
    (lib : Lib) (now : ℕ) (s : Syncer) {clean plain : Outcome}
    → handle_message lib now restart_clean s ≡ some clean
    → handle_message lib now restart s ≡ some plain
    → (clean.1 ≡ plain.1) × ((stop clean.0).1 ≡ (stop plain.0).1)
unfolding handle_message stop file_update_sync_status update_sync_status
restart_clean-stop lib now s h k = ground arith
