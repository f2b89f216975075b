-- ===== src/Control/Syncer/Starting.antt =====
-- control/syncer.go: which services have a task after `NewSyncer`, and which show an error.
use cells_sync.Prelude.{
  ℕ, ◌≡◌, ◌≢◌, refl, ◌∙◌, String, Bool, true, false, ◌&&◌, ◌||◌, not, Option, none, some, List, [],
  arith, if◌then◌else◌, >>=-eq-some, ◌==◌, string_eq, eq_iff,
}
use cells_sync.Config.Types.{Task}
use cells_sync.Control.State.{idle, error, processing, new_memory_store}
use cells_sync.Control.State.File.{new_file_store, read_last_state, same_status}
use cells_sync.Control.Syncer.{Lib, Syncer, Effect, state_of}
use cells_sync.Control.Syncer.Start.{
  World, Opened, opened, failed, Prepared, refused, prepared, direction_of, prepare, blank,
  with_start_error, new_syncer, with_folder, with_prepared,
}
use cells_sync.Control.Syncer.Messages.{update_process-eq-some}
use cells_sync.Control.Syncer.Endings.{status-update_process}

abbrev is_open : Opened → Bool
is_open (opened uri) = true
is_open (failed e) = false

abbrev is_given {ℓ} : {A : Type ℓ} → Option A → Bool
is_given none = false
is_given (some a) = true

module _ (lib : Lib) (now : ℕ) where
  -- What a service without a start error keeps of the blank one.
  with_start_error-task :
      (e : Option String) (s s' : Syncer) (es : List Effect)
      → with_start_error lib now e s ≡ some (s', es)
      → (s'.task ≡ s.task)
        × (s'.dirty_stopped ≡ s.dirty_stopped)
        × ((state_of s').status ≡ (if is_given e then error else (state_of s).status))
  unfolding with_start_error
  with_start_error-task none s s' es h = ground arith
  with_start_error-task (some e) s s' es h =
      let (store, q) = update_process-eq-some lib now _ error s h in
      (ground (arith, q), ground (arith, q), status-update_process lib now _ error s s' es h)

module _ (w : World) where
  -- The URIs are given and open, the direction is one of the three.
  abbrev pub can_prepare : Task → Bool
  can_prepare t =
      not (t.left_uri == "")
      && not (t.right_uri == "")
      && is_open (w.open_endpoint t.left_uri t.right_uri)
      && is_open (w.open_endpoint t.right_uri t.left_uri)
      && (t.direction == "Bi" || t.direction == "Left" || t.direction == "Right")

  -- Besides, the folder of the task is there.
  abbrev pub can_start : Task → Bool
  can_start t = can_prepare t && not (is_given w.make_folder)

  abbrev is_prepared : Prepared → Bool
  is_prepared (refused e) = false
  is_prepared (prepared l r d) = true

  prepare_lem : (t : Task) → is_prepared (prepare w t) ≡ can_prepare t
  unfolding prepare direction_of
  prepare_lem t = ground arith

  module _ (lib : Lib) (now : ℕ) where
    blank-facts :
        (t : Task)
        → ((blank w t).task ≡ false)
          × ((blank w t).dirty_stopped
              ≡ same_status (read_last_state w.code w.of_int w.contents) processing)
          × ((state_of (blank w t)).status ≡ idle)
    unfolding blank new_file_store new_memory_store
    blank-facts t = (refl, refl, refl)

    abbrev folder_error : Option String → Option String
    folder_error none = none
    folder_error (some e) = w.wrap (some e) "cannot create configuration folder for task"

    -- The start error that `NewSyncer` meets, if any.
    abbrev pub error_of : Prepared → Option String
    error_of (refused e) = e
    error_of (prepared l r d) = folder_error w.make_folder

    abbrev Started : Bool → Option String → Task → Syncer → Type 0
    Started has_task e t s =
        (s.task ≡ has_task)
        × ((state_of s).status ≡ (if is_given e then error else idle))
        × (s.dirty_stopped ≡ same_status (read_last_state w.code w.of_int w.contents) processing)

    refused-Started :
        (e : Option String) (t : Task) (s : Syncer) (es : List Effect)
        → with_start_error lib now e (blank w t) ≡ some (s, es)
        → Started false e t s
    refused-Started e t s es h =
        let (k, d, st) = with_start_error-task lib now e (blank w t) s es h in
        let (k', d', st') = blank-facts t in (k ∙ k', st ∙ rw st', d ∙ d')

    with_folder-Started :
        (f : Option String) (t : Task) (l r : String) (s : Syncer) (es : List Effect)
        → with_folder w lib now t l r f ≡ some (s, es)
        → Started (not (is_given f)) (folder_error f) t s
    with_folder-Started (some e) t l r s es h = refused-Started _ t s es h
    with_folder-Started none t l r s es h =
        let (k, d, st) = blank-facts t in
        (ground (arith, h), ground (arith, h, st), ground (arith, h, d))

    with_prepared-Started :
        (p : Prepared) (t : Task) (s : Syncer) (es : List Effect)
        → with_prepared w lib now t p ≡ some (s, es)
        → Started (is_prepared p && not (is_given w.make_folder)) (error_of p) t s
    with_prepared-Started (refused e) t s es h = refused-Started e t s es h
    with_prepared-Started (prepared l r d) t s es h =
        let (o, e, q) = >>=-eq-some (with_folder w lib now t l r w.make_folder) _ h in
        let same : o.0 ≡ s = ground (arith, q) in
        rw same at (with_folder-Started w.make_folder t l r o.0 o.1 e)

    -- A service that `NewSyncer` returns has a task if and only if both URIs are given and can be
    -- opened, the direction is Bi, Left or Right, and the folder is there. Its status is an error if
    -- and only if there is a start error, and else idle. It owes a full resync if and only if the
    -- file says that the last run was stopped while processing.
    pub new_syncer_lem :
        (t : Task) (s : Syncer) (es : List Effect)
        → new_syncer w lib now t ≡ some (s, es)
        → (s.task ≡ can_start t)
          × ((state_of s).status ≡ (if is_given (error_of (prepare w t)) then error else idle))
          × (s.dirty_stopped ≡ same_status (read_last_state w.code w.of_int w.contents) processing)
    unfolding new_syncer
    new_syncer_lem t s es h = rw (← prepare_lem t) (with_prepared-Started (prepare w t) t s es h)

  prepare-refused :
      (t : Task) (l r : String)
      → t.left_uri ≢ ""
      → t.right_uri ≢ ""
      → w.open_endpoint t.left_uri t.right_uri ≡ opened l
      → w.open_endpoint t.right_uri t.left_uri ≡ opened r
      → direction_of t.direction ≡ none
      → prepare w t
        ≡ refused (w.wrap none "unsupported direction type, please use one of Bi, Left, Right")
  unfolding prepare
  prepare-refused t l r nl nr el er unknown =
      rw (el, er, unknown) (ground (arith, eq_iff t.left_uri "", eq_iff t.right_uri ""))

  -- Let `errors.Wrap` give nil for nil, as it documents. A task whose endpoints open but whose
  -- direction is not supported gets a service with no task, and no error is shown: nothing is
  -- published, and the status stays idle.
  pub unsupported_direction_is_silent :
      (lib : Lib) (now : ℕ) (t : Task) {l r : String}
      → ((text : String) → w.wrap none text ≡ none)
      → t.left_uri ≢ ""
      → t.right_uri ≢ ""
      → w.open_endpoint t.left_uri t.right_uri ≡ opened l
      → w.open_endpoint t.right_uri t.left_uri ≡ opened r
      → direction_of t.direction ≡ none
      → (new_syncer w lib now t ≡ some (blank w t, []))
        × ((blank w t).task ≡ false)
        × ((state_of (blank w t)).status ≡ idle)
  unfolding new_syncer
  unsupported_direction_is_silent lib now t {l} {r} wrap nl nr el er unknown =
      let (k, d, st) = blank-facts lib now t in
      (
        rw (prepare-refused t l r nl nr el er unknown, wrap) (unfold with_start_error in refl),
        k,
        st,
      )
