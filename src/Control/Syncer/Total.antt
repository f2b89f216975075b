-- ===== src/Control/Syncer/Total.antt =====
-- control/syncer.go: when `dispatchBus` handles everything that arrives.
use cells_sync.Prelude.{
  ℕ, ◌≡◌, refl, ◌∙◌, String, Bool, true, false, Option, none, some, List, [], ◌∷◌, arith,
  if◌then◌else◌, Bool-cases, inl, inr, All, ◌++◌, ◌==◌, string_eq,
}
use cells_sync.Config.Types.{Task, Url}
use cells_sync.Endpoint.Patch.{Patch}
use cells_sync.Control.Bus.{
  Message, halt, restart, interrupt, pause, resume, enable, disable, sync_loop, resync, resync_dry,
  publish_state, publish_store, restart_clean, halt_clean,
}
use cells_sync.Control.State.{
  TaskStatus, processing, whole, Side, left, right, MemoryStateStore, update_sync_status,
  update_process_status, slot_of, is_about, side_of, simple_uri, url_text, on_side, on_found,
  EndpointInfo, update_connection, update_watcher_activity, update_endpoint_stats,
}
use cells_sync.Control.State.File.{file_update_process_status, file_update_sync_status, start_send}
use cells_sync.Control.Syncer.{
  Lib, Syncer, TaskCall, Effect, pub_state, call_task, cmd_interrupt, run, Outcome, forget_failed,
  with_errors, with_mem, launch, update_process, process_then, handle_message, loop_call,
  handle_connection, handle_endpoint, handle, handle_all, WatchConnection, watch_connected,
  watch_disconnected, watch_active, watch_idle, watch_stats, watch_other, Input, message,
  endpoint_status, other, EndpointStatus,
}

-- A call through a pointer that is not nil: a call of nil is a panic.
abbrev pub IsSafe : Effect → Type 0
IsSafe (call_task task call) = task ≡ true
IsSafe (cmd_interrupt cmd) = cmd ≡ true
IsSafe _ = Unit

-- What the handler leaves: the configuration of the state store, the task and the channel of commands;
-- and if these two are there, it calls nothing through nil.
record Leaves (s : Syncer) (r : Outcome) : Type 0 where
  config : r.0.store.mem.config ≡ s.store.mem.config
  task : r.0.task ≡ s.task
  cmd : r.0.cmd ≡ s.cmd
  safe : s.task ≡ true → s.cmd ≡ true → All IsSafe r.1

abbrev Returns : Option Outcome → Syncer → Type 0
Returns o s = (r : Outcome) × (o ≡ some r) × Leaves s r

All-append : (es fs : List Effect) → All IsSafe es → All IsSafe fs → All IsSafe (es ++ fs)
All-append [] fs h k = k
All-append (e ∷ es) fs h k = (h.0, All-append es fs h.1 k)

module _ (lib : Lib) (now : ℕ)
    (plain : (text : String) → (lib.new_status text).endpoint_uri ≡ "") where
  slot_of-plain :
      (t : Task) (text : String) → slot_of lib.parse t (lib.new_status text) ≡ some whole
  unfolding slot_of is_about
  slot_of-plain t text = rw (plain text) refl

  memory-returns :
      (text : String) (st : Option TaskStatus) (m : MemoryStateStore)
      → (m' : MemoryStateStore) × (update_process_status lib.parse (lib.new_status text) st now m
          ≡ some m')
        × (m'.config ≡ m.config)
  unfolding update_process_status
  memory-returns text st m = rw (slot_of-plain m.config text) (_, refl, refl)

  process-Returns :
      (text : String) (st : TaskStatus) (s : Syncer)
      → Returns (update_process lib now (lib.new_status text) st s) s
  unfolding update_process file_update_process_status
  process-Returns text st s =
      let (m, e, c) = memory-returns text (some st) (start_send st s.store).mem in
      rw e (
        _,
        refl,
        record { config = c ∙ ground arith; task = refl; cmd = refl; safe = λ t d. (tt, tt) },
      )

  process_then-Returns :
      (text : String) (call : TaskCall) (s : Syncer) → Returns (process_then lib now text call s) s
  unfolding process_then
  process_then-Returns text call s =
      let (r, e, l) = process-Returns text processing s in
      rw e (
        _,
        refl,
        record {
          config = l.config;
          task = l.task;
          cmd = l.cmd;
          safe = λ t d. All-append r.1 _ (l.safe t d) (t, tt);
        },
      )

  loop_call-Returns : (p : Option Patch) (s : Syncer) → Returns (loop_call lib now s p) s
  loop_call-Returns none s = process_then-Returns _ _ s
  loop_call-Returns (some p) s = elim (Bool-cases (with_errors (some p))) [
    | inl e ↦ rw e (process_then-Returns _ _ s)
    | inr e ↦ rw e (process_then-Returns _ _ s)
  ]

  forget_failed-Leaves : (s : Syncer) → Leaves s (forget_failed s, [])
  forget_failed-Leaves s = elim (Bool-cases (with_errors s.last_patch)) [
    | inl e ↦ rw e (record { config = refl; task = refl; cmd = refl; safe = λ t d. tt })
    | inr e ↦ rw e (record { config = refl; task = refl; cmd = refl; safe = λ t d. tt })
  ]

  message-Returns : (m : Message) (s : Syncer) → Returns (handle_message lib now m s) s
  unfolding handle_message file_update_sync_status update_sync_status
  message-Returns resync s =
      let k = forget_failed-Leaves s in
      let (r, e, l) =
        process_then-Returns "Starting full resync" (run false true) (forget_failed s) in
      (
        r,
        e,
        record {
          config = l.config ∙ k.config;
          task = l.task ∙ k.task;
          cmd = l.cmd ∙ k.cmd;
          safe = λ t d. l.safe (k.task ∙ t) (k.cmd ∙ d);
        },
      )
  message-Returns resync_dry s = process_then-Returns _ _ s
  message-Returns sync_loop s = loop_call-Returns s.last_patch s
  message-Returns restart s =
      (_, refl, record { config = ground arith; task = refl; cmd = refl; safe = λ t d. (tt, tt) })
  message-Returns restart_clean s =
      (_, refl, record { config = ground arith; task = refl; cmd = refl; safe = λ t d. (tt, tt) })
  message-Returns halt s =
      (_, refl, record { config = ground arith; task = refl; cmd = refl; safe = λ t d. (tt, tt) })
  message-Returns halt_clean s =
      (_, refl, record { config = ground arith; task = refl; cmd = refl; safe = λ t d. (tt, tt) })
  message-Returns publish_state s =
      (_, refl, record { config = refl; task = refl; cmd = refl; safe = λ t d. (tt, tt) })
  message-Returns interrupt s =
      (_, refl, record { config = refl; task = refl; cmd = refl; safe = λ t d. (d, tt) })
  message-Returns pause s = (
    _,
    refl,
    record { config = ground arith; task = refl; cmd = refl; safe = λ t d. (t, (tt, tt)) },
  )
  message-Returns resume s = (
    _,
    refl,
    record { config = ground arith; task = refl; cmd = refl; safe = λ t d. (t, (tt, (t, tt))) },
  )
  message-Returns disable s = (
    _,
    refl,
    record { config = ground arith; task = refl; cmd = refl; safe = λ t d. (t, (tt, tt)) },
  )
  message-Returns enable s =
      (_, refl, record { config = refl; task = refl; cmd = refl; safe = λ t d. tt })
  message-Returns publish_store s = elim (Bool-cases s.patch_store) [
    | inl e ↦
        rw e (_, refl, record { config = refl; task = refl; cmd = refl; safe = λ t d. (tt, tt) })
    | inr e ↦ rw e (_, refl, record { config = refl; task = refl; cmd = refl; safe = λ t d. tt })
  ]

on_found-config :
    (side : Option Side) (f : EndpointInfo → EndpointInfo) (m : MemoryStateStore)
    → (on_found side f m).config ≡ m.config
unfolding on_side
on_found-config none f m = refl
on_found-config (some left) f m = refl
on_found-config (some right) f m = refl

-- The side that a URI selects, from the parsed URIs of the task.
abbrev pub side_for : Url → Url → String → Option Side
side_for l r uri =
    if uri == url_text l then some left else if uri == url_text r then some right else none

pub side_of-eq :
    (parse : String → Option Url) (t : Task) (uri : String) {l r : Url}
    → parse t.left_uri ≡ some l
    → parse t.right_uri ≡ some r
    → side_of parse t uri ≡ some (side_for l r uri)
unfolding side_of simple_uri
side_of-eq parse t uri {l} {r} el er =
    rw el (elim (Bool-cases (uri == url_text l)) [ inl e ↦ rw e | inr e ↦ rw (e, er) ])

-- The URIs of a task can be parsed.
abbrev pub CanParse : (String → Option Url) → Task → Type 0
CanParse parse t =
    ((l : Url) × (parse t.left_uri ≡ some l)) × ((r : Url) × (parse t.right_uri ≡ some r))

side_of-returns :
    (parse : String → Option Url) (t : Task) (uri : String)
    → CanParse parse t
    → (o : Option Side) × (side_of parse t uri ≡ some o)
side_of-returns parse t uri ((l, el), (r, er)) = (side_for l r uri, side_of-eq parse t uri el er)

abbrev UpdateReturns : Option MemoryStateStore → MemoryStateStore → Type 0
UpdateReturns o m = (m' : MemoryStateStore) × (o ≡ some m') × (m'.config ≡ m.config)

module _ (lib : Lib) (now : ℕ) (uri : String) (m : MemoryStateStore)
    (ok : CanParse lib.parse m.config) where
  connection-returns : (c : Bool) → UpdateReturns (update_connection lib.parse c uri now m) m
  unfolding update_connection
  connection-returns c =
      let (o, e) = side_of-returns lib.parse m.config uri ok in
      rw e (_, refl, on_found-config o _ m)

  activity-returns : (a : Bool) → UpdateReturns (update_watcher_activity lib.parse a uri m) m
  unfolding update_watcher_activity
  activity-returns a =
      let (o, e) = side_of-returns lib.parse m.config uri ok in
      rw e (_, refl, on_found-config o _ m)

  stats-returns : (st : Option ℕ) → UpdateReturns (update_endpoint_stats lib.parse st uri m) m
  unfolding update_endpoint_stats
  stats-returns st =
      let (o, e) = side_of-returns lib.parse m.config uri ok in
      rw e (_, refl, on_found-config o _ m)

launch-Leaves :
    (b dirty : Bool) (m : MemoryStateStore) (s : Syncer)
    → m.config ≡ s.store.mem.config
    → let (s', calls) = if b then launch dirty (with_mem m s) else (with_mem m s, []) in
      Leaves s (s', calls ++ (pub_state m.state ∷ []))
launch-Leaves true true m s k = record {
  config = k;
  task = refl;
  cmd = refl;
  safe = λ t d. (t, (tt, tt));
}
launch-Leaves true false m s k = record {
  config = k;
  task = refl;
  cmd = refl;
  safe = λ t d. (t, (tt, tt));
}
launch-Leaves false dirty m s k = record {
  config = k;
  task = refl;
  cmd = refl;
  safe = λ t d. (tt, tt);
}

-- An update of the memory that is published.
update-Leaves :
    (m : MemoryStateStore) (s : Syncer)
    → m.config ≡ s.store.mem.config
    → Leaves s (with_mem m s, pub_state m.state ∷ [])
update-Leaves m s k = record { config = k; task = refl; cmd = refl; safe = λ t d. (tt, tt) }

module _ (lib : Lib) (now : ℕ) (s : Syncer) (ok : CanParse lib.parse s.store.mem.config) where
  handle_connection-Returns :
      (c : Bool) (uri : String) → Returns (handle_connection lib now c uri s) s
  unfolding handle_connection
  handle_connection-Returns c uri =
      let (m, e, k) = connection-returns lib now uri s.store.mem ok c in
      rw e (_, refl, launch-Leaves _ s.dirty_stopped m s k)

  endpoint-Returns :
      (c : WatchConnection) (e : EndpointStatus) → Returns (handle_endpoint lib now c e s) s
  unfolding handle_endpoint
  endpoint-Returns watch_connected e = handle_connection-Returns true e.uri
  endpoint-Returns watch_disconnected e = handle_connection-Returns false e.uri
  endpoint-Returns watch_active e =
      let (m, q, k) = activity-returns lib now e.uri s.store.mem ok true in
      rw q (_, refl, update-Leaves m s k)
  endpoint-Returns watch_idle e =
      let (m, q, k) = activity-returns lib now e.uri s.store.mem ok false in
      rw q (_, refl, update-Leaves m s k)
  endpoint-Returns watch_stats e =
      let (m, q, k) = stats-returns lib now e.uri s.store.mem ok e.stats in
      rw q (_, refl, update-Leaves m s k)
  endpoint-Returns watch_other e =
      (_, refl, record { config = refl; task = refl; cmd = refl; safe = λ t d. tt })

module _ (lib : Lib) (plain : (text : String) → (lib.new_status text).endpoint_uri ≡ "") where
  handle-Returns :
      (now : ℕ) (i : Input) (s : Syncer)
      → CanParse lib.parse s.store.mem.config
      → Returns (handle lib now i s) s
  unfolding handle
  handle-Returns now (message m) s ok = message-Returns lib now plain m s
  handle-Returns now (endpoint_status e) s ok = endpoint-Returns lib now s ok e.connection e
  handle-Returns now other s ok =
      (_, refl, record { config = refl; task = refl; cmd = refl; safe = λ t d. tt })

  -- Let a service have its task and its channel of commands, as `NewSyncer` leaves it without an error.
  -- If both URIs of the task can be parsed, and a status made by the library is about no endpoint,
  -- then `dispatchBus` handles any inputs to their end without a panic: it reads no URL that is nil,
  -- and calls no task and no channel of commands that is nil.
  pub handle_all-returns :
      (is : List (ℕ × Input)) (s : Syncer)
      → s.task ≡ true
      → s.cmd ≡ true
      → CanParse lib.parse s.store.mem.config
      → (r : Outcome) × (handle_all lib is s ≡ some r) × All IsSafe r.1
  unfolding handle_all
  handle_all-returns [] s t d ok = (_, refl, tt)
  handle_all-returns ((now, i) ∷ is) s t d ok =
      let (r, e, l) = handle-Returns now i s ok in
      let (r', e', h) = handle_all-returns is r.0 (l.task ∙ t) (l.cmd ∙ d) (rw l.config ok) in
      rw e (rw e' (_, refl, All-append r.1 r'.1 (l.safe t d) h))
