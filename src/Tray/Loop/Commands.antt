-- ===== src/Tray/Loop/Commands.antt =====
-- app/tray/tray.go: the commands that the menu sends.
use mathlib.Core.List.{append_assoc, append-nil}
use cells_sync.Prelude.{
  ℕ, zero, suc, ◌≡◌, refl, sym, ap, ◌∙◌, String, Bool, true, false, some, List, [], ◌∷◌, ◌++◌, map,
  arith, length, take, ◌>>=◌,
}
use cells_sync.Control.State.{SyncState}
use cells_sync.Tray.Menu.{
  Slot, Menu, Flags, on_ready, on_status, on_tasks, hide_from, pause_clicked, open_item,
  new_tasks_item, about_item, resync_item, pause_item, quit_item, task_item, clicked, disable_slot,
  enable_slot, no_flags, flags_after,
}
use cells_sync.Tray.Menu.Slots.{fill, outcome, on_tasks_lem, with_slots}
use cells_sync.Tray.Menu.Icons.{command_for, outcome-IsRight}
use cells_sync.Tray.Loop.{
  LoopEvent, bus_message, client_error, status, tasks, partial_tasks, click, Tray, ready, on_case,
  on_event, on_events,
}

length-hide_from : (k : ℕ) (ss : List Slot) → length (hide_from k ss) ≡ length ss
unfolding hide_from
length-hide_from k [] = refl
length-hide_from zero (s ∷ ss) = ap suc (length-hide_from zero ss)
length-hide_from (suc k) (s ∷ ss) = ap suc (length-hide_from k ss)

length-map : {A B : Type 0} (f : A → B) (xs : List A) → length (map f xs) ≡ length xs
length-map f [] = refl
length-map f (x ∷ xs) = ap suc (length-map f xs)

module _ (t : String → String) where
  length-fill :
      (f : Flags) (e : Bool) (ss : List SyncState) (slots : List Slot)
      → length (fill t f e ss slots) ≡ length slots
  length-fill f e ss [] = refl
  length-fill f e [] (x ∷ slots) = refl
  length-fill f e (s ∷ ss) (x ∷ slots) = ap suc (length-fill (flags_after f s) e ss slots)

  -- The commands that follow from the events alone: the list that came last decides on the item that
  -- pauses and resumes, by the tasks that have one of the ten items.
  abbrev pub commands_after : List SyncState → List LoopEvent → List String
  commands_after last [] = []
  commands_after last (bus_message ∷ es) = commands_after last es
  commands_after last (client_error ∷ es) = commands_after last es
  commands_after last (partial_tasks ∷ es) = []
  commands_after last (status b ∷ es) = commands_after last es
  commands_after last (tasks ss ∷ es) = commands_after ss es
  commands_after last (click resync_item ∷ es) = "loop" ∷ commands_after last es
  commands_after last (click pause_item ∷ es) =
      command_for t (take 10 last) ∷ commands_after last es
  commands_after last (click quit_item ∷ es) = []
  commands_after last (click open_item ∷ es) = commands_after last es
  commands_after last (click new_tasks_item ∷ es) = commands_after last es
  commands_after last (click about_item ∷ es) = commands_after last es
  commands_after last (click (task_item i) ∷ es) = commands_after last es

  -- Every task comes with both infos.
  abbrev pub AreWhole : List LoopEvent → Type 0
  AreWhole [] = Unit
  AreWhole (partial_tasks ∷ es) = ⊥
  AreWhole (_ ∷ es) = AreWhole es

  -- The menu has its ten items, and its command is that for the last list.
  pub record IsCurrent (last : List SyncState) (m : Menu) : Type 0 where
    pub ten : length m.slots ≡ 10
    pub right : pause_clicked m ≡ command_for t (take 10 last)

  length-outcome :
      (ss : List SyncState) (m : Menu) (slots : List Slot)
      → length (outcome t ss m slots).slots ≡ length slots
  length-outcome [] m slots =
      length-hide_from 0 (fill t no_flags _ [] slots) ∙ length-fill no_flags _ [] slots
  length-outcome (s ∷ ss) m slots = ground (
    arith,
    length-hide_from (suc (length ss)) (fill t no_flags m.open_enabled (s ∷ ss) slots),
    length-fill no_flags m.open_enabled (s ∷ ss) slots,
  )

  IsCurrent-on_status :
      (b : Bool) (last : List SyncState) (m : Menu)
      → IsCurrent last m
      → IsCurrent last (on_status b m)
  unfolding on_status pause_clicked
  IsCurrent-on_status true last m h = record {
    ten = length-map disable_slot m.slots ∙ h.ten;
    right = h.right;
  }
  IsCurrent-on_status false last m h = record {
    ten = length-map enable_slot m.slots ∙ h.ten;
    right = h.right;
  }

  -- Ten items are not none.
  on_tasks-IsCurrent :
      (ss : List SyncState) (m : Menu) (slots : List Slot)
      → length slots ≡ 10
      → (m' : Menu) × (on_tasks t ss (with_slots t m slots) ≡ some m') × IsCurrent ss m'
  on_tasks-IsCurrent ss m [] n = absurd (omega (arith, n))
  on_tasks-IsCurrent ss m (x ∷ post) n = (
    outcome t ss m (x ∷ post),
    on_tasks_lem t ss m x post,
    record {
      ten = length-outcome ss m (x ∷ post) ∙ n;
      right = (outcome-IsRight t ss m x post).1 ∙ ap (λ k. command_for t (take k ss)) n;
    },
  )

  on_event-halted : (e : LoopEvent) (a : Tray) → a.halted ≡ true → on_event t e a ≡ some a
  unfolding on_event
  on_event-halted e a h = simp h

  on_events-halted : (es : List LoopEvent) (a : Tray) → a.halted ≡ true → on_events t es a ≡ some a
  unfolding on_events
  on_events-halted [] a h = refl
  on_events-halted (e ∷ es) a h = rw (on_event-halted e a h) (on_events-halted es a h)

  on_events-open :
      (e : LoopEvent) (es : List LoopEvent) (a : Tray)
      → a.halted ≡ false
      → on_events t (e ∷ es) a ≡ (on_case t e a >>= λ b. on_events t es b)
  unfolding on_events on_event
  on_events-open e es a h = simp h

  on_events_nil : (a : Tray) → on_events t [] a ≡ some a
  unfolding on_events
  on_events_nil a = refl

  -- What a run of the loop sends, from a menu that is as it should be.
  abbrev Sends : List LoopEvent → List SyncState → Tray → Type 0
  Sends es last a =
      (b : Tray) × (on_events t es a ≡ some b) × (b.sent ≡ a.sent ++ commands_after last es)

  Sends-command :
      (cmd : String) (es : List LoopEvent) (last : List SyncState) (a : Tray)
      → Sends es last (record a { sent = a.sent ++ (cmd ∷ []) })
      → (b : Tray) × (on_events t es (record a { sent = a.sent ++ (cmd ∷ []) }) ≡ some b)
        × (b.sent ≡ a.sent ++ (cmd ∷ commands_after last es))
  Sends-command cmd es last a (b, h, s) =
      (b, h, s ∙ append_assoc a.sent (cmd ∷ []) (commands_after last es))

  on_events-Sends :
      (es : List LoopEvent) (last : List SyncState) (a : Tray)
      → AreWhole es
      → a.halted ≡ false
      → IsCurrent last a.menu
      → Sends es last a
  unfolding clicked
  on_events-Sends [] last a w h c = (a, on_events_nil a, sym (append-nil a.sent))
  on_events-Sends (bus_message ∷ es) last a w h c =
      rw (on_events-open bus_message es a h) (on_events-Sends es last a w h c)
  on_events-Sends (partial_tasks ∷ es) last a w h c = absurd w
  on_events-Sends (client_error ∷ es) last a w h c =
      rw (on_events-open client_error es a h) (on_events-Sends es last a w h c)
  on_events-Sends (status b ∷ es) last a w h c = rw (on_events-open (status b) es a h) (
      on_events-Sends es last (record a { menu = on_status b a.menu }) w h
        (IsCurrent-on_status b last a.menu c))
  on_events-Sends (tasks ss ∷ es) last a w h c =
      let (m, e, d) = on_tasks-IsCurrent ss a.menu a.menu.slots c.ten in
      rw (on_events-open (tasks ss) es a h, e) (on_events-Sends es ss _ w h d)
  on_events-Sends (click resync_item ∷ es) last a w h c =
      rw (on_events-open (click resync_item) es a h)
        (Sends-command "loop" es last a (on_events-Sends es last _ w h c))
  on_events-Sends (click pause_item ∷ es) last a w h c =
      rw (on_events-open (click pause_item) es a h, c.right)
        (Sends-command (command_for t (take 10 last)) es last a (on_events-Sends es last _ w h c))
  on_events-Sends (click quit_item ∷ es) last a w h c =
      rw (on_events-open (click quit_item) es a h) (
        record a { halted = true },
        on_events-halted es (record a { halted = true }) refl,
        sym (append-nil a.sent),
      )
  on_events-Sends (click open_item ∷ es) last a w h c =
      rw (on_events-open (click open_item) es a h) (on_events-Sends es last _ w h c)
  on_events-Sends (click new_tasks_item ∷ es) last a w h c =
      rw (on_events-open (click new_tasks_item) es a h) (on_events-Sends es last _ w h c)
  on_events-Sends (click about_item ∷ es) last a w h c =
      rw (on_events-open (click about_item) es a h) (on_events-Sends es last _ w h c)
  on_events-Sends (click (task_item i) ∷ es) last a w h c =
      rw (on_events-open (click (task_item i)) es a h) (on_events-Sends es last _ w h c)

  -- Whatever the client sends and the user clicks, if no task comes without an info that the loop reads:
  -- the loop never panics, and the commands that it sends are these: "loop" for each click on the item to synchronise, and for each click on the item
  -- to pause, "resume" if the last list of tasks is not empty and its tasks that have one of the
  -- ten items are all paused, and else "pause"; and none after the click to quit.
  pub on_events-sent :
      (es : List LoopEvent) (first_run : Bool)
      → AreWhole es
      → (b : Tray) × (on_events t es (ready t first_run) ≡ some b) × (b.sent ≡ commands_after [] es)
  unfolding ready on_ready pause_clicked
  on_events-sent es first_run w =
      on_events-Sends es [] (ready t first_run) w refl (record { ten = refl; right = refl })
