-- ===== src/Tray/Menu/Slots.antt =====
-- app/tray/tray.go: the items of the tasks.
use mathlib.Core.List.{append_assoc}
use cells_sync.Prelude.{
  suc, ◌≡◌, refl, ap, arith, String, Bool, true, false, some, List, [], ◌∷◌, ◌++◌, leb, length,
  get_elem?, set, length-append,
}
use cells_sync.Control.State.{SyncState}
use cells_sync.Tray.Menu.{
  Slot, Icon, Menu, Flags, no_flags, flags_after, icon_of, hide_from, slot_of, show_tasks,
  with_pause, before_tasks, on_tasks,
}

module _ {A : Type 0} where
  get_elem?-middle :
      (pre : List A) (x : A) (post : List A) → get_elem? (pre ++ (x ∷ post)) (length pre) ≡ some x
  get_elem?-middle [] x post = refl
  get_elem?-middle (y ∷ pre) x post = get_elem?-middle pre x post

  set-middle :
      (pre : List A) (x y : A) (post : List A)
      → set (pre ++ (x ∷ post)) (length pre) y ≡ pre ++ (y ∷ post)
  set-middle [] x y post = refl
  set-middle (z ∷ pre) x y post = ap (λ zs. z ∷ zs) (set-middle pre x y post)

module _ (t : String → String) where
  -- The tasks side by side with the items, which are not empty.
  abbrev pub fill : Flags → Bool → List SyncState → List Slot → List Slot
  fill f e ss [] = []
  fill f e [] (x ∷ slots) = x ∷ slots
  fill f e (s ∷ ss) (x ∷ slots) = slot_of t f s e ∷ fill (flags_after f s) e ss slots

  abbrev pub flags_of : Flags → List SyncState → List Slot → Flags
  flags_of f ss [] = f
  flags_of f [] (x ∷ slots) = f
  flags_of f (s ∷ ss) (x ∷ slots) = flags_of (flags_after f s) ss slots

  abbrev pub icon_after : Icon → Flags → List SyncState → List Slot → Icon
  icon_after i f ss [] = i
  icon_after i f [] (x ∷ slots) = i
  icon_after i f (s ∷ ss) (x ∷ slots) =
      icon_after (icon_of (flags_after f s)) (flags_after f s) ss slots

  abbrev filled : Menu → List Slot → Flags → List SyncState → List Slot → Menu × Flags
  filled m pre f ss slots = (
    record m { slots = pre ++ fill f m.open_enabled ss slots; icon = icon_after m.icon f ss slots },
    flags_of f ss slots,
  )

  abbrev pub with_slots : Menu → List Slot → Menu
  with_slots m slots = record m { slots = slots }

  is_last : (pre : List Slot) (x : Slot) → leb (length (pre ++ (x ∷ []))) (suc (length pre)) ≡ true
  is_last pre x = ground (arith, length-append pre (x ∷ []))

  is_not_last :
      (pre : List Slot) (x y : Slot) (post : List Slot)
      → leb (length (pre ++ (x ∷ y ∷ post))) (suc (length pre)) ≡ false
  is_not_last pre x y post = ground (arith, length-append pre (x ∷ y ∷ post))

  length-snoc : (pre : List Slot) (x : Slot) → length (pre ++ (x ∷ [])) ≡ suc (length pre)
  length-snoc pre x = omega (arith, length-append pre (x ∷ []))

  next :
      (f : Flags) (ss : List SyncState) (m : Menu) (pre : List Slot) (x : Slot) (post : List Slot)
      → show_tasks t (length (pre ++ (x ∷ []))) f ss (with_slots m ((pre ++ (x ∷ [])) ++ post))
        ≡ some (filled m (pre ++ (x ∷ [])) f ss post)
      → show_tasks t (suc (length pre)) f ss (with_slots m (pre ++ (x ∷ post)))
        ≡ some (
          with_slots (filled m pre f ss post).0 (pre ++ (x ∷ fill f m.open_enabled ss post)),
          flags_of f ss post,
        )
  next f ss m pre x post h =
      rw
        (
          length-snoc pre x,
          append_assoc pre (x ∷ []) post,
          append_assoc pre (x ∷ []) (fill f m.open_enabled ss post),
        )
        at h

  show_tasks_lem :
      (f : Flags) (ss : List SyncState) (m : Menu) (pre : List Slot) (x : Slot) (post : List Slot)
      → show_tasks t (length pre) f ss (with_slots m (pre ++ (x ∷ post)))
        ≡ some (filled m pre f ss (x ∷ post))
  unfolding show_tasks
  show_tasks_lem f [] m pre x post = refl
  show_tasks_lem f (s ∷ ss) m pre x [] =
      rw (get_elem?-middle pre x [], show_tasks, set-middle pre x (slot_of t f s m.open_enabled) [])
        (rw (is_last pre (slot_of t f s m.open_enabled)) refl)
  show_tasks_lem f (s ∷ ss) m pre x (y ∷ post) =
      rw
        (
          get_elem?-middle pre x (y ∷ post),
          show_tasks,
          set-middle pre x (slot_of t f s m.open_enabled) (y ∷ post),
        )
        (rw (is_not_last pre (slot_of t f s m.open_enabled) y post) (
          next (flags_after f s) ss (record m { icon = icon_of (flags_after f s) }) pre
            (slot_of t f s m.open_enabled) (y ∷ post)
            (show_tasks_lem (flags_after f s) ss (record m { icon = icon_of (flags_after f s) })
              (pre ++ (slot_of t f s m.open_enabled ∷ [])) y post)))

  abbrev pub outcome : List SyncState → Menu → List Slot → Menu
  outcome ss m slots =
      let (m', f) = filled (before_tasks ss m) [] no_flags ss slots in
      with_pause t ss (with_slots m' (hide_from (length ss) m'.slots), f)

  pub on_tasks_lem :
      (ss : List SyncState) (m : Menu) (x : Slot) (post : List Slot)
      → on_tasks t ss (with_slots m (x ∷ post)) ≡ some (outcome ss m (x ∷ post))
  unfolding on_tasks
  on_tasks_lem [] m x post = rw (show_tasks_lem no_flags [] (before_tasks [] m) [] x post) refl
  on_tasks_lem (s ∷ ss) m x post =
      rw (show_tasks_lem no_flags (s ∷ ss) (before_tasks (s ∷ ss) m) [] x post) refl

  -- The items show the tasks, as long as there are items, and those that are left over are hidden.
  abbrev pub Shows : Bool → List SyncState → List Slot → Type 0
  Shows e ss [] = Unit
  Shows e [] (x ∷ slots) = (x.visible ≡ false) × Shows e [] slots
  Shows e (s ∷ ss) (x ∷ slots) =
      (x.visible ≡ true) × (x.tooltip ≡ s.config.uuid) × (x.enabled ≡ e) × Shows e ss slots

  hide_from-Shows : (e : Bool) (slots : List Slot) → Shows e [] (hide_from 0 slots)
  unfolding hide_from
  hide_from-Shows e [] = tt
  hide_from-Shows e (x ∷ slots) = (refl, hide_from-Shows e slots)

  fill-Shows :
      (f : Flags) (e : Bool) (ss : List SyncState) (slots : List Slot)
      → Shows e ss (hide_from (length ss) (fill f e ss slots))
  unfolding hide_from
  fill-Shows f e ss [] = tt
  fill-Shows f e [] (x ∷ slots) = hide_from-Shows e (x ∷ slots)
  fill-Shows f e (s ∷ ss) (x ∷ slots) = (refl, refl, refl, fill-Shows (flags_after f s) e ss slots)

  with_pause-slots :
      (ss : List SyncState) (m : Menu) (f : Flags) → (with_pause t ss (m, f)).slots ≡ m.slots
  with_pause-slots [] m f = refl
  with_pause-slots (s ∷ ss) m f = ground arith

  -- With at least one item, the list of the tasks never reaches an item that is not there, however
  -- long it is: the first tasks are shown by the items in their order, each with its uuid, enabled
  -- exactly when the menu can open the window, and the items that are left over are hidden.
  pub on_tasks-Shows :
      (ss : List SyncState) (m : Menu) (x : Slot) (post : List Slot)
      → (m' : Menu) × (on_tasks t ss (with_slots m (x ∷ post)) ≡ some m')
        × Shows m.open_enabled ss m'.slots
  on_tasks-Shows [] m x post = (
    outcome [] m (x ∷ post),
    on_tasks_lem [] m x post,
    fill-Shows no_flags m.open_enabled [] (x ∷ post),
  )
  on_tasks-Shows (s ∷ ss) m x post = (
    outcome (s ∷ ss) m (x ∷ post),
    on_tasks_lem (s ∷ ss) m x post,
    rw (with_pause-slots (s ∷ ss) _ (flags_of no_flags (s ∷ ss) (x ∷ post)))
        (fill-Shows no_flags m.open_enabled (s ∷ ss) (x ∷ post)),
  )
