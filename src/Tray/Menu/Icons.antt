-- ===== src/Tray/Menu/Icons.antt =====
-- app/tray/tray.go: the icon, and the item that pauses and resumes.
use cells_sync.Prelude.{
  ◌≡◌, refl, ◌∙◌, arith, String, Bool, true, false, not, ◌&&◌, ◌||◌, some, List, [], ◌∷◌,
  if◌then◌else◌, length, take, Bool-cases, inl, inr,
}
use cells_sync.Control.State.{SyncState, error, processing, paused}
use cells_sync.Control.State.File.{same_status}
use cells_sync.Tray.Menu.{
  Slot, Icon, icon_idle, icon_active, icon_error, icon_pause, Menu, Flags, no_flags, is_connected,
  flags_after, icon_of, on_tasks, pause_clicked,
}
use cells_sync.Tray.Menu.Slots.{with_slots, flags_of, icon_after, outcome, on_tasks_lem}

-- Is a task in an error, or is one of its endpoints not connected?
abbrev pub has_trouble : List SyncState → Bool
has_trouble [] = false
has_trouble (s ∷ ss) = same_status s.status error || not (is_connected s) || has_trouble ss

abbrev pub is_processing : List SyncState → Bool
is_processing [] = false
is_processing (s ∷ ss) = same_status s.status processing || is_processing ss

abbrev pub are_paused : List SyncState → Bool
are_paused [] = true
are_paused (s ∷ ss) = same_status s.status paused && are_paused ss

-- The icon that stands for a list of tasks.
abbrev pub icon_for : List SyncState → Icon
icon_for [] = icon_idle
icon_for (s ∷ ss) =
    if are_paused (s ∷ ss)
    then icon_pause
    else if has_trouble (s ∷ ss)
    then icon_error
    else if is_processing (s ∷ ss)
    then icon_active
    else icon_idle

module _ (t : String → String) where
  has_error-flags_of :
      (f : Flags) (ss : List SyncState) (slots : List Slot)
      → (flags_of t f ss slots).has_error ≡ (f.has_error || has_trouble (take (length slots) ss))
  has_error-flags_of f ss [] = ground arith
  has_error-flags_of f [] (x ∷ slots) = ground arith
  has_error-flags_of f (s ∷ ss) (x ∷ slots) =
      ground (arith, has_error-flags_of (flags_after f s) ss slots)

  has_processing-flags_of :
      (f : Flags) (ss : List SyncState) (slots : List Slot)
      → (flags_of t f ss slots).has_processing
        ≡ (f.has_processing || is_processing (take (length slots) ss))
  has_processing-flags_of f ss [] = ground arith
  has_processing-flags_of f [] (x ∷ slots) = ground arith
  has_processing-flags_of f (s ∷ ss) (x ∷ slots) =
      ground (arith, has_processing-flags_of (flags_after f s) ss slots)

  all_paused-flags_of :
      (f : Flags) (ss : List SyncState) (slots : List Slot)
      → (flags_of t f ss slots).all_paused ≡ (f.all_paused && are_paused (take (length slots) ss))
  all_paused-flags_of f ss [] = ground arith
  all_paused-flags_of f [] (x ∷ slots) = ground arith
  all_paused-flags_of f (s ∷ ss) (x ∷ slots) =
      ground (arith, all_paused-flags_of (flags_after f s) ss slots)

  icon_after_lem :
      (i : Icon) (f : Flags) (ss : List SyncState) (slots : List Slot)
      → i ≡ icon_of f
      → icon_after t i f ss slots ≡ icon_of (flags_of t f ss slots)
  icon_after_lem i f ss [] e = e
  icon_after_lem i f [] (x ∷ slots) e = e
  icon_after_lem i f (s ∷ ss) (x ∷ slots) e =
      icon_after_lem (icon_of (flags_after f s)) (flags_after f s) ss slots refl

  icon_of-flags_of :
      (ss : List SyncState) (slots : List Slot)
      → let shown = take (length slots) ss in
        icon_of (flags_of t no_flags ss slots) ≡ (
          if has_trouble shown
          then icon_error
          else if is_processing shown
          then icon_active
          else icon_idle)
  icon_of-flags_of ss slots =
      rw (has_error-flags_of no_flags ss slots, has_processing-flags_of no_flags ss slots) refl

  abbrev pub command_for : List SyncState → String
  command_for [] = "pause"
  command_for (s ∷ ss) = if are_paused (s ∷ ss) then "resume" else "pause"

  abbrev pub IsRight : List SyncState → Menu → Type 0
  IsRight shown m = (m.icon ≡ icon_for shown) × (pause_clicked m ≡ command_for shown)

  pub outcome-IsRight :
      (ss : List SyncState) (m : Menu) (x : Slot) (post : List Slot)
      → IsRight (take (length (x ∷ post)) ss) (outcome t ss m (x ∷ post))
  unfolding pause_clicked
  outcome-IsRight [] m x post = (refl, refl)
  outcome-IsRight (s ∷ ss) m x post = elim (Bool-cases (are_paused (s ∷ take (length post) ss))) [
    | inl e ↦ rw (all_paused-flags_of no_flags (s ∷ ss) (x ∷ post), e) (refl, refl)
    | inr e ↦
        rw (all_paused-flags_of no_flags (s ∷ ss) (x ∷ post), e)
          (
            icon_after_lem _ (flags_after no_flags s) ss post refl
                ∙ icon_of-flags_of (s ∷ ss) (x ∷ post),
            refl,
          )
  ]

  -- The icon and the command of the item that pauses and resumes are those for the tasks that have an
  -- item: without a task the idle icon; else that of the pause when they are all paused, and then the item
  -- resumes; else that of an error when one of them is in an error or has an endpoint that is not
  -- connected; else the active one when one of them is processing; else the idle one.
  pub on_tasks-IsRight :
      (ss : List SyncState) (m : Menu) (x : Slot) (post : List Slot)
      → (m' : Menu) × (on_tasks t ss (with_slots t m (x ∷ post)) ≡ some m')
        × IsRight (take (length (x ∷ post)) ss) m'
  on_tasks-IsRight ss m x post =
      (outcome t ss m (x ∷ post), on_tasks_lem t ss m x post, outcome-IsRight ss m x post)
