-- ===== src/Tray/Client/Entries.antt =====
-- app/tray/client.go: the entries of the map of the tasks.
use cells_sync.Prelude.{
  some_injective, ◌≡◌, ap, sym, ◌∙◌, arith, String, Bool, true, false, some, List, [], ◌∷◌, map,
  ◌==◌, string_eq, bool_eq, bool_beq_iff, eq_iff, Bool-cases, inl, inr,
}
use cells_sync.Control.State.{SyncState, TaskStatus, TaskStatus-discrete, removed}
use cells_sync.Control.State.File.{same_status}
use cells_sync.Tray.Client.{find, delete, put, values, has_changed}

-- What decides how the tray shows a task.
abbrev pub brief : SyncState → String × TaskStatus × Bool × Bool
brief s = (s.config.uuid, s.status, s.left_info.connected, s.right_info.connected)

same_status_iff : (a b : TaskStatus) → same_status a b ≡ true → a ≡ b
unfolding TaskStatus-discrete
same_status_iff a b h = ground arith

same_status_refl : (a : TaskStatus) → same_status a a ≡ true
unfolding TaskStatus-discrete
same_status_refl a = ground arith

pub brief_same :
    (p s : SyncState)
    → p.config.uuid ≡ s.config.uuid
    → has_changed (some p) s ≡ false
    → brief p ≡ brief s
brief_same p s e h = ground (
  arith,
  e,
  h,
  same_status_iff p.status s.status,
  bool_beq_iff p.left_info.connected s.left_info.connected,
  bool_beq_iff p.right_info.connected s.right_info.connected,
)

-- A state that is kept in place of one that shows the same.
pub map-brief-put :
    (u : String) (p s : SyncState) (m : List (String × SyncState))
    → find u m ≡ some p
    → brief p ≡ brief s
    → map brief (values (put u s m)) ≡ map brief (values m)
unfolding find put
map-brief-put u p s [] h e = cc
map-brief-put u p s ((v, t) ∷ m) h e = elim (Bool-cases (v == u)) [
  | inl same ↦
      let g = rw same at h in
      rw same (ap (λ b. b ∷ map brief (values m)) (sym e ∙ sym (ap brief (some_injective g))))
  | inr differ ↦ rw differ (ap (λ bs. brief t ∷ bs) (map-brief-put u p s m (rw differ at h) e))
]

-- A task stands under its uuid, and is not one that was removed.
abbrev pub IsEntry : String → SyncState → Type 0
IsEntry u s = (s.config.uuid ≡ u) × (same_status s.status removed ≡ false)

abbrev pub AreEntries : List (String × SyncState) → Type 0
AreEntries [] = Unit
AreEntries ((u, s) ∷ m) = IsEntry u s × AreEntries m

pub find-IsEntry :
    (u : String) (p : SyncState) (m : List (String × SyncState))
    → AreEntries m
    → find u m ≡ some p
    → IsEntry u p
unfolding find
find-IsEntry u p [] h e = cc
find-IsEntry u p ((v, t) ∷ m) h e = ground (arith, h, e, eq_iff v u, find-IsEntry u p m)

pub delete-AreEntries :
    (u : String) (m : List (String × SyncState)) → AreEntries m → AreEntries (delete u m)
unfolding delete
delete-AreEntries u [] h = tt
delete-AreEntries u ((v, t) ∷ m) h = elim (Bool-cases (v == u)) [
  | inl e ↦ rw e (delete-AreEntries u m h.1)
  | inr e ↦ rw e (h.0, delete-AreEntries u m h.1)
]

pub put-AreEntries :
    (u : String) (s : SyncState) (m : List (String × SyncState))
    → IsEntry u s
    → AreEntries m
    → AreEntries (put u s m)
unfolding put
put-AreEntries u s [] n h = (n, tt)
put-AreEntries u s ((v, t) ∷ m) n h = elim (Bool-cases (v == u)) [
  | inl e ↦ rw e (n, h.1)
  | inr e ↦ rw e (h.0, put-AreEntries u s m n h.1)
]
