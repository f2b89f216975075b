-- ===== src/Endpoint/Snapshots.antt =====
-- endpoint/snapshot-factory.go: the snapshots of a task. The database is a parameter: a snapshot is the
-- number in the order in which it was opened, and the lock makes `Load` one step.
use cells_sync.Prelude.{
  ℕ, suc, ◌≡◌, ◌≢◌, refl, String, Bool, true, false, Option, none, some, List, [], ◌∷◌, ◌++◌,
  if◌then◌else◌, ◌==◌, string_eq, Option-cases, inl, inr, eq_iff,
}

-- `SnapshotFactory`, with what was done to the snapshots.
pub record SnapshotFactory : Type 0 where
  pub snaps : List (String × ℕ)
  pub uris : List (String × String)
  pub opened : ℕ
  pub closed : List ℕ
  pub removed : List String

module _ {A : Type 0} where
  abbrev lookup : String → List (String × A) → Option A
  lookup k [] = none
  lookup k ((j, v) ∷ m) = let rest = lookup k m in if j == k then some v else rest

-- `NewSnapshotFactory`. Of two equal keys the later one counts.
unfoldable pub new_snapshot_factory : String → String → SnapshotFactory
new_snapshot_factory left right = record {
  snaps = [];
  uris = (right, "right") ∷ (left, "left") ∷ [];
  opened = 0;
  closed = [];
  removed = [];
}

-- A URI that is missing in a Go map of texts gives the empty text.
abbrev name_or_empty : Option String → String
name_or_empty none = ""
name_or_empty (some n) = n

abbrev opens_snapshot : Bool → String → SnapshotFactory → Option ℕ × SnapshotFactory
opens_snapshot true name f =
    (some f.opened, record f { snaps = (name, f.opened) ∷ f.snaps; opened = suc f.opened })
opens_snapshot false name f = (none, f)

-- `Load`, given whether the snapshot can be opened.
unfoldable pub load_snapshot : Bool → String → SnapshotFactory → Option ℕ × SnapshotFactory
load_snapshot ok uri f =
    let name = name_or_empty (lookup uri f.uris) in
    elim (lookup name f.snaps) [ some s ↦ (some s, f) | none ↦ opens_snapshot ok name f ]

abbrev closes : Option ℕ → SnapshotFactory → SnapshotFactory
closes none f = f
closes (some s) f = record f { closed = f.closed ++ (s ∷ []) }

-- `Close`
unfoldable pub close_snapshots : SnapshotFactory → SnapshotFactory
close_snapshots f = closes (lookup "right" f.snaps) (closes (lookup "left" f.snaps) f)

-- The body of the loop of `Reset`, and whether the file could be removed.
abbrev clears : (String → Bool) → String → Option ℕ → SnapshotFactory → SnapshotFactory × Bool
clears can_remove name none f = (f, true)
clears can_remove name (some s) f =
    let f' = record f { closed = f.closed ++ (s ∷ []) } in
    if can_remove name
    then (record f' { removed = f.removed ++ (name ∷ []) }, true)
    else (f', false)

-- `Reset`, and whether it returned no error.
unfoldable pub reset_snapshots : (String → Bool) → SnapshotFactory → SnapshotFactory × Bool
reset_snapshots can_remove f =
    let (f', fine) = clears can_remove "left" (lookup "left" f.snaps) f in
    if fine then clears can_remove "right" (lookup "right" f'.snaps) f' else (f', false)

abbrev name_of : String → SnapshotFactory → String
name_of uri f = name_or_empty (lookup uri f.uris)

load_snapshot-found :
    (ok : Bool) (uri : String) (f : SnapshotFactory) (s : ℕ)
    → lookup (name_of uri f) f.snaps ≡ some s
    → load_snapshot ok uri f ≡ (some s, f)
unfolding load_snapshot
load_snapshot-found ok uri f s e = rw (load_snapshot, e) refl

load_snapshot-missing :
    (ok : Bool) (uri : String) (f : SnapshotFactory)
    → lookup (name_of uri f) f.snaps ≡ none
    → load_snapshot ok uri f ≡ opens_snapshot ok (name_of uri f) f
unfolding load_snapshot
load_snapshot-missing ok uri f e = rw (load_snapshot, e) refl

-- A snapshot that was loaded is the one that the next load gives, which opens nothing.
pub load_snapshot-again :
    (ok ok' : Bool) (uri : String) (f : SnapshotFactory)
    → (load_snapshot ok uri f).0 ≢ none
    → load_snapshot ok' uri (load_snapshot ok uri f).1 ≡ load_snapshot ok uri f
load_snapshot-again ok ok' uri f h = elim (Option-cases (lookup (name_of uri f) f.snaps)) [
  | inl e ↦ opened ok h e
  | inr (s, e) ↦ rw (load_snapshot-found ok uri f s e) (load_snapshot-found ok' uri f s e)
]
  where
    opened :
        (ok : Bool)
        → (load_snapshot ok uri f).0 ≢ none
        → lookup (name_of uri f) f.snaps ≡ none
        → load_snapshot ok' uri (load_snapshot ok uri f).1 ≡ load_snapshot ok uri f
    opened false h e = absurd (h (rw (load_snapshot-missing false uri f e) refl))
    opened true h e = rw (load_snapshot-missing true uri f e) (
        load_snapshot-found ok' uri (opens_snapshot true (name_of uri f) f).1 f.opened
          (rw ((eq_iff (name_of uri f) (name_of uri f)).1 refl) refl))
