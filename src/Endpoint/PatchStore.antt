-- ===== src/Endpoint/PatchStore.antt =====
-- endpoint/patch-store.go: the patches of a task, kept in a database with a bucket for each patch.
-- The database (bbolt), JSON and the constructors of the sync library are parameters. An operation
-- is known by a number, and the nil operation is `none`.
pub mod Pages
pub mod Keys
pub mod Restoring
pub mod Pruning
pub mod Queue
use cells_sync.Prelude.{
  ℕ, ◌+◌, ◌/◌, ◌%◌, ◌^◌, String, Bool, true, false, ◌&&◌, not, Option, none, some, List, [], ◌∷◌,
  if◌then◌else◌, ◌==◌, nat_eq, drop, map, ◌>>=◌,
}
use cells_sync.Prelude.Int.{ℤ, pos, negsuc, ltb_ℤ, ◌+ℤ◌}
use cells_sync.Endpoint.Patch.{Patch}

-- `itob`: the eight bytes of a uint64, the highest first.
unfoldable pub itob : ℕ → List ℕ
itob v =
    v / 2 ^ 56 % 256
    ∷ v / 2 ^ 48 % 256
    ∷ v / 2 ^ 40 % 256
    ∷ v / 2 ^ 32 % 256
    ∷ v / 2 ^ 24 % 256
    ∷ v / 2 ^ 16 % 256
    ∷ v / 2 ^ 8 % 256
    ∷ v % 256
    ∷ []

-- The content of the bucket of a patch: its stamp as text, and its operations by their keys.
pub record Bucket : Type 0 where
  pub stamp : List ℕ
  pub operations : List (List ℕ × List ℕ)

-- What the store uses of bbolt, for the bucket "patches". Each update is one transaction.
pub record Bolt : Type 1 where
  pub State : Type 0
  pub cursor : State → List (String × Bucket)  -- in the order of the keys
  pub has_bucket : String → State → Bool
  pub delete_bucket : String → State → State
  pub create_bucket : String → State → State  -- for a patch, `CreateBucketIfNotExists`
  pub put_stamp : String → List ℕ → State → State  -- `Put` of the key of the time
  pub create_operations : String → State → State  -- the bucket of the operations in it
  pub put_operation : String → List ℕ → List ℕ → State → State

-- The keys of the map that a conflict is unmarshalled into; `none` is a missing key.
pub record Fields : Type 0 where
  pub conflict_type : Option ℕ
  pub left_op : Option (List ℕ)  -- marshalled again
  pub right_op : Option (List ℕ)

-- What the store uses of JSON and of the sync library.
pub record Codec : Type 0 where
  pub marshal : ℕ → Option (List ℕ)
  pub unmarshal : List ℕ → Option ℕ
  pub is_conflict : ℕ → Bool  -- op.Type() == merger.OpConflict
  pub fields : List ℕ → Option Fields
  pub new_conflict : ℕ → ℕ → ℕ → ℕ → ℕ  -- `NewConflictOperation`, for the operation whose node it takes
  pub marshal_time : ℕ → List ℕ
  pub unmarshal_time : List ℕ → Option ℕ

-- A patch as the store loads it.
pub record Loaded : Type 0 where
  pub uuid : String
  pub stamp : ℕ
  pub operations : List (Option ℕ)

-- The loop of `Load` that takes a page of the patches, from the position `i` on.
unfoldable pub page : ℕ → ℤ → ℤ → List Loaded → List Loaded
page i offset limit [] = []
page i offset limit (p ∷ ps) =
    let rest = page (i + 1) offset limit ps in
    if ltb_ℤ (pos i) offset
    then rest
    else p ∷ (if ltb_ℤ (pos i) (offset +ℤ limit +ℤ negsuc 0) then rest else [])

-- The patches beyond the first hundred, by their uuids.
unfoldable pub prunes : List Loaded → List String
prunes ps = map (λ (p : Loaded). p.uuid) (drop 100 ps)

module _ (c : Codec) where
  -- `unmarshalConflict`; `none` is an error.
  unfoldable pub unmarshal_conflict : List ℕ → ℕ → Option ℕ
  unmarshal_conflict bytes op =
      if c.is_conflict op
      then (do
        ii ← c.fields bytes
        kind ← ii.conflict_type
        left ← ii.left_op
        left_op ← c.unmarshal left
        right ← ii.right_op
        right_op ← c.unmarshal right
        some (c.new_conflict op kind left_op right_op))
      else some op

  -- The loop of `Load` over the operations of a patch. What cannot be read is passed over, but a
  -- conflict that cannot be read leaves a nil operation.
  unfoldable pub load_operations : List (List ℕ × List ℕ) → List (Option ℕ)
  load_operations [] = []
  load_operations ((_, v) ∷ vs) = elim (c.unmarshal v) [
    | none ↦ load_operations vs
    | some op ↦ unmarshal_conflict v op ∷ load_operations vs
  ]

  -- A patch of `Load`. `fresh` is the stamp that `NewPatch` gives.
  unfoldable pub load_patch : ℕ → String × Bucket → Loaded
  load_patch fresh (uuid, b) = record {
    uuid = uuid;
    stamp = elim (c.unmarshal_time b.stamp) [ none ↦ fresh | some t ↦ t ];
    operations = load_operations b.operations;
  }

  -- The walk of `persist` over the operations, with the sequence of the bucket.
  unfoldable pub store_operations : ℕ → List ℕ → List (List ℕ × List ℕ)
  store_operations seq [] = []
  store_operations seq (op ∷ ops) = elim (c.marshal op) [
    | none ↦ store_operations seq ops
    | some bytes ↦ (itob (seq + 1), bytes) ∷ store_operations (seq + 1) ops
  ]

  abbrev pub has_errors : Patch → Bool
  has_errors p = elim (p.errors) [ none ↦ false | some errs ↦ true ]

  module _ (B : Bolt) where
    -- The content of a patch is replaced as a whole.
    abbrev pub drop_old : String → B.State → B.State
    drop_old u s = if B.has_bucket u s then B.delete_bucket u s else s

    -- The calls of `opsBucket.Put`.
    abbrev pub put_all : String → List (List ℕ × List ℕ) → B.State → B.State
    put_all u [] s = s
    put_all u ((k, v) ∷ es) s = put_all u es (B.put_operation u k v s)

    -- `persist`: an empty patch without errors is not stored.
    unfoldable pub persist : Patch → B.State → B.State
    persist p s =
        if p.size == 0 && not (has_errors p)
        then s
        else put_all p.uuid (store_operations 0 p.operations) (
            B.create_operations p.uuid (
              B.put_stamp p.uuid (c.marshal_time p.stamp)
                (B.create_bucket p.uuid (drop_old p.uuid s))))

    abbrev delete_all : List String → B.State → B.State
    delete_all [] s = s
    delete_all (u ∷ us) s = delete_all us (B.delete_bucket u s)

    -- `Load`. `sort` is `sort.Sort` on the patches; the deletion runs in a goroutine of its own.
    unfoldable pub load : (List Loaded → List Loaded) → ℕ → ℤ → ℤ → B.State → List Loaded × B.State
    load sort fresh offset limit s =
        let stamps = sort (map (load_patch fresh) (B.cursor s)) in
        (page 0 offset limit stamps, delete_all (prunes stamps) s)
