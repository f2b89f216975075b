-- ===== src/Endpoint/PatchStore/Restoring.antt =====
-- endpoint/patch-store.go: what `Load` reads of a patch that `persist` has stored.
use mathlib.Core.List.{append-nil, append_assoc}
use cells_sync.Prelude.{
  true, ◌<◌, ◌^◌, ◌++◌, length, sym, ap, ◌∙◌, ℕ, ◌+◌, ◌≡◌, ◌≢◌, refl, ap₂, String, false, not, ◌&&◌,
  Option, none, some, List, [], ◌∷◌, map, arith, if◌then◌else◌, ◌==◌, nat_eq, string_eq, All, ◌⊎◌,
  inl, inr, Bool-cases,
}
use cells_sync.Endpoint.Patch.{Patch}
use cells_sync.Endpoint.PatchStore.{
  Bucket, Bolt, Codec, Loaded, unmarshal_conflict, load_operations, load_patch, store_operations,
  has_errors, drop_old, put_all, persist,
}
use cells_sync.Endpoint.PatchStore.Keys.{less_bytes, IsOrdered, store_operations-IsOrdered}

-- The bucket of a key.
abbrev pub bucket_of : String → List (String × Bucket) → Option Bucket
bucket_of u [] = none
bucket_of u ((k, b) ∷ bs) = if k == u then some b else bucket_of u bs

-- The bytes of a conflict have the type and both operations, and these make the conflict again.
pub record IsConflictOf (c : Codec) (bytes : List ℕ) (op : ℕ) : Type 0 where
  pub kind : ℕ
  pub left : ℕ
  pub right : ℕ
  pub left_bytes : List ℕ
  pub right_bytes : List ℕ
  pub read :
      c.fields bytes
      ≡ some (record {
        conflict_type = some kind;
        left_op = some left_bytes;
        right_op = some right_bytes;
      })
  pub left_read : c.unmarshal left_bytes ≡ some left
  pub right_read : c.unmarshal right_bytes ≡ some right
  pub made : c.new_conflict op kind left right ≡ op

-- JSON reads back an operation that it has written.
pub record IsReadable (c : Codec) (op : ℕ) : Type 0 where
  pub bytes : List ℕ
  pub written : c.marshal op ≡ some bytes
  pub read : c.unmarshal bytes ≡ some op
  pub conflict : (c.is_conflict op ≡ false) ⊎ IsConflictOf c bytes op

-- A bucket that was created and not filled.
abbrev pub new_bucket : Bucket
new_bucket = record { stamp = []; operations = [] }

-- A call on the bucket of one key leaves the others.
abbrev pub IsLocal : (B : Bolt) → String → (B.State → B.State) → Type 0
IsLocal B u f =
    (v : String) (s : B.State) → u ≢ v → bucket_of v (B.cursor (f s)) ≡ bucket_of v (B.cursor s)

-- The laws of the database that the store needs. A cursor lists the operations in the order of their
-- keys: the law is on a key that comes after those that are there.
pub record IsLawful (B : Bolt) : Type 0 where
  pub absent :
      (u : String) (s : B.State) → B.has_bucket u s ≡ false → bucket_of u (B.cursor s) ≡ none
  pub deleted : (u : String) (s : B.State) → bucket_of u (B.cursor (B.delete_bucket u s)) ≡ none
  pub created :
      (u : String) (s : B.State)
      → bucket_of u (B.cursor s) ≡ none
      → bucket_of u (B.cursor (B.create_bucket u s)) ≡ some new_bucket
  pub stamped :
      (u : String) (t : List ℕ) (s : B.State) (b : Bucket)
      → bucket_of u (B.cursor s) ≡ some b
      → bucket_of u (B.cursor (B.put_stamp u t s)) ≡ some (record b { stamp = t })
  pub opened :
      (u : String) (s : B.State) (b : Bucket)
      → bucket_of u (B.cursor s) ≡ some b
      → bucket_of u (B.cursor (B.create_operations u s)) ≡ some (record b { operations = [] })
  pub put :
      (u : String) (k v : List ℕ) (s : B.State) (b : Bucket)
      → bucket_of u (B.cursor s) ≡ some b
      → All (λ (e : List ℕ × List ℕ). less_bytes e.0 k ≡ true) b.operations
      → bucket_of u (B.cursor (B.put_operation u k v s))
        ≡ some (record b { operations = b.operations ++ ((k, v) ∷ []) })
  pub delete-IsLocal : (u : String) → IsLocal B u (B.delete_bucket u)
  pub create-IsLocal : (u : String) → IsLocal B u (B.create_bucket u)
  pub stamp-IsLocal : (u : String) (t : List ℕ) → IsLocal B u (B.put_stamp u t)
  pub open-IsLocal : (u : String) → IsLocal B u (B.create_operations u)
  pub put-IsLocal : (u : String) (k v : List ℕ) → IsLocal B u (B.put_operation u k v)

-- What stands before a key in a list that is ordered comes before it.
All-there :
    (k : List ℕ) (es : List (List ℕ × List ℕ)) (x : List ℕ × List ℕ) (fs : List (List ℕ × List ℕ))
    → All (λ (e : List ℕ × List ℕ). less_bytes k e.0 ≡ true) (es ++ (x ∷ fs))
    → less_bytes k x.0 ≡ true
All-there k [] x fs h = h.0
All-there k (e ∷ es) x fs h = All-there k es x fs h.1

All-before :
    (es fs : List (List ℕ × List ℕ)) (k v : List ℕ)
    → IsOrdered (es ++ ((k, v) ∷ fs))
    → All (λ (e : List ℕ × List ℕ). less_bytes e.0 k ≡ true) es
All-before [] fs k v h = tt
All-before (e ∷ es) fs k v h = (All-there e.0 es (k, v) fs h.0, All-before es fs k v h.1)

module _ (c : Codec) where
  unmarshal_conflict_lem :
      (bytes : List ℕ) (op : ℕ)
      → (c.is_conflict op ≡ false) ⊎ IsConflictOf c bytes op
      → unmarshal_conflict c bytes op ≡ some op
  unfolding unmarshal_conflict
  unmarshal_conflict_lem bytes op (inl plain) = rw plain refl
  unmarshal_conflict_lem bytes op (inr k) =
      rw (k.read, k.left_read, k.right_read, k.made) (ground arith)

  load_operations-store :
      (seq : ℕ) (ops : List ℕ)
      → All (IsReadable c) ops
      → load_operations c (store_operations c seq ops) ≡ map (λ op. some op) ops
  unfolding load_operations store_operations
  load_operations-store seq [] h = refl
  load_operations-store seq (op ∷ ops) (r, h) =
      rw (r.written, store_operations)
        (rw (r.read, load_operations)
          (ap₂ (λ x xs. x ∷ xs) (unmarshal_conflict_lem r.bytes op r.conflict)
            (load_operations-store (seq + 1) ops h)))

  -- A patch as it should come back.
  abbrev pub restored : Patch → Loaded
  restored p = record {
    uuid = p.uuid;
    stamp = p.stamp;
    operations = map (λ op. some op) p.operations;
  }

  module _ (B : Bolt) (L : IsLawful B) where
    drop_old-none : (u : String) (s : B.State) → bucket_of u (B.cursor (drop_old c B u s)) ≡ none
    drop_old-none u s = elim (Bool-cases (B.has_bucket u s)) [
      | inl e ↦ rw e (L.deleted u s)
      | inr e ↦ rw e (L.absent u s e)
    ]

    drop_old-IsLocal : (u : String) → IsLocal B u (drop_old c B u)
    drop_old-IsLocal u v s differ = elim (Bool-cases (B.has_bucket u s)) [
      | inl e ↦ rw e (L.delete-IsLocal u v s differ)
      | inr e ↦ rw e refl
    ]

    put_all_lem :
        (u : String) (es : List (List ℕ × List ℕ)) (s : B.State) (b : Bucket)
        → bucket_of u (B.cursor s) ≡ some b
        → IsOrdered (b.operations ++ es)
        → bucket_of u (B.cursor (put_all c B u es s))
          ≡ some (record b { operations = b.operations ++ es })
    put_all_lem u [] s b h o =
        h ∙ ap (λ es. some (record b { operations = es })) (sym (append-nil _))
    put_all_lem u ((k, v) ∷ es) s b h o =
        let b' = record b { operations = b.operations ++ ((k, v) ∷ []) } in
        let same = append_assoc b.operations ((k, v) ∷ []) es in
        put_all_lem u es (B.put_operation u k v s) b'
          (L.put u k v s b h (All-before b.operations es k v o)) (rw same o)
        ∙ ap (λ es. some (record b { operations = es })) same

    put_all-IsLocal : (u : String) (es : List (List ℕ × List ℕ)) → IsLocal B u (put_all c B u es)
    put_all-IsLocal u [] v s differ = refl
    put_all-IsLocal u ((k, w) ∷ es) v s differ =
        put_all-IsLocal u es v (B.put_operation u k w s) differ ∙ L.put-IsLocal u k w v s differ

    abbrev filled : String → List ℕ → List (List ℕ × List ℕ) → B.State → B.State
    filled u t es s =
        put_all c B u es
          (B.create_operations u (B.put_stamp u t (B.create_bucket u (drop_old c B u s))))

    filled_lem :
        (u : String) (t : List ℕ) (es : List (List ℕ × List ℕ)) (s : B.State)
        → IsOrdered es
        → bucket_of u (B.cursor (filled u t es s)) ≡ some (record { stamp = t; operations = es })
    filled_lem u t es s o =
        put_all_lem u es _ (record { stamp = t; operations = [] })
          (L.opened u _ _ (L.stamped u t _ new_bucket (L.created u _ (drop_old-none u s)))) o

    filled-IsLocal :
        (u : String) (t : List ℕ) (es : List (List ℕ × List ℕ)) → IsLocal B u (filled u t es)
    filled-IsLocal u t es v s differ =
        put_all-IsLocal u es v _ differ
        ∙ L.open-IsLocal u v _ differ
        ∙ L.stamp-IsLocal u t v _ differ
        ∙ L.create-IsLocal u v _ differ
        ∙ drop_old-IsLocal u v s differ

    -- Store a patch that has operations or errors, whose operations and stamp JSON reads back, and which has
    -- less than 2 ^ 64 operations: the patch that is then loaded for its key has its uuid, stamp and
    -- operations, in their order, whatever was stored under that key before. The patches under other
    -- keys are as they were. A patch without operations and errors changes nothing.
    pub load_patch-persist :
        (fresh : ℕ) (p : Patch) (s : B.State) (other : String)
        → All (IsReadable c) p.operations
        → length p.operations < 2 ^ 64
        → c.unmarshal_time (c.marshal_time p.stamp) ≡ some p.stamp
        → p.uuid ≢ other
        → if p.size == 0 && not (has_errors c p)
          then persist c B p s ≡ s
          else (b : Bucket) × (bucket_of p.uuid (B.cursor (persist c B p s)) ≡ some b)
            × (load_patch c fresh (p.uuid, b) ≡ restored p)
            × (bucket_of other (B.cursor (persist c B p s)) ≡ bucket_of other (B.cursor s))
    unfolding persist load_patch
    load_patch-persist fresh p s other h few time differ =
        elim (Bool-cases (p.size == 0 && not (has_errors c p))) [
          | inl empty ↦ rw empty refl
          | inr full ↦ rw full (
            _,
            filled_lem p.uuid _ _ s (store_operations-IsOrdered c 0 p.operations (omega arith)),
            rw (load_operations-store 0 p.operations h, time) refl,
            filled-IsLocal p.uuid (c.marshal_time p.stamp) (store_operations c 0 p.operations) other
                s differ,
          )
        ]
