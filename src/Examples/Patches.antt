-- ===== src/Examples/Patches.antt =====
-- The theorems on the patch store at a concrete database and codec.
use cells_sync.Prelude.{
  ◌≡◌, ◌≤◌, ◌++◌, length, refl, String, true, none, some, List, [], ◌∷◌, arith, map, take, drop,
  ◌==◌, nat_eq, string_eq, inl, inr, eq_iff, All,
}
use cells_sync.Prelude.Int.{pos}
use cells_sync.Endpoint.PatchStore.{Bucket, Codec, Loaded, itob, load_patch, persist, load}
use cells_sync.Endpoint.PatchStore.Restoring.{bucket_of, IsReadable, restored, load_patch-persist}
use cells_sync.Endpoint.PatchStore.Pruning.{count, keys, uuids, AreLatest, load-prunes}
use cells_sync.Endpoint.Patch.{Patch}
use cells_sync.Endpoint.PatchStore.Queue.{
  QueueEvent, stores, persists, stops, Queue, new_patch_store, queue_step, queue_steps, persist_all,
  accepted, queue_steps-IsPrefix,
}
use cells_sync.Examples.Values.{bad_patch}
use cells_sync.Examples.Databases.{bolt, bolt-IsLawful, bolt-CanDelete, sort, sort-IsSort}

-- Operations are their own bytes; the operation 2 is a conflict between the operations 7 and 8.
abbrev codec : Codec
codec = record {
  marshal = λ op. some (op ∷ []);
  unmarshal = λ bytes. elim bytes [ [] ↦ none | op ∷ ops ↦ some op ];
  is_conflict = λ op. op == 2;
  fields = λ bytes.
      some (record { conflict_type = some 1; left_op = some (7 ∷ []); right_op = some (8 ∷ []) });
  new_conflict = λ op kind l r. 2;
  marshal_time = λ t. t ∷ [];
  unmarshal_time = λ bytes. elim bytes [ [] ↦ none | t ∷ ts ↦ some t ];
}

abbrev pub two_patches : List Loaded
two_patches =
    (record { uuid = "a"; stamp = 9; operations = [] })
    ∷ (record { uuid = "b"; stamp = 4; operations = some 1 ∷ [] })
    ∷ []

readable : All (IsReadable codec) (1 ∷ 2 ∷ [])
readable = (
  record { bytes = 1 ∷ []; written = refl; read = refl; conflict = inl refl },
  (
    record {
      bytes = 2 ∷ [];
      written = refl;
      read = refl;
      conflict = inr (record {
        kind = 1;
        left = 7;
        right = 8;
        left_bytes = 7 ∷ [];
        right_bytes = 8 ∷ [];
        read = refl;
        left_read = refl;
        right_read = refl;
        made = refl;
      });
    },
    tt,
  ),
)

load_patch-persist_example :
    (b : Bucket) × (bucket_of "p1" (bolt.cursor (persist codec bolt bad_patch [])) ≡ some b)
    × (load_patch codec 0 ("p1", b) ≡ restored codec bad_patch)
    × (bucket_of "p2" (bolt.cursor (persist codec bolt bad_patch [])) ≡ none)
load_patch-persist_example =
    load_patch-persist codec bolt bolt-IsLawful 0 bad_patch [] "p2" readable (omega arith) refl
      (ground (arith, eq_iff "p1" "p2"))

abbrev stored : List (String × Bucket)
stored =
    ("a", record { stamp = 4 ∷ []; operations = [] })
    ∷ ("b", record { stamp = 9 ∷ []; operations = (itob 1, 5 ∷ []) ∷ [] })
    ∷ []

load-prunes_example :
    let stamps = sort (map (load_patch codec 0) (bolt.cursor stored)) in
    ((u : String)
      → count u (keys (bolt.cursor (load codec bolt sort 0 (pos 0) (pos 1) stored).1))
        ≡ count u (uuids (take 100 stamps)))
    × AreLatest (take 100 stamps) (drop 100 stamps)
load-prunes_example =
    load-prunes codec bolt bolt-CanDelete sort 0 (pos 0) (pos 1) stored sort-IsSort

-- The second patch is taken and not written when the store is stopped.
abbrev life : List QueueEvent
life =
    stores bad_patch ∷ persists ∷ stores (record bad_patch { uuid = "p3" }) ∷ stops ∷ persists ∷ []

abbrev after_life : Queue codec bolt
after_life = record { in_hand = none; db = persist codec bolt bad_patch []; stopped = true }

lives : queue_steps codec bolt life (new_patch_store codec bolt []) ≡ some after_life
unfolding queue_steps queue_step new_patch_store
lives = refl

queue_steps-IsPrefix_example :
    (ps lost : List Patch) × (after_life.db ≡ persist_all codec bolt ps [])
    × (accepted codec bolt life ≡ ps ++ lost)
    × (length lost ≤ 1)
queue_steps-IsPrefix_example = queue_steps-IsPrefix codec bolt life [] after_life lives
