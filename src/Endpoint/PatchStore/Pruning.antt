-- ===== src/Endpoint/PatchStore/Pruning.antt =====
-- endpoint/patch-store.go: which patches stay in the store after `Load`.
use cells_sync.Prelude.{
  ℕ, zero, suc, ◌+◌, ◌≤◌, ◌≡◌, refl, sym, ap, ◌∙◌, String, List, [], ◌∷◌, map, arith, if◌then◌else◌,
  ◌==◌, string_eq, take, drop, All, ltb,
}
use cells_sync.Prelude.Int.{ℤ}
use cells_sync.Endpoint.PatchStore.{
  Bucket, Bolt, Codec, Loaded, prunes, load_patch, delete_all, load,
}

-- How often a uuid is in a list.
abbrev pub count : String → List String → ℕ
count u [] = 0
count u (v ∷ vs) = let rest = count u vs in if v == u then suc rest else rest

abbrev pub keys : List (String × Bucket) → List String
keys [] = []
keys ((k, _) ∷ bs) = k ∷ keys bs

abbrev pub uuids : List Loaded → List String
uuids ps = map (λ (p : Loaded). p.uuid) ps

-- The latest patches come first.
abbrev pub IsLatestFirst : List Loaded → Type 0
IsLatestFirst [] = Unit
IsLatestFirst (p ∷ ps) = All (λ (q : Loaded). q.stamp ≤ p.stamp) ps × IsLatestFirst ps

-- `sort.Sort` with the order of `patchSorter`: it keeps the patches, and puts the latest ones first.
pub record IsSort (sort : List Loaded → List Loaded) : Type 0 where
  pub count-sort : (u : String) (ps : List Loaded) → count u (uuids (sort ps)) ≡ count u (uuids ps)
  pub sort-IsLatestFirst : (ps : List Loaded) → IsLatestFirst (sort ps)

-- The keys of a database are distinct, and a bucket that is deleted is gone, while the others stay.
pub record CanDelete (B : Bolt) : Type 0 where
  pub keys_distinct : (u : String) (s : B.State) → count u (keys (B.cursor s)) ≤ 1
  pub count-delete :
      (u v : String) (s : B.State)
      → count u (keys (B.cursor (B.delete_bucket v s)))
        ≡ (if v == u then 0 else count u (keys (B.cursor s)))

count-take-drop :
    (n : ℕ) (u : String) (ps : List Loaded)
    → count u (uuids ps) ≡ count u (uuids (take n ps)) + count u (uuids (drop n ps))
count-take-drop zero u ps = omega arith
count-take-drop (suc n) u [] = refl
count-take-drop (suc n) u (p ∷ ps) = ground (arith, count-take-drop n u ps)

All-drop : (P : Loaded → Type 0) (n : ℕ) (ps : List Loaded) → All P ps → All P (drop n ps)
All-drop P zero ps h = h
All-drop P (suc n) [] h = h
All-drop P (suc n) (p ∷ ps) h = All-drop P n ps h.1

-- No patch beyond a position is later than one before it.
abbrev pub AreLatest : List Loaded → List Loaded → Type 0
AreLatest kept pruned = All (λ (a : Loaded). All (λ (b : Loaded). b.stamp ≤ a.stamp) pruned) kept

take-AreLatest : (n : ℕ) (ps : List Loaded) → IsLatestFirst ps → AreLatest (take n ps) (drop n ps)
take-AreLatest zero ps h = tt
take-AreLatest (suc n) [] h = tt
take-AreLatest (suc n) (p ∷ ps) h = (All-drop _ n ps h.0, take-AreLatest n ps h.1)

-- What is not deleted is kept, when all is there once.
kept_count :
    {before kept after : ℕ} (pruned : ℕ)
    → before ≡ kept + pruned
    → before ≤ 1
    → after ≡ (if ltb 0 pruned then 0 else before)
    → after ≡ kept
kept_count pruned sum once rest = ground arith

module _ (c : Codec) where
  uuids-load_patch :
      (fresh : ℕ) (bs : List (String × Bucket)) → uuids (map (load_patch c fresh) bs) ≡ keys bs
  unfolding load_patch
  uuids-load_patch fresh [] = refl
  uuids-load_patch fresh ((k, b) ∷ bs) = ap (λ ks. k ∷ ks) (uuids-load_patch fresh bs)

  module _ (B : Bolt) (L : CanDelete B) where
    count-delete_all :
        (u : String) (vs : List String) (s : B.State)
        → count u (keys (B.cursor (delete_all c B vs s)))
          ≡ (if ltb 0 (count u vs) then 0 else count u (keys (B.cursor s)))
    count-delete_all u [] s = refl
    count-delete_all u (v ∷ vs) s =
        ground (arith, count-delete_all u vs (B.delete_bucket v s), L.count-delete u v s)

    -- After `Load` and the deletion that it starts, the store has exactly the first hundred patches
    -- in the order of the sort, each once, whatever page was asked for; and none of the patches that
    -- were deleted is later than one that stays.
    pub load-prunes :
        (sort : List Loaded → List Loaded) (fresh : ℕ) (offset limit : ℤ) (s : B.State)
        → IsSort sort
        → let stamps = sort (map (load_patch c fresh) (B.cursor s)) in
          ((u : String)
            → count u (keys (B.cursor (load c B sort fresh offset limit s).1))
              ≡ count u (uuids (take 100 stamps)))
          × AreLatest (take 100 stamps) (drop 100 stamps)
    unfolding load prunes
    load-prunes sort fresh offset limit s S =
        let stamps = sort (map (load_patch c fresh) (B.cursor s)) in
        (
          λ u.
              let before : count u (uuids stamps) ≡ count u (keys (B.cursor s)) =
                S.count-sort u _ ∙ ap (count u) (uuids-load_patch fresh (B.cursor s)) in
              kept_count _ (sym before ∙ count-take-drop 100 u stamps) (L.keys_distinct u s)
                (count-delete_all u (prunes stamps) s),
          take-AreLatest 100 stamps (S.sort-IsLatestFirst _),
        )
