-- ===== src/Examples/Databases.antt =====
-- A database and a sort that keep the laws which the patch store asks for.
use cells_sync.Prelude.{
  Bool, true, false, none, some, sym, ap, ◌∙◌, ◌++◌, ℕ, ◌≤◌, ◌≡◌, ◌≢◌, refl, String, List, [], ◌∷◌,
  arith, if◌then◌else◌, ◌==◌, string_eq, eq_iff, ltb, All, Bool-cases, inl, inr,
}
use cells_sync.Endpoint.PatchStore.{Bucket, Bolt, Loaded}
use cells_sync.Endpoint.PatchStore.Restoring.{bucket_of, new_bucket, IsLocal, IsLawful}
use cells_sync.Endpoint.PatchStore.Pruning.{count, keys, uuids, IsLatestFirst, IsSort, CanDelete}

abbrev Entries : Type 0
Entries = List (String × Bucket)

abbrev without : String → Entries → Entries
without u [] = []
without u ((k, b) ∷ bs) = let rest = without u bs in if k == u then rest else (k, b) ∷ rest

-- The first entry of each key.
abbrev firsts : Entries → Entries
firsts [] = []
firsts ((k, b) ∷ bs) = (k, b) ∷ without k (firsts bs)

abbrev held : String → Entries → Bool
held u [] = false
held u ((k, b) ∷ bs) = if k == u then true else held u bs

-- The first bucket of a key is changed.
abbrev changed : (Bucket → Bucket) → String → Entries → Entries
changed f u [] = []
changed f u ((k, b) ∷ bs) =
    let rest = changed f u bs in if k == u then (k, f b) ∷ bs else (k, b) ∷ rest

-- Enough for keys that come in their order.
abbrev appended : List ℕ → List ℕ → Bucket → Bucket
appended k v b = record b { operations = b.operations ++ ((k, v) ∷ []) }

abbrev pub bolt : Bolt
bolt = record {
  State = Entries;
  cursor = firsts;
  has_bucket = held;
  delete_bucket = without;
  create_bucket = λ u s. (u, new_bucket) ∷ s;
  put_stamp = λ u t s. changed (λ b. record b { stamp = t }) u s;
  create_operations = λ u s. changed (λ b. record b { operations = [] }) u s;
  put_operation = λ u k v s. changed (appended k v) u s;
}

count-without :
    (u v : String) (bs : Entries)
    → count u (keys (without v bs)) ≡ (if v == u then 0 else count u (keys bs))
count-without u v [] = ground arith
count-without u v ((k, b) ∷ bs) =
    ground (arith, count-without u v bs, eq_iff k v, eq_iff v u, eq_iff k u)

count-firsts : (u : String) (bs : Entries) → count u (keys (firsts bs)) ≤ 1
count-firsts u [] = omega arith
count-firsts u ((k, b) ∷ bs) = ground (arith, count-without u k (firsts bs), count-firsts u bs)

count-firsts-without :
    (u v : String) (bs : Entries)
    → count u (keys (firsts (without v bs))) ≡ (if v == u then 0 else count u (keys (firsts bs)))
count-firsts-without u v [] = ground arith
count-firsts-without u v ((k, b) ∷ bs) = ground (
  arith,
  count-firsts-without u v bs,
  count-without u k (firsts bs),
  count-without u k (firsts (without v bs)),
  eq_iff k v,
  eq_iff v u,
  eq_iff k u,
)

bucket_of-without :
    (u v : String) (bs : Entries) → u ≢ v → bucket_of v (without u bs) ≡ bucket_of v bs
bucket_of-without u v [] differ = refl
bucket_of-without u v ((k, b) ∷ bs) differ =
    ground (arith, bucket_of-without u v bs differ, eq_iff k u, eq_iff k v)

bucket_of-firsts : (u : String) (bs : Entries) → bucket_of u (firsts bs) ≡ bucket_of u bs
bucket_of-firsts u [] = refl
bucket_of-firsts u ((k, b) ∷ bs) = elim (Bool-cases (k == u)) [
  | inl e ↦ rw e refl
  | inr e ↦ rw e (
      bucket_of-without k u (firsts bs) (λ q. ground (arith, e, eq_iff k u, q))
      ∙ bucket_of-firsts u bs)
]

bucket_of-changed :
    (f : Bucket → Bucket) (u : String) (bs : Entries) (b : Bucket)
    → bucket_of u bs ≡ some b
    → bucket_of u (changed f u bs) ≡ some (f b)
bucket_of-changed f u [] b h = cc
bucket_of-changed f u ((k, c) ∷ bs) b h = elim (Bool-cases (k == u)) [
  | inl e ↦ let same : c ≡ b = ground (arith, e, h) in rw e (rw e (ap (λ x. some (f x)) same))
  | inr e ↦ rw e (rw e (bucket_of-changed f u bs b (ground (arith, e, h))))
]

bucket_of-changed_ne :
    (f : Bucket → Bucket) (u v : String) (bs : Entries)
    → u ≢ v
    → bucket_of v (changed f u bs) ≡ bucket_of v bs
bucket_of-changed_ne f u v [] differ = refl
bucket_of-changed_ne f u v ((k, b) ∷ bs) differ =
    ground (arith, bucket_of-changed_ne f u v bs differ, eq_iff k u, eq_iff k v)

bucket_of-without_self : (u : String) (bs : Entries) → bucket_of u (without u bs) ≡ none
bucket_of-without_self u [] = refl
bucket_of-without_self u ((k, b) ∷ bs) = ground (arith, bucket_of-without_self u bs)

held-none : (u : String) (bs : Entries) → held u bs ≡ false → bucket_of u bs ≡ none
held-none u [] h = refl
held-none u ((k, b) ∷ bs) h = ground (arith, h, held-none u bs)

changed_lem :
    (f : Bucket → Bucket) (u : String) (s : Entries) (b : Bucket)
    → bucket_of u (firsts s) ≡ some b
    → bucket_of u (firsts (changed f u s)) ≡ some (f b)
changed_lem f u s b h =
    bucket_of-firsts u (changed f u s) ∙ bucket_of-changed f u s b (sym (bucket_of-firsts u s) ∙ h)

-- Calls that leave the entries of other keys.
local :
    (f : Entries → Entries) (u : String)
    → ((v : String) (s : Entries) → u ≢ v → bucket_of v (f s) ≡ bucket_of v s)
    → IsLocal bolt u f
local f u h v s differ = bucket_of-firsts v (f s) ∙ h v s differ ∙ sym (bucket_of-firsts v s)

changed-IsLocal : (f : Bucket → Bucket) (u : String) → IsLocal bolt u (changed f u)
changed-IsLocal f u = local (changed f u) u (λ v s differ. bucket_of-changed_ne f u v s differ)

pub bolt-IsLawful : IsLawful bolt
bolt-IsLawful = record {
  absent = λ u s h. bucket_of-firsts u s ∙ held-none u s h;
  deleted = λ u s. bucket_of-firsts u (without u s) ∙ bucket_of-without_self u s;
  created = λ u s h. ground (arith, eq_iff u u);
  stamped = λ u t s b h. changed_lem (λ b. record b { stamp = t }) u s b h;
  opened = λ u s b h. changed_lem (λ b. record b { operations = [] }) u s b h;
  put = λ u k v s b h o. changed_lem (appended k v) u s b h;
  delete-IsLocal = λ u. local (without u) u (λ v s differ. bucket_of-without u v s differ);
  create-IsLocal =
      λ u. local (λ s. (u, new_bucket) ∷ s) u (λ v s differ. ground (arith, eq_iff u v, differ));
  stamp-IsLocal = λ u t. changed-IsLocal (λ b. record b { stamp = t }) u;
  open-IsLocal = λ u. changed-IsLocal (λ b. record b { operations = [] }) u;
  put-IsLocal = λ u k v. changed-IsLocal (appended k v) u;
}

pub bolt-CanDelete : CanDelete bolt
bolt-CanDelete = record { keys_distinct = count-firsts; count-delete = count-firsts-without }

abbrev insert : Loaded → List Loaded → List Loaded
insert p [] = p ∷ []
insert p (q ∷ qs) = let rest = insert p qs in if ltb p.stamp q.stamp then q ∷ rest else p ∷ q ∷ qs

abbrev pub sort : List Loaded → List Loaded
sort [] = []
sort (p ∷ ps) = insert p (sort ps)

count-insert :
    (u : String) (p : Loaded) (ps : List Loaded)
    → count u (uuids (insert p ps)) ≡ count u (uuids (p ∷ ps))
count-insert u p [] = refl
count-insert u p (q ∷ qs) = ground (arith, count-insert u p qs)

count-sort : (u : String) (ps : List Loaded) → count u (uuids (sort ps)) ≡ count u (uuids ps)
count-sort u [] = refl
count-sort u (p ∷ ps) = ground (arith, count-insert u p (sort ps), count-sort u ps)

abbrev AreBelow : ℕ → List Loaded → Type 0
AreBelow n ps = All (λ (q : Loaded). q.stamp ≤ n) ps

below_trans : (m n : ℕ) (ps : List Loaded) → m ≤ n → AreBelow m ps → AreBelow n ps
below_trans m n [] le h = tt
below_trans m n (p ∷ ps) le h = (omega (arith, h.0), below_trans m n ps le h.1)

insert-AreBelow :
    (n : ℕ) (p : Loaded) (ps : List Loaded) → p.stamp ≤ n → AreBelow n ps → AreBelow n (insert p ps)
insert-AreBelow n p [] le h = (le, tt)
insert-AreBelow n p (q ∷ qs) le h = elim (Bool-cases (ltb p.stamp q.stamp)) [
  | inl e ↦ rw (e, insert) (h.0, insert-AreBelow n p qs le h.1)
  | inr e ↦ rw (e, insert) (le, h)
]

insert-IsLatestFirst :
    (p : Loaded) (ps : List Loaded) → IsLatestFirst ps → IsLatestFirst (insert p ps)
insert-IsLatestFirst p [] h = (tt, tt)
insert-IsLatestFirst p (q ∷ qs) h = elim (Bool-cases (ltb p.stamp q.stamp)) [
  | inl e ↦
      rw (e, insert)
        (insert-AreBelow q.stamp p qs (ground (arith, e)) h.0, insert-IsLatestFirst p qs h.1)
  | inr e ↦
      let le : q.stamp ≤ p.stamp = ground (arith, e) in
      rw (e, insert) ((le, below_trans q.stamp p.stamp qs le h.0), h)
]

sort-IsLatestFirst : (ps : List Loaded) → IsLatestFirst (sort ps)
sort-IsLatestFirst [] = tt
sort-IsLatestFirst (p ∷ ps) = insert-IsLatestFirst p (sort ps) (sort-IsLatestFirst ps)

pub sort-IsSort : IsSort sort
sort-IsSort = record { count-sort = count-sort; sort-IsLatestFirst = sort-IsLatestFirst }
