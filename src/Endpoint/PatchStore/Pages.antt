-- ===== src/Endpoint/PatchStore/Pages.antt =====
-- endpoint/patch-store.go: which patches a page of `Load` has.
use Prim.Native.Nat.{max}
use cells_sync.Prelude.{
  ℕ, zero, suc, ◌+◌, ◌-◌, ◌^◌, ◌≤◌, ◌<◌, ◌≡◌, refl, sym, ap, ◌∙◌, List, [], ◌∷◌, arith,
  if◌then◌else◌, ltb, take, drop, take_nil, drop_nil, inl, inr, Bool-cases,
}
use cells_sync.Prelude.Int.{ℤ, pos, negsuc, ltb_ℤ, ◌+ℤ◌}
use cells_sync.Endpoint.PatchStore.{Loaded, page}

sum_pos : (o l : ℕ) → o + l < 2 ^ 63 → pos o +ℤ pos l ≡ pos (o + l)
sum_pos o l h = ground arith

less_one : (n : ℕ) → n < 2 ^ 63 → pos n +ℤ negsuc 0 ≡ (if ltb 0 n then pos (n - 1) else negsuc 0)
less_one n h = ground arith

-- The test for the last patch of a page, without the arithmetic of Go's int.
more_lem :
    (i o l : ℕ) → o + l < 2 ^ 63 → ltb_ℤ (pos i) (pos o +ℤ pos l +ℤ negsuc 0) ≡ ltb (i + 1) (o + l)
more_lem i o l h = rw (sum_pos o l h, less_one (o + l) h) (ground arith)

zero_right : (n : ℕ) → n + 0 ≡ n
zero_right n = omega arith

page_lem :
    (i o l : ℕ) (p : Loaded) (ps : List Loaded)
    → o + l < 2 ^ 63
    → page i (pos o) (pos l) (p ∷ ps) ≡ (
        if ltb i o
        then page (i + 1) (pos o) (pos l) ps
        else p ∷ (if ltb (i + 1) (o + l) then page (i + 1) (pos o) (pos l) ps else []))
unfolding page
page_lem i o l p ps h = rw (more_lem i o l h, zero_right i, zero_right o) refl

page_empty : (i : ℕ) (o l : ℤ) → page i o l [] ≡ []
unfolding page
page_empty i o l = refl

take_suc : (n : ℕ) (p : Loaded) (ps : List Loaded) → 0 < n → take n (p ∷ ps) ≡ p ∷ take (n - 1) ps
take_suc zero p ps h = elim h [ ]
take_suc (suc n) p ps h = let e : suc n - 1 ≡ n = omega arith in rw e refl

page_inside :
    (i o l : ℕ) (ps : List Loaded)
    → o + l < 2 ^ 63
    → o ≤ i
    → page i (pos o) (pos l) ps ≡ take (max 1 (o + l - i)) ps
page_inside i o l [] h inside =
    page_empty i (pos o) (pos l) ∙ sym (take_nil {A = Loaded} (max 1 (o + l - i)))
page_inside i o l (p ∷ ps) h inside =
    page_lem i o l p ps h
    ∙ ground (
      arith,
      page_inside (i + 1) o l ps h (omega arith),
      take_suc (max 1 (o + l - i)) p ps (omega arith),
    )

page_before :
    (i o l : ℕ) (ps : List Loaded)
    → o + l < 2 ^ 63
    → i ≤ o
    → page i (pos o) (pos l) ps ≡ take (max 1 l) (drop (o - i) ps)
page_before i o l [] h before =
    page_empty i (pos o) (pos l)
    ∙ sym (rw (drop_nil {A = Loaded} (o - i)) (take_nil {A = Loaded} (max 1 l)))
page_before i o l (p ∷ ps) h before = elim (Bool-cases (ltb i o)) [
  | inl skip ↦
      let e : o - i ≡ suc (o - (i + 1)) = ground (arith, skip) in
      page_lem i o l p ps h ∙ rw (skip, e) (page_before (i + 1) o l ps h (ground (arith, skip)))
  | inr here ↦
      let e : o - i ≡ 0 = ground (arith, here) in
      let q : o + l - i ≡ l = ground (arith, here) in
      rw e (rw q at (page_inside i o l (p ∷ ps) h (ground (arith, here))))
]

-- From a position and for a number of patches that are not negative and whose sum is in Go's int,
-- the loop of `Load` gives as many patches from that position on, in their order, or as many as
-- there are; but if it is asked for none, it gives one.
pub page-take :
    (offset limit : ℕ) (ps : List Loaded)
    → offset + limit < 2 ^ 63
    → page 0 (pos offset) (pos limit) ps ≡ take (max 1 limit) (drop offset ps)
page-take offset limit ps h =
    let e : offset - 0 ≡ offset = omega arith in
    page_before 0 offset limit ps h (omega arith) ∙ ap (λ n. take (max 1 limit) (drop n ps)) e
