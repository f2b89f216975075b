-- ===== src/Go/Order.antt =====
-- Go's `<` on texts, and sort.Slice. That sort is not stable, so what stands here puts the elements
-- with equal keys in one of the orders that the program may see.
use mathlib.Core.List.{Perm}
use mathlib.Core.List.Perm
use Prim.Native.Char.{code}
use cells_sync.Prelude.{
  ◌≡◌, refl, arith, String, Bool, true, false, List, [], ◌∷◌, map, if◌then◌else◌, ltb, Bool-cases,
  inl, inr,
}

unfoldable pub less_text : String → String → Bool
less_text s String.[] = false
less_text String.[] (String.◌∷◌ d t) = true
less_text (String.◌∷◌ c s) (String.◌∷◌ d t) =
    let rest = less_text s t in
    if ltb (code c) (code d) then true else if ltb (code d) (code c) then false else rest

less_text-asym : (s t : String) → less_text s t ≡ true → less_text t s ≡ false
unfolding less_text
less_text-asym s String.[] h = cc
less_text-asym String.[] (String.◌∷◌ d t) h = refl
less_text-asym (String.◌∷◌ c s) (String.◌∷◌ d t) h = ground (arith, h, less_text-asym s t)

module _ {A : Type 0} (key : A → String) where
  insert : A → List A → List A
  insert a [] = a ∷ []
  insert a (b ∷ bs) =
      let rest = b ∷ insert a bs in if less_text (key b) (key a) then rest else a ∷ b ∷ bs

  unfoldable pub sort_slice : List A → List A
  unfolding insert
  sort_slice [] = []
  sort_slice (a ∷ as') = insert a (sort_slice as')

  -- No element is before its predecessor.
  abbrev pub Follows : A → List A → Type 0
  Follows a [] = Unit
  Follows a (b ∷ bs) = less_text (key b) (key a) ≡ false

  abbrev pub IsOrdered : List A → Type 0
  IsOrdered [] = Unit
  IsOrdered (a ∷ as') = Follows a as' × IsOrdered as'

  Follows-insert :
      (c a : A) (bs : List A)
      → less_text (key a) (key c) ≡ false
      → Follows c bs
      → Follows c (insert a bs)
  unfolding insert
  Follows-insert c a [] h f = h
  Follows-insert c a (b ∷ bs) h f = ground (arith, h, f)

  insert-IsOrdered : (a : A) (bs : List A) → IsOrdered bs → IsOrdered (insert a bs)
  unfolding insert
  insert-IsOrdered a [] h = (tt, tt)
  insert-IsOrdered a (b ∷ bs) h = elim (Bool-cases (less_text (key b) (key a))) [
    | inl e ↦
        rw e
          (Follows-insert b a bs (less_text-asym (key b) (key a) e) h.0, insert-IsOrdered a bs h.1)
    | inr e ↦ rw e (e, h)
  ]

  pub sort_slice-IsOrdered : (as' : List A) → IsOrdered (sort_slice as')
  unfolding sort_slice
  sort_slice-IsOrdered [] = tt
  sort_slice-IsOrdered (a ∷ as') = insert-IsOrdered a (sort_slice as') (sort_slice-IsOrdered as')

module _ {A B : Type 0} (key : A → String) (f : A → B) where
  insert-Perm : (a : A) (bs : List A) → Perm (map f (a ∷ bs)) (map f (insert key a bs))
  unfolding insert
  insert-Perm a [] = Perm.refl (f a ∷ [])
  insert-Perm a (b ∷ bs) = elim (Bool-cases (less_text (key b) (key a))) [
    | inl e ↦ rw e (Perm.trans (Perm.swap _ _ _) (Perm.cons (f b) (insert-Perm a bs)))
    | inr e ↦ rw e (Perm.refl (f a ∷ f b ∷ map f bs))
  ]

  -- The sort loses nothing and adds nothing.
  pub sort_slice-Perm : (as' : List A) → Perm (map f as') (map f (sort_slice key as'))
  unfolding sort_slice
  sort_slice-Perm [] = Perm.refl []
  sort_slice-Perm (a ∷ as') =
      Perm.trans (Perm.cons (f a) (sort_slice-Perm as')) (insert-Perm a (sort_slice key as'))
