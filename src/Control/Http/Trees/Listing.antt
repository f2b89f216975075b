-- ===== src/Control/Http/Trees/Listing.antt =====
-- control/http-handler-tree.go: what a listing shows.
use cells_sync.Prelude.{
  ℕ, ◌≡◌, refl, String, Bool, true, ◌&&◌, not, List, [], ◌∷◌, ◌⊎◌, inl, inr, arith,
}
use cells_sync.Control.Http.Trees.{Node, children, fixed, is_dotted}

-- No node of the list has a dotted last element.
unfoldable all_visible : List Node → Bool
all_visible [] = true
all_visible (n ∷ ns) = not (is_dotted n.path) && all_visible ns

module _ (join : List ℕ → List ℕ → List ℕ) (hidden : List ℕ → Bool) (c : ℕ) (d : List ℕ) where
  fixed-path : (n : Node) → (fixed join hidden n).path ≡ n.path
  fixed-path n = ground arith

  -- On a drive, where a node shows the path that is tested, no child of a listing has a dotted name.
  children-all_visible :
      (xs : List (List ℕ × (String ⊎ Node))) → all_visible (children join hidden (c ∷ d) xs) ≡ true
  unfolding all_visible children
  children-all_visible [] = refl
  children-all_visible ((p, inl e) ∷ xs) = children-all_visible xs
  children-all_visible ((p, inr n) ∷ xs) =
      ground (arith, children-all_visible xs, fixed-path (record n { path = join (c ∷ d) p }))
