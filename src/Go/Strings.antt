-- ===== src/Go/Strings.antt =====
-- Go's strings.Split with a separator that is not empty, and strings.Join, over bytes.
use cells_sync.Prelude.{
  ℕ, zero, suc, ◌-◌, ◌≢◌, Bool, true, false, List, [], ◌∷◌, ◌++◌, ◌==◌, nat_eq, if◌then◌else◌,
  length,
}

-- Does the first text stand at the start of the second one?
unfoldable pub begins : List ℕ → List ℕ → Bool
begins [] s = true
begins (c ∷ p) [] = false
begins (c ∷ p) (d ∷ s) = let rest = begins p s in if c == d then rest else false

abbrev pub add_byte : ℕ → List (List ℕ) → List (List ℕ)
add_byte c [] = []
add_byte c (p ∷ ps) = (c ∷ p) ∷ ps

-- The pieces of a text, the first `k` bytes of which belong to a separator that was found.
unfoldable pub split_from : List ℕ → ℕ → List ℕ → List (List ℕ)
unfolding begins
split_from sep k [] = [] ∷ []
split_from sep (suc k) (c ∷ s) = split_from sep k s
split_from sep zero (c ∷ s) =
    let cut = [] ∷ split_from sep (length sep - 1) s in
    let more = add_byte c (split_from sep 0 s) in if begins sep (c ∷ s) then cut else more

-- `strings.Split`
unfoldable pub split : List ℕ → List ℕ → List (List ℕ)
unfolding split_from
split s sep = split_from sep 0 s

-- `strings.Join`
unfoldable pub join : List (List ℕ) → List ℕ → List ℕ
join [] sep = []
join (p ∷ []) sep = p
join (p ∷ q ∷ ps) sep = p ++ (sep ++ join (q ∷ ps) sep)

-- A byte that a text does not hold.
abbrev pub Lacks : ℕ → List ℕ → Type 0
Lacks b [] = Unit
Lacks b (c ∷ cs) = (c ≢ b) × Lacks b cs

-- `strings.TrimLeft(s, "/")` and its like, for one byte.
unfoldable pub trim_left : ℕ → List ℕ → List ℕ
trim_left b [] = []
trim_left b (c ∷ s) = let rest = trim_left b s in if c == b then rest else c ∷ s

-- `strings.Contains`
unfoldable pub contains : List ℕ → List ℕ → Bool
unfolding begins
contains [] p = begins p []
contains (c ∷ s) p = let rest = contains s p in if begins p (c ∷ s) then true else rest
