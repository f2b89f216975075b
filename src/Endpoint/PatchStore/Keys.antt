-- ===== src/Endpoint/PatchStore/Keys.antt =====
-- endpoint/patch-store.go: the order of the keys of the operations.
use cells_sync.Prelude.{
  ℕ, zero, suc, ◌+◌, ◌*◌, ◌/◌, ◌%◌, ◌^◌, ◌≤◌, ◌<◌, ◌≡◌, Bool, true, false, List, [], ◌∷◌, arith,
  if◌then◌else◌, ltb, ◌==◌, nat_eq, length, Option-cases, inl, inr, ◌⊎◌, All,
}
use cells_sync.Endpoint.PatchStore.{Codec, itob, store_operations}

-- The order of the database on its keys, `bytes.Compare`.
abbrev pub less_bytes : List ℕ → List ℕ → Bool
less_bytes [] [] = false
less_bytes [] (y ∷ ys) = true
less_bytes (x ∷ xs) [] = false
less_bytes (x ∷ xs) (y ∷ ys) =
    let rest = less_bytes xs ys in if ltb x y then true else if x == y then rest else false

Nat-cases : (a b : ℕ) → a ≤ b → (a ≡ b) ⊎ (a < b)
Nat-cases a b le = ground arith

byte_step :
    (a b : ℕ) (xs ys : List ℕ)
    → a / 256 ≡ b / 256
    → a ≤ b
    → (a ≡ b → less_bytes xs ys ≡ true)
    → less_bytes (a % 256 ∷ xs) (b % 256 ∷ ys) ≡ true
byte_step a b xs ys high le rest = elim (Nat-cases a b le) [
  | inl e ↦ rw e (ground (arith, rest e))
  | inr lt ↦ ground arith
]

abbrev powers : ℕ → List ℕ
powers zero = []
powers (suc k) = 2 ^ (8 * suc k) ∷ powers k

-- The bytes of a number below some powers.
abbrev low : List ℕ → ℕ → List ℕ
low [] v = v % 256 ∷ []
low (p ∷ ps) v = v / p % 256 ∷ low ps v

-- The keys are ordered as the numbers.
less_bytes-itob : (a b : ℕ) → a < b → b < 2 ^ 64 → less_bytes (itob a) (itob b) ≡ true
unfolding itob
less_bytes-itob a b h bound =
    byte_step (a / 2 ^ 56) (b / 2 ^ 56) (low (powers 6) a) (low (powers 6) b) (omega arith)
      (omega arith)
      (λ e0.
        byte_step (a / 2 ^ 48) (b / 2 ^ 48) (low (powers 5) a) (low (powers 5) b) (omega arith)
          (omega arith)
          (λ e1.
            byte_step (a / 2 ^ 40) (b / 2 ^ 40) (low (powers 4) a) (low (powers 4) b) (omega arith)
              (omega arith)
              (λ e2.
                byte_step (a / 2 ^ 32) (b / 2 ^ 32) (low (powers 3) a) (low (powers 3) b)
                  (omega arith) (omega arith)
                  (λ e3.
                    byte_step (a / 2 ^ 24) (b / 2 ^ 24) (low (powers 2) a) (low (powers 2) b)
                      (omega arith) (omega arith)
                      (λ e4.
                        byte_step (a / 2 ^ 16) (b / 2 ^ 16) (low (powers 1) a) (low (powers 1) b)
                          (omega arith) (omega arith)
                          (λ e5.
                            byte_step (a / 2 ^ 8) (b / 2 ^ 8) (low (powers 0) a) (low (powers 0) b)
                              (omega arith) (omega arith)
                              (λ e6.
                                byte_step a b [] [] (omega arith) (omega arith)
                                  (λ e. absurd (omega arith)))))))))

-- Each key comes before all that follow it.
abbrev pub IsOrdered : List (List ℕ × List ℕ) → Type 0
IsOrdered [] = Unit
IsOrdered ((k, _) ∷ es) = All (λ (e : List ℕ × List ℕ). less_bytes k e.0 ≡ true) es × IsOrdered es

module _ (c : Codec) where
  keys_above :
      (n seq : ℕ) (ops : List ℕ)
      → n ≤ seq
      → seq + length ops < 2 ^ 64
      → All (λ (e : List ℕ × List ℕ). less_bytes (itob n) e.0 ≡ true) (store_operations c seq ops)
  unfolding store_operations
  keys_above n seq [] le bound = tt
  keys_above n seq (op ∷ ops) le bound = elim (Option-cases (c.marshal op)) [
    | inl e ↦ rw (e, store_operations) (keys_above n seq ops le (omega arith))
    | inr (bytes, e) ↦
        rw (e, store_operations)
          (
            less_bytes-itob n (seq + 1) (omega arith) (omega arith),
            keys_above n (seq + 1) ops (omega arith) (omega arith),
          )
  ]

  -- The keys of the operations that `persist` stores are in the order of the database on bytes, as
  -- long as the sequence of the bucket stays in 64 bits. So a cursor meets the operations in the order
  -- in which they were walked.
  pub store_operations-IsOrdered :
      (seq : ℕ) (ops : List ℕ) → seq + length ops < 2 ^ 64 → IsOrdered (store_operations c seq ops)
  unfolding store_operations
  store_operations-IsOrdered seq [] bound = tt
  store_operations-IsOrdered seq (op ∷ ops) bound = elim (Option-cases (c.marshal op)) [
    | inl e ↦ rw (e, store_operations) (store_operations-IsOrdered seq ops (omega arith))
    | inr (bytes, e) ↦
        rw (e, store_operations)
          (
            keys_above (seq + 1) (seq + 1) ops (omega arith) (omega arith),
            store_operations-IsOrdered (seq + 1) ops (omega arith),
          )
  ]
