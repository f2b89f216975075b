-- ===== src/Go/Strconv.antt =====
-- Go's strconv over bytes: Itoa of a natural number, Atoi and ParseInt(s, 10, 64).
use cells_sync.Prelude.{
  ℕ, zero, suc, ◌+◌, ◌*◌, ◌-◌, ◌/◌, ◌%◌, ◌<◌, ◌≡◌, refl, Bool, true, false, ◌&&◌, Option, none,
  some, List, [], ◌∷◌, arith, leb, ltb, ◌==◌, nat_eq, if◌then◌else◌, ◌>>=◌, Bool-cases, inl, inr,
  sym, ap, ltb→lt, ◌∙◌, ◌≤◌,
}

itoa_onto : ℕ → ℕ → List ℕ → List ℕ
itoa_onto zero n rest = rest
itoa_onto (suc f) n rest =
    let shorter = itoa_onto f (n / 10) ((48 + n % 10) ∷ rest) in
    if ltb n 10 then (48 + n) ∷ rest else shorter

-- The decimal digits of a number. A number has fewer digits than its value plus one.
unfoldable pub itoa : ℕ → List ℕ
unfolding itoa_onto
itoa n = itoa_onto (suc n) n []

is_digit : ℕ → Bool
is_digit c = leb 48 c && leb c 57

digits : ℕ → List ℕ → Option ℕ
unfolding is_digit
digits acc [] = some acc
digits acc (c ∷ cs) =
    let rest = digits (acc * 10 + (c - 48)) cs in if is_digit c then rest else none

-- The magnitude of a number in int64, or the range error.
in_range : Bool → ℕ → Option (Bool × ℕ)
in_range false n = if ltb n (2 * 4611686018427387904) then some (false, n) else none
in_range true n = if leb n (2 * 4611686018427387904) then some (true, n) else none

unsigned : Bool → List ℕ → Option (Bool × ℕ)
unfolding digits in_range
unsigned negative [] = none
unsigned negative (c ∷ cs) = do n ← digits 0 (c ∷ cs); in_range negative n

-- The sign (`true` is minus) and the magnitude of the number that the bytes write.
unfoldable pub atoi : List ℕ → Option (Bool × ℕ)
unfolding unsigned
atoi [] = none
atoi (c ∷ cs) =
    if c == b'-'
    then unsigned true cs
    else if c == b'+'
    then unsigned false cs
    else unsigned false (c ∷ cs)

digits-nil : (n : ℕ) → digits n [] ≡ some n
unfolding digits
digits-nil n = refl

-- The last digit of a number extends the digits of its tenth.
digits-last : (n : ℕ) (rest : List ℕ) → digits (n / 10) ((48 + n % 10) ∷ rest) ≡ digits n rest
unfolding digits
digits-last n rest =
    let e : n / 10 * 10 + (48 + n % 10 - 48) ≡ n = omega arith in rw e (ground arith)

digits-small : (n : ℕ) (rest : List ℕ) → n < 10 → digits 0 ((48 + n) ∷ rest) ≡ digits n rest
unfolding digits
digits-small n rest h = let e : 0 * 10 + (48 + n - 48) ≡ n = omega arith in rw e (ground arith)

digits-itoa_onto : (f n : ℕ) (rest : List ℕ) → n < f → digits 0 (itoa_onto f n rest) ≡ digits n rest
unfolding itoa_onto
digits-itoa_onto zero n rest h = elim h [ ]
digits-itoa_onto (suc f) n rest h = elim (Bool-cases (ltb n 10)) [
  | inl small ↦ rw small (digits-small n rest (ltb→lt n 10 small))
  | inr large ↦
      rw large
        (digits-itoa_onto f (n / 10) ((48 + n % 10) ∷ rest) (ground arith) ∙ digits-last n rest)
]

-- The first byte of a written number is a digit.
itoa_onto-head :
    (f n : ℕ) (rest : List ℕ)
    → n < f
    → (c : ℕ) × (cs : List ℕ) × (itoa_onto f n rest ≡ c ∷ cs) × (48 ≤ c)
unfolding itoa_onto
itoa_onto-head zero n rest h = elim h [ ]
itoa_onto-head (suc f) n rest h = elim (Bool-cases (ltb n 10)) [
  | inl small ↦ (48 + n, rest, rw small, omega arith)
  | inr large ↦ rw large (itoa_onto-head f (n / 10) ((48 + n % 10) ∷ rest) (ground arith))
]

atoi-unsigned : (c : ℕ) (cs : List ℕ) → 48 ≤ c → atoi (c ∷ cs) ≡ unsigned false (c ∷ cs)
unfolding atoi
atoi-unsigned c cs low = ground arith

unsigned-digits :
    (c n : ℕ) (cs : List ℕ)
    → digits 0 (c ∷ cs) ≡ some n
    → n < 2 * 4611686018427387904
    → unsigned false (c ∷ cs) ≡ some (false, n)
unsigned-digits c n cs d h = rw (unsigned_lem c cs, d) (in_range_lem n h)
  where
    unsigned_lem :
        (c : ℕ) (cs : List ℕ)
        → unsigned false (c ∷ cs) ≡ (digits 0 (c ∷ cs) >>= λ n. in_range false n)
    unsigned_lem c cs = unfold unsigned in refl

    in_range_lem : (n : ℕ) → n < 2 * 4611686018427387904 → in_range false n ≡ some (false, n)
    in_range_lem n h = unfold in_range in ground arith

-- Reading back what Itoa wrote gives the number, within int64.
pub atoi-itoa : (n : ℕ) → n < 2 * 4611686018427387904 → atoi (itoa n) ≡ some (false, n)
unfolding itoa
atoi-itoa n h =
    let (c, cs, e, low) = itoa_onto-head (suc n) n [] (omega arith) in
    rw e (
      atoi-unsigned c cs low
      ∙ unsigned-digits c n cs
          (sym (ap (digits 0) e) ∙ digits-itoa_onto (suc n) n [] (omega arith) ∙ digits-nil n) h)

-- A number below ten is one byte.
pub itoa-digit : (n : ℕ) → n < 10 → itoa n ≡ (48 + n) ∷ []
unfolding itoa
itoa-digit n h = ground arith
