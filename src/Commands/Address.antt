-- ===== src/Commands/Address.antt =====
-- config/http-address.go: the port that the server listens on.
use cells_sync.Prelude.{
  ℕ, zero, suc, ◌+◌, ◌≤◌, ◌<◌, ◌≡◌, arith, Bool, true, false, Option, none, some, leb, leb→le,
  Bool-cases, inl, inr,
}
use cells_sync.Commands.{first_port, address, get_http_address}

module _ (is_free : ℕ → Bool) where
  -- No port from `low` on and below `high` can be listened on.
  abbrev pub AreBusy : ℕ → ℕ → Type 0
  AreBusy low high = (p : ℕ) → low ≤ p → p < high → is_free p ≡ false

  first_port-bounds :
      (fuel port : ℕ)
      → (port ≤ first_port fuel is_free port) × (first_port fuel is_free port ≤ port + fuel)
  unfolding first_port
  first_port-bounds zero port = ground arith
  first_port-bounds (suc fuel) port = ground (arith, first_port-bounds fuel (suc port))

  first_port-AreBusy : (fuel port : ℕ) → AreBusy port (first_port fuel is_free port)
  unfolding first_port
  first_port-AreBusy zero port p l h = ground (arith, l, h)
  first_port-AreBusy (suc fuel) port p l h = elim (Bool-cases (is_free port)) [
    | inl e ↦ ground (arith, l, rw e at h)
    | inr e ↦ ground (arith, e, l, first_port-AreBusy fuel (suc port) p, rw e at h)
  ]

  first_port-free :
      (fuel port : ℕ)
      → first_port fuel is_free port < port + fuel
      → is_free (first_port fuel is_free port) ≡ true
  unfolding first_port
  first_port-free zero port h = ground (arith, h)
  first_port-free (suc fuel) port h = elim (Bool-cases (is_free port)) [
    | inl e ↦ rw e e
    | inr e ↦ rw e (first_port-free fuel (suc port) (ground (arith, e, h)))
  ]

  abbrev pub IsFirst : Option ℕ → Type 0
  IsFirst none = AreBusy 3636 3667
  IsFirst (some port) = (3636 ≤ port) × (port ≤ 3666) × (is_free port ≡ true) × AreBusy 3636 port

  address-IsFirst :
      (port : ℕ)
      → 3636 ≤ port
      → port ≤ 3667
      → (port < 3667 → is_free port ≡ true)
      → AreBusy 3636 port
      → IsFirst (address port)
  address-IsFirst port low high free busy = elim (Bool-cases (leb port 3666)) [
    | inl e ↦ rw e (low, leb→le port 3666 e, free (ground (arith, e)), busy)
    | inr e ↦ rw e (λ p l h. busy p l (ground (arith, e, high, h)))
  ]

  -- The port is the first one from 3636 to 3666 that can be listened on. There is no port, which is
  -- an error, only when none of them can.
  pub get_http_address-IsFirst : IsFirst (get_http_address is_free)
  unfolding get_http_address
  get_http_address-IsFirst =
      let b = first_port-bounds 31 3636 in
      address-IsFirst (first_port 31 is_free 3636) b.0 b.1 (first_port-free 31 3636)
        (first_port-AreBusy 31 3636)
