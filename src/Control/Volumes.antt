-- ===== src/Control/Volumes.antt =====
-- control/win-volumes.go: the drives of Windows. For each letter a goroutine tries to open the drive, and the
-- loop waits 10 ms for a signal on the channel that all of them share.
use cells_sync.Prelude.{
  ℕ, ◌+◌, ◌-◌, ◌≡◌, ◌≤◌, refl, Bool, List, [], ◌∷◌, arith, if◌then◌else◌, ltb, length, Bool-cases,
  inl, inr,
}

-- A letter, and how many goroutines are ready to send until its 10 ms are over, those of the letters
-- before it that were slow included.
pub record Turn : Type 0 where
  pub letter : ℕ
  pub signals : ℕ

-- `browseWinVolumes`: `waiting` signals have not been taken yet. A signal says only that some drive was
-- opened.
unfoldable pub browse_win_volumes : ℕ → List Turn → List ℕ
browse_win_volumes waiting [] = []
browse_win_volumes waiting (t ∷ ts) =
    let ready = waiting + t.signals in
    let rest = browse_win_volumes (ready - 1) ts in if ltb 0 ready then t.letter ∷ rest else rest

abbrev pub total : List Turn → ℕ
total [] = 0
total (t ∷ ts) = t.signals + total ts

-- Each drive that can be opened is opened within its 10 ms.
abbrev pub AreTimely : (ℕ → Bool) → List Turn → Type 0
AreTimely opens [] = Unit
AreTimely opens (t ∷ ts) = (t.signals ≡ (if opens t.letter then 1 else 0)) × AreTimely opens ts

abbrev pub opened : (ℕ → Bool) → List Turn → List ℕ
opened opens [] = []
opened opens (t ∷ ts) =
    let rest = opened opens ts in if opens t.letter then t.letter ∷ rest else rest

timely :
    (opens : ℕ → Bool) (ts : List Turn)
    → AreTimely opens ts
    → browse_win_volumes 0 ts ≡ opened opens ts
unfolding browse_win_volumes
timely opens [] h = refl
timely opens (t ∷ ts) h = elim (Bool-cases (opens t.letter)) [
  | inl e ↦ ground (arith, h.0, e, timely opens ts h.1)
  | inr e ↦ ground (arith, h.0, e, timely opens ts h.1)
]

length-browse :
    (waiting : ℕ) (ts : List Turn) → length (browse_win_volumes waiting ts) ≤ waiting + total ts
unfolding browse_win_volumes
length-browse waiting [] = omega arith
length-browse waiting (t ∷ ts) = ground (arith, length-browse (waiting + t.signals - 1) ts)

-- There are never more volumes than drives that were opened. If each drive that can be opened is
-- opened within its 10 ms, the volumes are the drives that can be opened, in their order.
pub browse_win_volumes-opened :
    (opens : ℕ → Bool) (ts : List Turn)
    → (length (browse_win_volumes 0 ts) ≤ total ts)
      × (AreTimely opens ts → browse_win_volumes 0 ts ≡ opened opens ts)
browse_win_volumes-opened opens ts = (omega (arith, length-browse 0 ts), timely opens ts)

-- A drive that is opened late is listed under the next letter, although that one cannot be opened.
late-signal :
    (a b : ℕ)
    → browse_win_volumes 0
        (record { letter = a; signals = 0 } ∷ record { letter = b; signals = 1 } ∷ [])
      ≡ b ∷ []
unfolding browse_win_volumes
late-signal a b = refl
