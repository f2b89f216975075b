-- ===== src/Config/Watching.antt =====
-- config/defaults.go: how an event of a change reaches the channels of `Watch`. Each event is a goroutine
-- that sends it to one channel after the other. A send waits for the receiver, and the goroutines
-- of several events run in any order.
pub mod Delivered
use cells_sync.Prelude.{
  ℕ, zero, suc, Bool, true, false, List, [], ◌∷◌, ◌++◌, if◌then◌else◌, ◌==◌, nat_eq,
}

module _ {C : Type 0} where
  -- The goroutine at this position sends its event to its next channel.
  abbrev pub deliver_from : ℕ → List (C × List ℕ) → List (C × List ℕ) × List (ℕ × C)
  deliver_from i [] = ([], [])
  deliver_from zero ((c, []) ∷ ss) = ((c, []) ∷ ss, [])
  deliver_from zero ((c, w ∷ ws) ∷ ss) = ((c, ws) ∷ ss, (w, c) ∷ [])
  deliver_from (suc i) (s ∷ ss) = let (r, l) = deliver_from i ss in (s ∷ r, l)

  -- What is left to send, with the channels in their order, and what was received, by whom.
  unfoldable pub deliver : ℕ → List (C × List ℕ) × List (ℕ × C) → List (C × List ℕ) × List (ℕ × C)
  deliver i (senders, log) = let (r, l) = deliver_from i senders in (r, log ++ l)

  unfoldable pub deliver_all :
      List ℕ → List (C × List ℕ) × List (ℕ × C) → List (C × List ℕ) × List (ℕ × C)
  deliver_all [] d = d
  deliver_all (i ∷ is) d = deliver_all is (deliver i d)

  -- The goroutines of some events, for the channels of `g.changes`.
  unfoldable pub emit_all : List ℕ → List C → List (C × List ℕ)
  emit_all ws [] = []
  emit_all ws (c ∷ cs) = (c, ws) ∷ emit_all ws cs
