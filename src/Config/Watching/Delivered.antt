-- ===== src/Config/Watching/Delivered.antt =====
-- config/defaults.go: which events a channel of `Watch` receives.
use mathlib.Core.List.{Perm, append_assoc, append-nil, perm_append_comm}
use mathlib.Core.List.Perm
use mathlib.Core.Path.{subst}
use cells_sync.Prelude.{
  ℕ, zero, suc, ◌≡◌, refl, sym, ap, ◌∙◌, List, [], ◌∷◌, ◌++◌, All, arith, if◌then◌else◌, ◌==◌,
  nat_eq, count, Bool-cases, inl, inr,
}
use cells_sync.Config.Watching.{deliver_from, deliver, deliver_all, emit_all}

module _ {C : Type 0} (w : ℕ) where
  -- What the channel has received, in its order.
  abbrev pub inbox : List (ℕ × C) → List C
  inbox [] = []
  inbox ((v, c) ∷ log) = let rest = inbox log in if v == w then c ∷ rest else rest

  -- What one goroutine, and what all of them, have still to send to the channel.
  abbrev pub pending : C → List ℕ → List C
  pending c [] = []
  pending c (v ∷ ws) = let rest = pending c ws in if v == w then c ∷ rest else rest

  abbrev pub owed : List (C × List ℕ) → List C
  owed [] = []
  owed ((c, ws) ∷ ss) = pending c ws ++ owed ss

  inbox-append : (log l : List (ℕ × C)) → inbox (log ++ l) ≡ inbox log ++ inbox l
  inbox-append [] l = refl
  inbox-append ((v, c) ∷ log) l = ground (arith, inbox-append log l)

  perm_between : (a b c : List C) → Perm (a ++ (b ++ c)) (b ++ (a ++ c))
  perm_between a b c =
      subst (λ x. Perm x (b ++ (a ++ c))) (append_assoc a b c)
        (subst (λ x. Perm ((a ++ b) ++ c) x) (append_assoc b a c)
          (Perm.append_right c (perm_append_comm a b)))

  deliver_from-Perm :
      (i : ℕ) (ss : List (C × List ℕ))
      → Perm (inbox (deliver_from i ss).1 ++ owed (deliver_from i ss).0) (owed ss)
  deliver_from-Perm i [] = Perm.rfl
  deliver_from-Perm zero ((c, []) ∷ ss) = Perm.rfl
  deliver_from-Perm zero ((c, v ∷ ws) ∷ ss) = elim (Bool-cases (v == w)) [
    | inl e ↦ rw e Perm.rfl
    | inr e ↦ rw e Perm.rfl
  ]
  deliver_from-Perm (suc i) ((c, ws) ∷ ss) =
      Perm.trans
        (perm_between (inbox (deliver_from i ss).1) (pending c ws) (owed (deliver_from i ss).0))
        (Perm.append_left (pending c ws) (deliver_from-Perm i ss))

  deliver-Perm :
      (i : ℕ) (ss : List (C × List ℕ)) (log : List (ℕ × C))
      → Perm (inbox (deliver i (ss, log)).1 ++ owed (deliver i (ss, log)).0) (inbox log ++ owed ss)
  unfolding deliver
  deliver-Perm i ss log =
      let (r, l) = deliver_from i ss in
      rw (inbox-append log l) (
        subst (λ x. Perm x (inbox log ++ owed ss))
          (sym (append_assoc (inbox log) (inbox l) (owed r)))
          (Perm.append_left (inbox log) (deliver_from-Perm i ss)))

  deliver_all-Perm :
      (is : List ℕ) (d : List (C × List ℕ) × List (ℕ × C))
      → Perm (inbox (deliver_all is d).1 ++ owed (deliver_all is d).0) (inbox d.1 ++ owed d.0)
  unfolding deliver_all
  deliver_all-Perm [] d = Perm.rfl
  deliver_all-Perm (i ∷ is) (ss, log) =
      Perm.trans (deliver_all-Perm is (deliver i (ss, log))) (deliver-Perm i ss log)

  pending-count_zero : (c : C) (ws : List ℕ) → count w ws ≡ 0 → pending c ws ≡ []
  pending-count_zero c [] h = refl
  pending-count_zero c (v ∷ ws) h = ground (arith, h, pending-count_zero c ws)

  pending-count_one : (c : C) (ws : List ℕ) → count w ws ≡ 1 → pending c ws ≡ c ∷ []
  pending-count_one c [] h = absurd (omega (arith, h))
  pending-count_one c (v ∷ ws) h =
      ground (arith, h, pending-count_one c ws, pending-count_zero c ws)

  owed-emit_all : (ws : List ℕ) (cs : List C) → count w ws ≡ 1 → owed (emit_all ws cs) ≡ cs
  unfolding emit_all
  owed-emit_all ws [] h = refl
  owed-emit_all ws (c ∷ cs) h =
      rw (pending-count_one c ws h) (ap (λ x. c ∷ x) (owed-emit_all ws cs h))

  -- No goroutine has anything left to send.
  abbrev pub IsDone : List (C × List ℕ) → Type 0
  IsDone ss = All (λ s. s.1 ≡ []) ss

  owed_done : (ss : List (C × List ℕ)) → IsDone ss → owed ss ≡ []
  owed_done [] h = refl
  owed_done ((c, ws) ∷ ss) h = rw (h.0) (owed_done ss h.1)

  -- Whatever the order in which the goroutines of the events run: when all have ended, each channel
  -- has received each event exactly once, though not always in the order of the changes.
  pub deliver_all-Perm_events :
      (ws is : List ℕ) (cs : List C)
      → count w ws ≡ 1
      → IsDone (deliver_all is (emit_all ws cs, [])).0
      → Perm (inbox (deliver_all is (emit_all ws cs, [])).1) cs
  deliver_all-Perm_events ws is cs once done =
      let p = deliver_all-Perm is (emit_all ws cs, []) in
      subst (λ x. Perm x cs)
        (ap (λ x. inbox (deliver_all is (emit_all ws cs, [])).1 ++ x) (owed_done _ done)
          ∙ append-nil _)
        (subst
          (λ x.
            Perm
              (inbox (deliver_all is (emit_all ws cs, [])).1
                ++ owed (deliver_all is (emit_all ws cs, [])).0)
              x)
          (owed-emit_all ws cs once) p)
