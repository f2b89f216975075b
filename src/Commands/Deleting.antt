-- ===== src/Commands/Deleting.antt =====
-- cmd/config.go: the command that deletes a task.
use mathlib.Core.List.{Perm, append-nil, perm_middle}
use mathlib.Core.List.Perm
use cells_sync.Prelude.{
  some_injective, ℕ, zero, suc, ◌-◌, ◌≡◌, refl, ap, arith, true, Option, none, some, List, [], ◌∷◌,
  ◌++◌, inr, length, length-append, get_elem?, set, take,
}
use cells_sync.Config.Types.{Task}
use cells_sync.Config.Keyring.{Keyring}
use cells_sync.Config.Global.{World, save}
use cells_sync.Commands.{swap_remove, with_tasks, saved, delete_cmd}

module _ {A : Type 0} where
  -- A list that is not empty has a last element.
  snoc_view : (u : A) (ts : List A) → (pre : List A) × (l : A) × (u ∷ ts ≡ pre ++ (l ∷ []))
  snoc_view u [] = ([], u, refl)
  snoc_view u (v ∷ ts) = let r = snoc_view v ts in (u ∷ r.0, r.1, ap (λ xs. u ∷ xs) r.2)

  get_elem?-last : (pre : List A) (l : A) → get_elem? (pre ++ (l ∷ [])) (length pre) ≡ some l
  get_elem?-last [] l = refl
  get_elem?-last (u ∷ pre) l = get_elem?-last pre l

  set-last : (pre : List A) (l t : A) → set (pre ++ (l ∷ [])) (length pre) t ≡ pre ++ (t ∷ [])
  set-last [] l t = refl
  set-last (u ∷ pre) l t = ap (λ xs. u ∷ xs) (set-last pre l t)

  length-last : (pre : List A) (l : A) → length (pre ++ (l ∷ [])) - 1 ≡ length pre
  length-last pre l = omega (arith, length-append pre (l ∷ []))

  take-init : (pre : List A) (t : A) → take (length pre) (pre ++ (t ∷ [])) ≡ pre
  take-init [] t = refl
  take-init (u ∷ pre) t = ap (λ xs. u ∷ xs) (take-init pre t)

  take-set :
      (pre : List A) (i : ℕ) (t l : A) → take (length pre) (set (pre ++ (t ∷ [])) i l) ≡ set pre i l
  take-set [] i t l = refl
  take-set (u ∷ pre) zero t l = ap (λ xs. l ∷ xs) (take-init pre t)
  take-set (u ∷ pre) (suc i) t l = ap (λ xs. u ∷ xs) (take-set pre i t l)

  last-Perm : (pre : List A) (l : A) → Perm (l ∷ pre) (pre ++ (l ∷ []))
  last-Perm pre l = Perm.symm (rw (append-nil pre) at (perm_middle {a = l} pre []))

  set-Perm :
      (pre : List A) (i : ℕ) (t l : A)
      → get_elem? (pre ++ (l ∷ [])) i ≡ some t
      → Perm (t ∷ set pre i l) (pre ++ (l ∷ []))
  set-Perm [] zero t l h = rw (some_injective h) (Perm.refl (t ∷ []))
  set-Perm [] (suc i) t l h = cc
  set-Perm (u ∷ pre) zero t l h = rw (some_injective h) (Perm.cons t (last-Perm pre l))
  set-Perm (u ∷ pre) (suc i) t l h =
      Perm.trans (Perm.swap _ _ _) (Perm.cons u (set-Perm pre i t l h))

  swap_remove_last :
      (pre : List A) (i : ℕ) (t l : A)
      → get_elem? (pre ++ (l ∷ [])) i ≡ some t
      → swap_remove i (pre ++ (l ∷ [])) ≡ some (set pre i l)
  unfolding swap_remove
  swap_remove_last pre i t l h =
      rw
        (
          swap_remove,
          length-last pre l,
          get_elem?-last pre l,
          h,
          length-last pre l,
          set-last pre l t,
          take-set pre i t l,
        )
        refl

  pub swap_remove-Perm :
      (i : ℕ) (ts : List A) (t : A)
      → get_elem? ts i ≡ some t
      → (rest : List A) × (swap_remove i ts ≡ some rest) × Perm (t ∷ rest) ts
  swap_remove-Perm i [] t h = cc
  swap_remove-Perm i (u ∷ ts) t h =
      let r = snoc_view u ts in
      let h' = rw r.2 at h in
      (set r.0 i r.1, rw r.2 (swap_remove_last r.0 i t r.1 h'), rw r.2 (set-Perm r.0 i t r.1 h'))

module _ (K : Keyring) where
  -- What the process leaves: its exit code, the tasks and the events.
  abbrev pub Deletes : Task → World K → World K × Option ℕ → Type 0
  Deletes t w (w', code) =
      (code ≡ none) × Perm (t ∷ w'.global.tasks) w.global.tasks × (w'.events ≡ w.events)

  -- When there is a task at the chosen position and the save succeeds, then the command deletes this
  -- task and no other: the tasks that are left are, together with it, the tasks as before, although
  -- perhaps in another order. It emits no event, and the process does not exit with an error.
  pub delete_cmd-Deletes :
      (i : ℕ) (t : Task) (w : World K)
      → get_elem? w.global.tasks i ≡ some t
      → (r : World K × Option ℕ) × (delete_cmd K (inr i) true w ≡ some r) × Deletes t w r
  unfolding delete_cmd save
  delete_cmd-Deletes i t w h =
      let c = swap_remove-Perm i w.global.tasks t h in
      (saved K true (with_tasks K c.0 w), rw (c.1, delete_cmd) refl, (refl, c.2, refl))
