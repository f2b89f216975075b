-- ===== src/Commands/Autotest.antt =====
-- cmd/autotest.go: the test of a sync between two folders. The file system and the sync are parameters.
use mathlib.Core.Path.{subst}
use cells_sync.Prelude.{
  some_injective, ℕ, ◌≡◌, ◌≢◌, ◌⊎◌, inl, inr, refl, String, Bool, true, false, not, ◌&&◌, Option,
  none, some, List, [], ◌∷◌, if◌then◌else◌, ◌==◌, string_eq, nat_eq, eq_iff, arith, ◌↔◌, ◌∙◌, ap,
  sym,
}

-- What the goroutine that watches the task gets.
pub data TestEvent : Type 0 where
  status : TestEvent
  done : ℕ → TestEvent  -- a patch, by its size
  done_other : TestEvent
  timeout : TestEvent

-- The steps before the task starts: the error of each, if there is one.
pub record Setup : Type 0 where
  pub left : Option String
  pub write : Option String
  pub right : Option String

pub record TestResult : Type 0 where
  pub fatal : Option String
  pub cleaned : Bool

-- The file on the right, or the error of its reading.
abbrev check_file : String ⊎ String → Option String
check_file (inl e) = some "cannot read right file"
check_file (inr text) =
    if not (text == "hello world") then some "right file does not have proper content" else none

abbrev check_patch : String ⊎ String → ℕ → Option String
check_patch file size =
    if size == 0 then some "processed patch has size 0, this is not normal" else check_file file

-- The goroutine; `none` while it waits.
unfoldable pub watch_task : String ⊎ String → List TestEvent → Option (Option String)
watch_task file [] = none
watch_task file (status ∷ es) = watch_task file es
watch_task file (done size ∷ es) = some (check_patch file size)
watch_task file (done_other ∷ es) = some (some "doneChan did not send a patch")
watch_task file (timeout ∷ es) = some (some "breaking test after 30s, this is not normal")

-- `log.Fatal` ends the process, and what was deferred does not run.
abbrev fails : String → TestResult
fails e = record { fatal = some e; cleaned = false }

abbrev finished : Bool → Option String → TestResult
finished skip_clean none = record { fatal = none; cleaned = not skip_clean }
finished skip_clean (some e) = fails e

abbrev watched : Bool → Option (Option String) → Option TestResult
watched skip_clean none = none
watched skip_clean (some result) = some (finished skip_clean result)

abbrev set_up :
    Bool
    → Option String
    → Option String
    → Option String
    → String ⊎ String
    → List TestEvent
    → Option TestResult
set_up skip_clean (some e) write right file es = some (fails "cannot init left dir")
set_up skip_clean none (some e) right file es =
    some (fails "cannot write a file for testing on left")
set_up skip_clean none none (some e) file es = some (fails "cannot init right dir")
set_up skip_clean none none none file es = watched skip_clean (watch_task file es)

-- `AutoTestCmd`
unfoldable pub autotest : Bool → Setup → String ⊎ String → List TestEvent → Option TestResult
autotest skip_clean s file es = set_up skip_clean s.left s.write s.right file es

-- The first event that is no status is a patch with operations.
abbrev pub Syncs : List TestEvent → Type 0
Syncs [] = ⊥
Syncs (status ∷ es) = Syncs es
Syncs (done size ∷ es) = size ≢ 0
Syncs (done_other ∷ es) = ⊥
Syncs (timeout ∷ es) = ⊥

abbrev pub Passes : Setup → String ⊎ String → List TestEvent → Type 0
Passes s file es =
    (s.left ≡ none) × (s.write ≡ none) × (s.right ≡ none) × Syncs es × (file ≡ inr "hello world")

check_patch-none :
    (file : String ⊎ String) (size : ℕ)
    → check_patch file size ≡ none
    → (size ≢ 0) × (file ≡ inr "hello world")
check_patch-none (inl e) size h = absurd (ground (arith, h))
check_patch-none (inr text) size h =
    (ground (arith, h), ground (arith, h, eq_iff text "hello world"))

none-check_patch : (size : ℕ) → size ≢ 0 → check_patch (inr "hello world") size ≡ none
none-check_patch size h = ground (arith, h, eq_iff "hello world" "hello world")

watch_task-none :
    (file : String ⊎ String) (es : List TestEvent)
    → watch_task file es ≡ some none
    → Syncs es × (file ≡ inr "hello world")
unfolding watch_task
watch_task-none file [] h = cc
watch_task-none file (status ∷ es) h = watch_task-none file es h
watch_task-none file (done size ∷ es) h = check_patch-none file size (cc)
watch_task-none file (done_other ∷ es) h = cc
watch_task-none file (timeout ∷ es) h = cc

none-watch_task : (es : List TestEvent) → Syncs es → watch_task (inr "hello world") es ≡ some none
unfolding watch_task
none-watch_task [] h = absurd h
none-watch_task (status ∷ es) h = none-watch_task es h
none-watch_task (done size ∷ es) h = rw (none-check_patch size h) refl
none-watch_task (done_other ∷ es) h = absurd h
none-watch_task (timeout ∷ es) h = absurd h

abbrev pub is_none {ℓ} : {A : Type ℓ} → Option A → Bool
is_none none = true
is_none (some a) = false

-- What a result says.
abbrev pub Judges : Bool → Type 0 → TestResult → Type 0
Judges skip_clean P r = ((r.fatal ≡ none) ↔ P) × (r.cleaned ≡ (not skip_clean && is_none r.fatal))

failed-Judges : {P : Type 0} (skip_clean : Bool) (e : String) → ¬ P → Judges skip_clean P (fails e)
failed-Judges true e no_ = ((λ h. cc, λ p. absurd (no_ p)), refl)
failed-Judges false e no_ = ((λ h. cc, λ p. absurd (no_ p)), refl)

finished-Judges :
    {P : Type 0} (skip_clean : Bool) (o : Option String)
    → ((o ≡ none) ↔ P)
    → Judges skip_clean P (finished skip_clean o)
finished-Judges true none (f, g) = ((λ h. f refl, λ p. refl), refl)
finished-Judges false none (f, g) = ((λ h. f refl, λ p. refl), refl)
finished-Judges skip_clean (some e) (f, g) = failed-Judges skip_clean e (λ p. cc (g p))

watched-eq-some :
    (skip_clean : Bool) (q : Option (Option String)) (r : TestResult)
    → watched skip_clean q ≡ some r
    → (o : Option String) × (q ≡ some o) × (finished skip_clean o ≡ r)
watched-eq-some skip_clean none r h = cc
watched-eq-some skip_clean (some o) r h = (o, refl, cc)

set_up-Judges :
    (skip_clean : Bool) (left write right : Option String) (file : String ⊎ String)
    (es : List TestEvent) (r : TestResult)
    → set_up skip_clean left write right file es ≡ some r
    → Judges skip_clean (Passes (record { left = left; write = write; right = right }) file es) r
set_up-Judges skip_clean (some e) write right file es r h =
    subst (Judges skip_clean _) (some_injective h) (failed-Judges skip_clean _ (λ p. cc (p.0)))
set_up-Judges skip_clean none (some e) right file es r h =
    subst (Judges skip_clean _) (some_injective h) (failed-Judges skip_clean _ (λ p. cc (p.1)))
set_up-Judges skip_clean none none (some e) file es r h =
    subst (Judges skip_clean _) (some_injective h) (failed-Judges skip_clean _ (λ p. cc (p.2)))
set_up-Judges skip_clean none none none file es r h =
    let (o, e, f) = watched-eq-some skip_clean (watch_task file es) r h in
    subst (Judges skip_clean _) f (
      finished-Judges skip_clean o (
        λ n. (
          refl,
          refl,
          refl,
          (watch_task-none file es (e ∙ ap some n)).0,
          (watch_task-none file es (e ∙ ap some n)).1,
        ),
        λ (a, b, c, s, t). some_injective (sym e ∙ rw t (none-watch_task es s)),
      ))

-- When the test ends, it ends without an error if and only if both folders could be set up, the first
-- thing that the task sends and that is no status is a patch with operations, and the file is on
-- the right with its content. The folders are removed if and only if the test ends without an
-- error and they are not to be kept.
pub autotest-Judges :
    (skip_clean : Bool) (s : Setup) (file : String ⊎ String) (es : List TestEvent) (r : TestResult)
    → autotest skip_clean s file es ≡ some r
    → Judges skip_clean (Passes s file es) r
unfolding autotest
autotest-Judges skip_clean s file es r h =
    set_up-Judges skip_clean s.left s.write s.right file es r h
