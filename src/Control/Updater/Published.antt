-- ===== src/Control/Updater/Published.antt =====
-- control/updater.go: the messages that an update publishes, in their order.
use cells_sync.Prelude.{
  ℕ, suc, ◌≤◌, ◌≡◌, refl, ap, ◌∙◌, sym, arith, Bool, true, not, List, [], ◌∷◌, ◌++◌, length,
  length-append, if◌then◌else◌, ◌==◌, string_eq,
}
use mathlib.Core.List.{append-nil, append_assoc}
use cells_sync.Control.Updater.{
  UpdateMessage, check_request, apply_request, check_status, apply_status, dispatch, dispatch_all,
}
use cells_sync.Control.Updater.Download.{Doubles}

-- A message that is not about the progress.
abbrev pub is_end : UpdateMessage → Bool
is_end (apply_status s p pg e) = not (s == "downloading")
is_end _ = true

abbrev pub ends : List UpdateMessage → List UpdateMessage
ends [] = []
ends (m ∷ ms) = if is_end m then m ∷ ends ms else ends ms

-- What follows the first message that is not about the progress.
abbrev pub after_end : List UpdateMessage → List UpdateMessage
after_end [] = []
after_end (m ∷ ms) = if is_end m then ms else after_end ms

-- The progress of the messages.
abbrev pub progress_of : List UpdateMessage → List ℕ
progress_of [] = []
progress_of (apply_status s p pg e ∷ ms) =
    if s == "downloading" then pg ∷ progress_of ms else progress_of ms
progress_of (_ ∷ ms) = progress_of ms

pub ends-append :
    (ms : List UpdateMessage) (m : UpdateMessage) → ends (ms ++ (m ∷ [])) ≡ ends ms ++ ends (m ∷ [])
ends-append [] m = refl
ends-append (n ∷ ms) m = ground (arith, ends-append ms m)

pub progress_of-append :
    (ms : List UpdateMessage) (m : UpdateMessage)
    → progress_of (ms ++ (m ∷ [])) ≡ progress_of ms ++ progress_of (m ∷ [])
progress_of-append [] m = refl
progress_of-append (apply_status s p pg e ∷ ms) m = ground (arith, progress_of-append ms m)
progress_of-append (check_request c v ∷ ms) m = progress_of-append ms m
progress_of-append (apply_request p d ∷ ms) m = progress_of-append ms m
progress_of-append (check_status s ps e ∷ ms) m = progress_of-append ms m

pub after_end-first :
    (ms : List UpdateMessage) (m : UpdateMessage) → ends ms ≡ [] → after_end (ms ++ (m ∷ [])) ≡ []
after_end-first [] m h = ground arith
after_end-first (n ∷ ms) m h = ground (arith, after_end-first ms m)

pub length-after_end :
    (ms : List UpdateMessage) (m : UpdateMessage)
    → length (after_end (ms ++ (m ∷ []))) ≤ suc (length (after_end ms))
length-after_end [] m = ground arith
length-after_end (n ∷ ms) m = ground (arith, length-append ms (m ∷ []), length-after_end ms m)

pub dispatch_all-append :
    (ms : List UpdateMessage) (m : UpdateMessage)
    → dispatch_all (ms ++ (m ∷ [])) ≡ dispatch_all ms ++ dispatch m
unfolding dispatch_all
dispatch_all-append [] m = append-nil (dispatch m)
dispatch_all-append (n ∷ ms) m =
    ap (λ js. dispatch n ++ js) (dispatch_all-append ms m)
    ∙ sym (append_assoc (dispatch n) (dispatch_all ms) (dispatch m))

module _ (F : Doubles) where
  -- Each progress exceeds the one before it by more than a hundredth.
  abbrev pub Rises : ℕ → List ℕ → Type 0
  Rises prev [] = Unit
  Rises prev (pg ∷ pgs) = (F.exceeds pg prev ≡ true) × Rises pg pgs

  abbrev pub last_of : ℕ → List ℕ → ℕ
  last_of prev [] = prev
  last_of prev (pg ∷ pgs) = last_of pg pgs

  pub Rises-append :
      (prev pg : ℕ) (pgs : List ℕ)
      → Rises prev pgs
      → F.exceeds pg (last_of prev pgs) ≡ true
      → Rises prev (pgs ++ (pg ∷ []))
  Rises-append prev pg [] h e = (e, tt)
  Rises-append prev pg (q ∷ pgs) h e = (h.0, Rises-append q pg pgs h.1 e)

  pub last_of-append : (prev pg : ℕ) (pgs : List ℕ) → last_of prev (pgs ++ (pg ∷ [])) ≡ pg
  last_of-append prev pg [] = refl
  last_of-append prev pg (q ∷ pgs) = last_of-append q pg pgs
