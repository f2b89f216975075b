-- ===== src/Tray/View/Single.antt =====
-- app/tray/tray.go: how many views are open.
use cells_sync.Prelude.{
  false, ◌+◌, if◌then◌else◌, ℕ, ◌≡◌, ◌≢◌, true, Option, none, some, List, [], ◌∷◌, nat_eq, arith,
}
use cells_sync.Tray.View.{View, no_view, check, start, finish, ViewEvent, click, close, view_step}

-- The views that run are the one that can be cancelled, if there is one, and nothing is being cancelled.
abbrev pub only : Option ℕ → List ℕ
only none = []
only (some k) = k ∷ []

pub record IsSingle (v : View) : Type 0 where
  pub one : v.running ≡ only v.cancel
  pub quiet : v.cancelling ≡ false

-- The views that ended by themselves with an error.
abbrev pub failures : List ViewEvent → ℕ
failures [] = 0
failures (click n ∷ es) = failures es
failures (close n error ∷ es) = (if error then 1 else 0) + failures es

-- Only views that run end.
abbrev pub ClosesOpen : List ViewEvent → View → Type 0
ClosesOpen [] v = Unit
ClosesOpen (click n ∷ es) v = ClosesOpen es (view_step (click n) v)
ClosesOpen (close n error ∷ es) v =
    (v.cancel ≡ some n) × ClosesOpen es (view_step (close n error) v)

-- If a view that is cancelled ends only after the next one is started, its end takes the cancel
-- function of the next view: the third click leaves that view open beside its own, and the browser is
-- opened as well.
pub late-finish :
    (a b c : ℕ)
    → a ≢ b
    → a ≢ c
    → b ≢ c
    → let v = finish a true (start b (check (start a no_view))) in
      ((start c (check v)).running ≡ c ∷ b ∷ []) × (v.browser ≡ 1)
unfolding no_view check start finish
late-finish a b c ab ac bc = ground (arith, ab, ac, bc)
