-- ===== src/Tray/View.antt =====
-- app/tray/tray.go: `spawnWebView`, which runs in a goroutine for each click. A view is a number.
pub mod Single
use cells_sync.Prelude.{
  ℕ, suc, Bool, true, false, ◌&&◌, not, Option, none, some, List, [], ◌∷◌, if◌then◌else◌, ◌==◌,
  nat_eq,
}

-- viewCancel, as the view that it cancels, cancelling, the views that run, and how often the browser
-- was opened instead.
pub record View : Type 0 where
  pub cancel : Option ℕ
  pub cancelling : Bool
  pub running : List ℕ
  pub browser : ℕ

-- Before the first click.
unfoldable pub no_view : View
no_view = record { cancel = none; cancelling = false; running = []; browser = 0 }

abbrev pub without : ℕ → List ℕ → List ℕ
without n [] = []
without n (k ∷ ks) = let rest = without n ks in if k == n then rest else k ∷ rest

-- The function behind viewCancel: the process ends.
abbrev pub cancel_view : ℕ → View → View
cancel_view n v = record v { cancelling = true; running = without n v.running }

abbrev pub check_with : Option ℕ → View → View
check_with none v = v
check_with (some k) v = record (cancel_view k v) { cancel = none }

-- `spawnWebView` in three steps: the view that is there is cancelled, a new one is started, and what
-- follows when the process of a view has ended (`error` is true if it did not end well).
unfoldable pub check : View → View
check v = check_with v.cancel v

unfoldable pub start : ℕ → View → View
start n v = record v { cancel = some n; cancelling = false; running = n ∷ v.running }

unfoldable pub finish : ℕ → Bool → View → View
finish n error v = record v {
  cancel = none;
  running = without n v.running;
  browser = if error && not v.cancelling then suc v.browser else v.browser;
}

-- `beforeExit`, of the view.
unfoldable pub before_exit : View → View
before_exit v = check_with v.cancel v

-- What happens in time: a click, where a view that is cancelled has ended within the 200 ms before
-- the new one is started; or a view ends by itself, because the user closes it or with an error.
pub data ViewEvent : Type 0 where
  click : ℕ → ViewEvent
  close : ℕ → Bool → ViewEvent

abbrev pub ended : Option ℕ → View → View
ended none v = v
ended (some k) v = finish k true v

unfoldable pub view_step : ViewEvent → View → View
unfolding check start
view_step (click n) v = start n (ended v.cancel (check v))
view_step (close n error) v = finish n error v

unfoldable pub view_steps : List ViewEvent → View → View
view_steps [] v = v
view_steps (e ∷ es) v = view_steps es (view_step e v)
