-- ===== src/Control/Scheduler.antt =====
-- control/scheduler.go: the tickers of the tasks. The parser of intervals (ISO 8601) is a parameter.
-- The function of a ticker captures the variable of the loop over the tasks, which is one variable
-- for the whole loop (the language before Go 1.22): `Ticker` keeps the task that started it and does not keep a topic.
use cells_sync.Prelude.{
  ℕ, ◌≡◌, refl, String, Bool, true, false, not, Option, none, some, List, [], ◌∷◌, ◌++◌,
  if◌then◌else◌, ◌==◌, string_eq, ◌∙◌,
}
use mathlib.Core.List.{append_assoc, append-nil}
use cells_sync.Config.Types.{Task}
use cells_sync.Control.Bus.{Message, sync_loop, resync}

pub record Ticker : Type 0 where
  pub owner : String
  pub interval : ℕ
  pub message : Message

-- `Scheduler`, with the value of the variable `t` of the loop of `Serve`.
pub record Scheduler : Type 0 where
  pub tickers : List Ticker
  pub variable : Option Task
  pub stopped : Bool

module _ (parse_interval : String → Option ℕ) where
  abbrev ticker : Task → Message → Option ℕ → List Ticker
  ticker t m none = []
  ticker t m (some i) = record { owner = t.uuid; interval = i; message = m } ∷ []

  abbrev pub ticker_for : Task → String → Message → List Ticker
  ticker_for t text m = if not (text == "") then ticker t m (parse_interval text) else []

  abbrev pub tickers_of : Task → List Ticker
  tickers_of t = ticker_for t t.loop_interval sync_loop ++ ticker_for t t.hard_interval resync

  -- The loop of `Serve`.
  unfoldable pub serve : List Task → Scheduler → Scheduler
  serve [] s = s
  serve (t ∷ ts) s = serve ts (record s { tickers = s.tickers ++ tickers_of t; variable = some t })

-- `NewScheduler`
unfoldable pub new_scheduler : Scheduler
new_scheduler = record { tickers = []; variable = none; stopped = false }

-- What a ticker publishes when it ticks, and the uuid in the topic: that of the variable by then.
unfoldable pub tick : Scheduler → Ticker → Option (Message × String)
tick s k = elim (s.variable) [ none ↦ none | some t ↦ some (k.message, t.uuid) ]

-- `Stop`
unfoldable pub stop : Scheduler → Scheduler
stop s = record s { tickers = []; stopped = true }

abbrev pub all_tickers : (String → Option ℕ) → List Task → List Ticker
all_tickers parse [] = []
all_tickers parse (t ∷ ts) = tickers_of parse t ++ all_tickers parse ts

serve_lem :
    (parse : String → Option ℕ) (ts : List Task) (t : Task) (s : Scheduler)
    → serve parse (ts ++ (t ∷ [])) s
      ≡ record s { tickers = s.tickers ++ all_tickers parse (ts ++ (t ∷ [])); variable = some t }
unfolding serve
serve_lem parse [] t s = rw (append-nil (tickers_of parse t)) refl
serve_lem parse (u ∷ ts) t s =
    serve_lem parse ts t _
    ∙ rw (append_assoc s.tickers (tickers_of parse u) (all_tickers parse (ts ++ (t ∷ [])))) refl

-- The scheduler starts a ticker for each interval of each task that can be parsed, in the order of
-- the tasks. But when any of them ticks, then its message goes to the service of the last task, whose
-- it may not be.
pub serve-tick :
    (parse : String → Option ℕ) (ts : List Task) (t : Task) (k : Ticker)
    → ((serve parse (ts ++ (t ∷ [])) new_scheduler).tickers ≡ all_tickers parse (ts ++ (t ∷ [])))
      × (tick (serve parse (ts ++ (t ∷ [])) new_scheduler) k ≡ some (k.message, t.uuid))
unfolding tick new_scheduler
serve-tick parse ts t k = rw (serve_lem parse ts t new_scheduler) (refl, refl)
