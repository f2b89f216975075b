-- ===== src/Examples/Supervisors.antt =====
-- The theorems on the supervisor at a concrete list of services.
use cells_sync.Prelude.{
  true, ℕ, suc, ◌+◌, ◌≤◌, refl, [], ◌∷◌, arith, ◌==◌, string_eq, Bool-cases, inl, inr, eq_iff,
}
use cells_sync.Config.Types.{Task}
use cells_sync.Config.Global.Tasks.{create, delete, find}
use cells_sync.Control.Supervisor.Starting.{serve-Tracks}
use cells_sync.Control.Supervisor.{serve, Suture, syncer, scheduler, Supervisor}
use cells_sync.Control.Supervisor.Entries.{Entries, without, IsFresh}
use cells_sync.Control.Supervisor.Running.{IsLawful, Tracks}
use cells_sync.Control.Supervisor.Agreement.{Agree, run_commands, run_commands-Agree}
use cells_sync.Examples.Values.{task}
use cells_sync.Examples.Settings.{world, ring}

-- A number above all tokens.
abbrev pub next : Entries → ℕ
next [] = 0
next ((j, v) ∷ r) = suc (j + next r)

abbrev pub services : Suture
services = record {
  State = Entries;
  add = λ v r. (next r, (next r, v) ∷ r);
  remove = without;
  running = λ r. r;
}

IsFresh-next : (n : ℕ) (r : Entries) → next r ≤ n → IsFresh n r
IsFresh-next n [] h = tt
IsFresh-next n ((j, v) ∷ r) h = (λ e. ground (arith, e), IsFresh-next n r (omega arith))

pub services-IsLawful : IsLawful services
services-IsLawful = record {
  running-add = λ v r. refl;
  add_fresh = λ v r. IsFresh-next (next r) r (omega arith);
  running-remove = λ k r. refl;
}

abbrev pub started : Supervisor services
started = record {
  suture = (1, scheduler (task ∷ [])) ∷ (0, syncer task) ∷ [];
  tasks_tokens = ("u1", 0) ∷ [];
  scheduler_token = 1;
}

pub started-Agree : Agree services services-IsLawful ring world started
started-Agree = record {
  distinct = ((omega arith, tt), (tt, tt));
  runs = λ u. elim (Bool-cases ("u1" == u)) [
    | inl e ↦ rw e (0, rw e refl, rw e refl)
    | inr e ↦ rw e (rw e refl, rw e refl)
  ];
  scheduled = refl;
}

abbrev pub second : Task
second = record task { uuid = "u2" }

run_commands-Agree_example :
    Agree services services-IsLawful ring
      (run_commands services services-IsLawful ring
        ((create second, true) ∷ (delete task, true) ∷ [])
        world
        started).0
      (run_commands services services-IsLawful ring
        ((create second, true) ∷ (delete task, true) ∷ [])
        world
        started).1
run_commands-Agree_example =
    run_commands-Agree services services-IsLawful ring
      ((create second, true) ∷ (delete task, true) ∷ []) world started
      (ground (arith, eq_iff "u1" "u2"), refl, (tt, refl, tt)) started-Agree

serve-Tracks_example :
    Tracks services
      (λ u. find u (task ∷ second ∷ []))
      (task ∷ second ∷ [])
      (serve services (task ∷ second ∷ []) ("http" ∷ "updater" ∷ []) [])
serve-Tracks_example =
    serve-Tracks services services-IsLawful (task ∷ second ∷ []) ("http" ∷ "updater" ∷ []) [] refl
      (ground (arith, eq_iff "u2" "u1"), (refl, tt))
