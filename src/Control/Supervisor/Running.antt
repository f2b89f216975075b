-- ===== src/Control/Supervisor/Running.antt =====
-- control/supervisor.go: what the steps of a change do to the services that run.
use cells_sync.Prelude.{
  ℕ, ◌≡◌, ◌≢◌, refl, sym, ap, ◌∙◌, String, Option, none, some, List, [], ◌∷◌, arith, if◌then◌else◌,
  ◌==◌, nat_eq, string_eq, eq_iff, Bool-cases, Option-cases, inl, inr,
}
use cells_sync.Config.Types.{Task}
use cells_sync.Control.Supervisor.{
  Service, syncer, scheduler, Suture, lookup, delete, Supervisor, start_task, start_scheduler,
  restart_scheduler, remove_task, forget,
}
use cells_sync.Control.Supervisor.Entries.{
  Entries, syncers, schedulers, without, IsFresh, IsDistinct, syncers-without, schedulers-without,
  IsDistinct-without, tokens_differ, scheduler_differs,
}

lookup-delete :
    (u v : String) (m : List (String × ℕ))
    → lookup u (delete v m) ≡ (if v == u then none else lookup u m)
lookup-delete u v [] = ground arith
lookup-delete u v ((w, k) ∷ m) =
    ground (arith, lookup-delete u v m, eq_iff w v, eq_iff v u, eq_iff w u)

without_ne : {A : Type 0} (k l : ℕ) (x : A) → l ≢ k → without k ((l, x) ∷ []) ≡ (l, x) ∷ []
without_ne k l x differ = ground arith

without_self : {A : Type 0} (k : ℕ) (x : A) → without k ((k, x) ∷ []) ≡ []
without_self k x = ground arith

-- A service that is added runs under a new token, and a service that is removed no longer runs.
pub record IsLawful (S : Suture) : Type 0 where
  pub running-add :
      (v : Service) (st : S.State) → S.running (S.add v st).1 ≡ ((S.add v st).0, v) ∷ S.running st
  pub add_fresh : (v : Service) (st : S.State) → IsFresh (S.add v st).0 (S.running st)
  pub running-remove : (k : ℕ) (st : S.State) → S.running (S.remove k st) ≡ without k (S.running st)

module _ (S : Suture) where
  abbrev pub services : Supervisor S → Entries
  services s = S.running s.suture

  -- The service of a task runs once, under the token that the supervisor keeps; or there is none.
  abbrev pub Runs : Option Task → String → Supervisor S → Type 0
  Runs none u s = (lookup u s.tasks_tokens ≡ none) × (syncers u (services s) ≡ [])
  Runs (some t) u s =
      (k : ℕ) × (lookup u s.tasks_tokens ≡ some k) × (syncers u (services s) ≡ (k, t) ∷ [])

  -- The supervisor runs exactly the tasks of a map, and these schedulers.
  pub record Follows (m : String → Option Task) (js : List (ℕ × List Task)) (s : Supervisor S)
      : Type 0 where
    pub distinct : IsDistinct (services s)
    pub runs : (u : String) → Runs (m u) u s
    pub scheduled : schedulers (services s) ≡ js

  -- The supervisor runs exactly the tasks of a map, and one scheduler with a list of tasks.
  abbrev pub Tracks : (String → Option Task) → List Task → Supervisor S → Type 0
  Tracks m tasks s = Follows m ((s.scheduler_token, tasks) ∷ []) s

  -- The same, but no service runs for one uuid, whose token may be left over.
  pub record FollowsBut (u : String) (m : String → Option Task) (js : List (ℕ × List Task))
      (s : Supervisor S) : Type 0 where
    pub distinct : IsDistinct (services s)
    pub stopped : syncers u (services s) ≡ []
    pub runs : (v : String) → u ≢ v → Runs (m v) v s
    pub scheduled : schedulers (services s) ≡ js

  abbrev pub TracksBut : String → (String → Option Task) → List Task → Supervisor S → Type 0
  TracksBut u m tasks s = FollowsBut u m ((s.scheduler_token, tasks) ∷ []) s

  -- Other services do not matter to those of a task.
  pub Runs-same :
      (o : Option Task) (u : String) (s s' : Supervisor S)
      → lookup u s'.tasks_tokens ≡ lookup u s.tasks_tokens
      → syncers u (services s') ≡ syncers u (services s)
      → Runs o u s
      → Runs o u s'
  Runs-same none u s s' e q (a, b) = (e ∙ a, q ∙ b)
  Runs-same (some t) u s s' e q (k, a, b) = (k, e ∙ a, q ∙ b)

  none-Runs :
      (o : Option Task) (u : String) (s : Supervisor S)
      → lookup u s.tasks_tokens ≡ none
      → Runs o u s
      → syncers u (services s) ≡ []
  none-Runs none u s e (a, b) = b
  none-Runs (some t) u s e (k, a, b) = cc

  some-Runs :
      (o : Option Task) (u : String) (k : ℕ) (s : Supervisor S)
      → lookup u s.tasks_tokens ≡ some k
      → Runs o u s
      → (t : Task) × (syncers u (services s) ≡ (k, t) ∷ [])
  some-Runs none u k s e (a, b) = cc
  some-Runs (some t) u k s e (j, a, b) = (t, ground (arith, a, b, e))

  module _ (L : IsLawful S) where
    kept_without :
        (o : Option Task) (u : String) (k : ℕ) (s : Supervisor S)
        → Runs o u s
        → ((l : ℕ) (t : Task) → syncers u (services s) ≡ (l, t) ∷ [] → l ≢ k)
        → syncers u (S.running (S.remove k s.suture)) ≡ syncers u (services s)
    kept_without none u k s (a, b) differ =
        rw (L.running-remove k s.suture, syncers-without u k (services s), b) refl
    kept_without (some t) u k s (l, a, b) differ =
        rw (L.running-remove k s.suture, syncers-without u k (services s), b)
          (without_ne k l t (differ l t b))

    pub restart_scheduler-Tracks :
        (m : String → Option Task) (old tasks : List Task) (s : Supervisor S)
        → Tracks m old s
        → Tracks m tasks (restart_scheduler S tasks s)
    unfolding restart_scheduler start_scheduler
    restart_scheduler-Tracks m old tasks s T =
        let st = S.remove s.scheduler_token s.suture in
        let added = L.running-add (scheduler tasks) st in
        record {
          distinct =
              rw (added, IsDistinct)
                (
                  L.add_fresh (scheduler tasks) st,
                  rw (L.running-remove s.scheduler_token s.suture)
                      (IsDistinct-without s.scheduler_token (services s) T.distinct),
                );
          runs = λ u.
              Runs-same (m u) u s _ refl
                (rw added (
                  kept_without (m u) u s.scheduler_token s (T.runs u) (λ l t e.
                    scheduler_differs u s.scheduler_token l old t (services s) T.distinct
                      T.scheduled e)))
                (T.runs u);
          scheduled = rw added (
              ap (λ r. ((S.add (scheduler tasks) st).0, tasks) ∷ r)
                (rw
                  (
                    L.running-remove s.scheduler_token s.suture,
                    schedulers-without s.scheduler_token (services s),
                    T.scheduled,
                  )
                  (without_self s.scheduler_token old)));
        }

    removed-TracksBut :
        (u : String) (k : ℕ) (t : Task) (m : String → Option Task) (tasks : List Task)
        (s : Supervisor S)
        → Tracks m tasks s
        → syncers u (services s) ≡ (k, t) ∷ []
        → TracksBut u m tasks (record s { suture = S.remove k s.suture })
    removed-TracksBut u k t m tasks s T q = record {
      distinct = rw (L.running-remove k s.suture) (IsDistinct-without k (services s) T.distinct);
      stopped =
          rw (L.running-remove k s.suture, syncers-without u k (services s), q) (without_self k t);
      runs = λ v differ.
          Runs-same (m v) v s _ refl
            (kept_without (m v) v k s (T.runs v)
              (λ l y e. tokens_differ u v k l t y (services s) T.distinct q e differ))
            (T.runs v);
      scheduled =
          rw (L.running-remove k s.suture, schedulers-without k (services s), T.scheduled)
            (without_ne k s.scheduler_token tasks (λ e.
              scheduler_differs u s.scheduler_token k tasks t (services s) T.distinct T.scheduled q
                (sym e)));
    }

    pub remove_task-TracksBut :
        (u : String) (m : String → Option Task) (tasks : List Task) (s : Supervisor S)
        → Tracks m tasks s
        → TracksBut u m tasks (remove_task S u s)
    unfolding remove_task
    remove_task-TracksBut u m tasks s T = elim (Option-cases (lookup u s.tasks_tokens)) [
      | inl e ↦
          rw (e, remove_task)
            (record {
              distinct = T.distinct;
              stopped = none-Runs (m u) u s e (T.runs u);
              runs = λ v differ. T.runs v;
              scheduled = T.scheduled;
            })
      | inr (k, e) ↦
          let (t, q) = some-Runs (m u) u k s e (T.runs u) in
          rw (e, remove_task) (removed-TracksBut u k t m tasks s T q)
    ]

    pub start_task-Follows :
        (t : Task) (m : String → Option Task) (js : List (ℕ × List Task)) (s : Supervisor S)
        → FollowsBut t.uuid m js s
        → Follows (λ u. if t.uuid == u then some t else m u) js (start_task S t s)
    unfolding start_task
    start_task-Follows t m js s T =
        let added = L.running-add (syncer t) s.suture in
        record {
          distinct = rw (added, IsDistinct) (L.add_fresh (syncer t) s.suture, T.distinct);
          runs = λ u. elim (Bool-cases (t.uuid == u)) [
            | inl e ↦
                let same : t.uuid ≡ u = (eq_iff t.uuid u).0 e in
                rw (e, added)
                  (
                    (S.add (syncer t) s.suture).0,
                    rw e refl,
                    rw e (ap (λ r. ((S.add (syncer t) s.suture).0, t) ∷ r) (rw same at T.stopped)),
                  )
            | inr e ↦ rw e (
                Runs-same (m u) u s _ (rw (e, lookup-delete u t.uuid s.tasks_tokens, e) refl)
                  (rw (added, e) refl)
                  (T.runs u (λ same. ground (arith, e, eq_iff t.uuid u, same))))
          ];
          scheduled = rw added T.scheduled;
        }

    pub forget-Tracks :
        (u : String) (m : String → Option Task) (tasks : List Task) (s : Supervisor S)
        → TracksBut u m tasks s
        → Tracks (λ v. if u == v then none else m v) tasks (forget S u s)
    forget-Tracks u m tasks s T = record {
      distinct = T.distinct;
      runs = λ v. elim (Bool-cases (u == v)) [
        | inl e ↦
            let same : u ≡ v = (eq_iff u v).0 e in
            rw e (rw (lookup-delete v u s.tasks_tokens, e) refl, rw same at T.stopped)
        | inr e ↦ rw e (
            Runs-same (m v) v s _ (rw (lookup-delete v u s.tasks_tokens, e) refl) refl
              (T.runs v (λ same. ground (arith, e, eq_iff u v, same))))
      ];
      scheduled = T.scheduled;
    }
