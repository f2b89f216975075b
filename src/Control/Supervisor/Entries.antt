-- ===== src/Control/Supervisor/Entries.antt =====
-- control/supervisor.go: lists of running services with their tokens.
use cells_sync.Prelude.{
  ℕ, ◌≡◌, ◌≢◌, refl, String, Option, none, some, List, [], ◌∷◌, arith, if◌then◌else◌, ◌==◌, nat_eq,
  string_eq, eq_iff, All, Bool-cases, inl, inr,
}
use cells_sync.Config.Types.{Task}
use cells_sync.Control.Supervisor.{Service, syncer, scheduler, other}

abbrev pub Entries : Type 0
Entries = List (ℕ × Service)

-- The services for the tasks with a uuid.
abbrev pub syncers : String → Entries → List (ℕ × Task)
syncers u [] = []
syncers u ((k, syncer t) ∷ r) =
    let rest = syncers u r in if t.uuid == u then (k, t) ∷ rest else rest
syncers u ((k, scheduler ts) ∷ r) = syncers u r
syncers u ((k, other o) ∷ r) = syncers u r

abbrev pub schedulers : Entries → List (ℕ × List Task)
schedulers [] = []
schedulers ((k, syncer t) ∷ r) = schedulers r
schedulers ((k, scheduler ts) ∷ r) = (k, ts) ∷ schedulers r
schedulers ((k, other o) ∷ r) = schedulers r

-- The entries without a token.
abbrev pub without {ℓ} : {A : Type ℓ} → ℕ → List (ℕ × A) → List (ℕ × A)
without k [] = []
without k ((j, v) ∷ r) = let rest = without k r in if j == k then rest else (j, v) ∷ rest

abbrev pub IsFresh : ℕ → Entries → Type 0
IsFresh k r = All (λ (e : ℕ × Service). e.0 ≢ k) r

abbrev pub IsDistinct : Entries → Type 0
IsDistinct [] = Unit
IsDistinct ((k, v) ∷ r) = IsFresh k r × IsDistinct r

-- The service that a token stands for.
abbrev at : ℕ → Entries → Option Service
at k [] = none
at k ((j, v) ∷ r) = if j == k then some v else at k r

at-fresh : (k : ℕ) (r : Entries) → IsFresh k r → at k r ≡ none
at-fresh k [] h = refl
at-fresh k ((j, v) ∷ r) h = ground (arith, at-fresh k r h.1, h.0)

pub syncers-without :
    (u : String) (k : ℕ) (r : Entries) → syncers u (without k r) ≡ without k (syncers u r)
syncers-without u k [] = refl
syncers-without u k ((j, syncer t) ∷ r) = ground (arith, syncers-without u k r)
syncers-without u k ((j, scheduler ts) ∷ r) = ground (arith, syncers-without u k r)
syncers-without u k ((j, other o) ∷ r) = ground (arith, syncers-without u k r)

pub schedulers-without : (k : ℕ) (r : Entries) → schedulers (without k r) ≡ without k (schedulers r)
schedulers-without k [] = refl
schedulers-without k ((j, syncer t) ∷ r) = ground (arith, schedulers-without k r)
schedulers-without k ((j, scheduler ts) ∷ r) = ground (arith, schedulers-without k r)
schedulers-without k ((j, other o) ∷ r) = ground (arith, schedulers-without k r)

IsFresh-without : (j k : ℕ) (r : Entries) → IsFresh j r → IsFresh j (without k r)
IsFresh-without j k [] h = tt
IsFresh-without j k ((i, v) ∷ r) h = elim (Bool-cases (i == k)) [
  | inl e ↦ rw (e, without) (IsFresh-without j k r h.1)
  | inr e ↦ rw (e, without) (h.0, IsFresh-without j k r h.1)
]

pub IsDistinct-without : (k : ℕ) (r : Entries) → IsDistinct r → IsDistinct (without k r)
IsDistinct-without k [] h = tt
IsDistinct-without k ((i, v) ∷ r) h = elim (Bool-cases (i == k)) [
  | inl e ↦ rw (e, without) (IsDistinct-without k r h.1)
  | inr e ↦ rw (e, without) (IsFresh-without i k r h.0, IsDistinct-without k r h.1)
]

at-syncers :
    (u : String) (k : ℕ) (x : Task) (rest : List (ℕ × Task)) (r : Entries)
    → IsDistinct r
    → syncers u r ≡ (k, x) ∷ rest
    → (at k r ≡ some (syncer x)) × (x.uuid ≡ u)
at-syncers u k x rest [] d h = cc
at-syncers u k x rest ((j, syncer t) ∷ r) d h = elim (Bool-cases (t.uuid == u)) [
  | inl e ↦ (ground (arith, e, h), ground (arith, e, h, eq_iff t.uuid u))
  | inr e ↦
      let (a, q) = at-syncers u k x rest r d.1 (ground (arith, e, h)) in
      (ground (arith, a, at-fresh j r d.0), q)
]
at-syncers u k x rest ((j, scheduler ts) ∷ r) d h =
    let (a, q) = at-syncers u k x rest r d.1 h in (ground (arith, a, at-fresh j r d.0), q)
at-syncers u k x rest ((j, other o) ∷ r) d h =
    let (a, q) = at-syncers u k x rest r d.1 h in (ground (arith, a, at-fresh j r d.0), q)

at-schedulers :
    (k : ℕ) (ts : List Task) (rest : List (ℕ × List Task)) (r : Entries)
    → IsDistinct r
    → schedulers r ≡ (k, ts) ∷ rest
    → at k r ≡ some (scheduler ts)
at-schedulers k ts rest [] d h = cc
at-schedulers k ts rest ((j, scheduler us) ∷ r) d h = ground (arith, h)
at-schedulers k ts rest ((j, syncer t) ∷ r) d h =
    ground (arith, at-schedulers k ts rest r d.1 h, at-fresh j r d.0)
at-schedulers k ts rest ((j, other o) ∷ r) d h =
    ground (arith, at-schedulers k ts rest r d.1 h, at-fresh j r d.0)

-- Services of different tasks have different tokens.
pub tokens_differ :
    (u v : String) (k l : ℕ) (x y : Task) (r : Entries)
    → IsDistinct r
    → syncers u r ≡ (k, x) ∷ []
    → syncers v r ≡ (l, y) ∷ []
    → u ≢ v
    → l ≢ k
tokens_differ u v k l x y r d hx hy differ =
    let (a, q) = at-syncers u k x [] r d hx in
    let (b, p) = at-syncers v l y [] r d hy in ground (arith, a, b, q, p)

-- The scheduler and the service of a task have different tokens.
pub scheduler_differs :
    (v : String) (k l : ℕ) (ts : List Task) (y : Task) (r : Entries)
    → IsDistinct r
    → schedulers r ≡ (k, ts) ∷ []
    → syncers v r ≡ (l, y) ∷ []
    → l ≢ k
scheduler_differs v k l ts y r d hk hl =
    let (b, _) = at-syncers v l y [] r d hl in ground (arith, at-schedulers k ts [] r d hk, b)
