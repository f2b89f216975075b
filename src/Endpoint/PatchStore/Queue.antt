-- ===== src/Endpoint/PatchStore/Queue.antt =====
-- endpoint/patch-store.go: the life of a store, from `NewPatchStore` to `Stop`. The goroutine that takes the
-- patches and the callers run in any order.
use mathlib.Core.List.{append-nil}
use cells_sync.Prelude.{
  ◌≤◌, ◌≡◌, refl, ◌∙◌, Bool, true, false, Option, none, some, List, [], ◌∷◌, ◌++◌, arith,
  if◌then◌else◌, length, ◌>>=◌, >>=-eq-some,
}
use cells_sync.Endpoint.Patch.{Patch}
use cells_sync.Endpoint.PatchStore.{Codec, Bolt, persist}

pub data QueueEvent : Type 0 where
  stores : Patch → QueueEvent  -- `Store` and `PublishPatch`
  persists : QueueEvent  -- the body of the loop
  stops : QueueEvent

module _ (c : Codec) (B : Bolt) where
  -- The patch that the goroutine has taken, the database, and whether it is closed.
  pub record Queue : Type 0 where
    pub in_hand : Option Patch
    pub db : B.State
    pub stopped : Bool

  -- `NewPatchStore`
  unfoldable pub new_patch_store : B.State → Queue
  new_patch_store db = record { in_hand = none; db = db; stopped = false }

  abbrev pub take_in : Patch → Option Patch → Queue → Option Queue
  take_in p none q = some (record q { in_hand = some p })
  take_in p (some r) q = none

  -- An update of a database that is closed gives an error, which is not looked at.
  abbrev pub write_out : Option Patch → Queue → Option Queue
  write_out none q = none
  write_out (some p) q =
      some (record q { in_hand = none; db = if q.stopped then q.db else persist c B p q.db })

  -- One step; `none` where it has to wait, and for a second `Stop`, which panics.
  unfoldable pub queue_step : QueueEvent → Queue → Option Queue
  queue_step (stores p) q = take_in p q.in_hand q
  queue_step persists q = write_out q.in_hand q
  queue_step stops q = if q.stopped then none else some (record q { stopped = true })

  unfoldable pub queue_steps : List QueueEvent → Queue → Option Queue
  queue_steps [] q = some q
  queue_steps (e ∷ es) q = queue_step e q >>= λ r. queue_steps es r

  abbrev pub persist_all : List Patch → B.State → B.State
  persist_all [] s = s
  persist_all (p ∷ ps) s = persist_all ps (persist c B p s)

  persist_all-append :
      (ps : List Patch) (p : Patch) (s : B.State)
      → persist_all (ps ++ (p ∷ [])) s ≡ persist c B p (persist_all ps s)
  persist_all-append [] p s = refl
  persist_all-append (r ∷ ps) p s = persist_all-append ps p (persist c B r s)

  abbrev pub hand : Option Patch → List Patch
  hand none = []
  hand (some p) = p ∷ []

  -- The patches that were stored before the first `Stop`.
  abbrev pub accepted : List QueueEvent → List Patch
  accepted [] = []
  accepted (stores p ∷ es) = p ∷ accepted es
  accepted (persists ∷ es) = accepted es
  accepted (stops ∷ es) = []

  -- A database that is closed does not change.
  queue_step-stopped :
      (e : QueueEvent) (q r : Queue)
      → q.stopped ≡ true
      → queue_step e q ≡ some r
      → (r.stopped ≡ true) × (r.db ≡ q.db)
  unfolding queue_step
  queue_step-stopped (stores p) q r s h = (ground (arith, h, s), ground (arith, h, s))
  queue_step-stopped persists q r s h = (ground (arith, h, s), ground (arith, h, s))
  queue_step-stopped stops q r s h = (ground (arith, h, s), ground (arith, h, s))

  queue_steps-stopped :
      (es : List QueueEvent) (q r : Queue)
      → q.stopped ≡ true
      → queue_steps es q ≡ some r
      → r.db ≡ q.db
  unfolding queue_steps
  queue_steps-stopped [] q r s h = ground (arith, h)
  queue_steps-stopped (e ∷ es) q r s h =
      let (m, f, g) = >>=-eq-some (queue_step e q) _ h in
      let (t, d) = queue_step-stopped e q m s f in queue_steps-stopped es m r t g ∙ d

  -- What is stored in the end, from a queue that is open.
  abbrev Kept : Queue → List QueueEvent → Queue → Type 0
  Kept q es r =
      (ps lost : List Patch) × (r.db ≡ persist_all ps q.db)
      × (hand q.in_hand ++ accepted es ≡ ps ++ lost)
      × (length lost ≤ 1)

  length-hand : (o : Option Patch) → length (hand o) ≤ 1
  length-hand none = omega arith
  length-hand (some p) = omega arith

  Kept-stop : (q r : Queue) (es : List QueueEvent) → r.db ≡ q.db → accepted es ≡ [] → Kept q es r
  Kept-stop q r es d e =
      ([], hand q.in_hand, d, rw e (append-nil (hand q.in_hand)), length-hand q.in_hand)

  Kept-store :
      (p : Patch) (o : Option Patch) (q m r : Queue) (es : List QueueEvent)
      → q.in_hand ≡ o
      → take_in p o q ≡ some m
      → Kept m es r
      → Kept q (stores p ∷ es) r
  Kept-store p none q m r es e h (ps, lost, d, a, l) =
      (ps, lost, ground (arith, h, d), rw e (ground (arith, h, a)), l)
  Kept-store p (some x) q m r es e h k = cc

  Kept-persist :
      (o : Option Patch) (q m r : Queue) (es : List QueueEvent)
      → q.stopped ≡ false
      → q.in_hand ≡ o
      → write_out o q ≡ some m
      → Kept m es r
      → Kept q (persists ∷ es) r
  Kept-persist none q m r es s e h k = cc
  Kept-persist (some p) q m r es s e h (ps, lost, d, a, l) =
      (p ∷ ps, lost, ground (arith, h, d, s), rw e (ground (arith, h, a)), l)

  queue_steps-Kept :
      (es : List QueueEvent) (q r : Queue)
      → q.stopped ≡ false
      → queue_steps es q ≡ some r
      → Kept q es r
  unfolding queue_steps queue_step
  queue_steps-Kept [] q r s h = Kept-stop q r [] (ground (arith, h)) refl
  queue_steps-Kept (stores p ∷ es) q r s h =
      let (m, f, g) = >>=-eq-some (queue_step (stores p) q) _ h in
      Kept-store p q.in_hand q m r es refl f (queue_steps-Kept es m r (ground (arith, f, s)) g)
  queue_steps-Kept (persists ∷ es) q r s h =
      let (m, f, g) = >>=-eq-some (queue_step persists q) _ h in
      Kept-persist q.in_hand q m r es s refl f (queue_steps-Kept es m r (ground (arith, f, s)) g)
  queue_steps-Kept (stops ∷ es) q r s h =
      let (m, f, g) = >>=-eq-some (queue_step stops q) _ h in
      let t : m.stopped ≡ true = ground (arith, f, s) in
      let d : m.db ≡ q.db = ground (arith, f, s) in
      Kept-stop q r (stops ∷ es) (queue_steps-stopped es m r t g ∙ d) refl

  -- However the callers, the goroutine and a `Stop` are interleaved: the database has in the end, written
  -- in their order, the patches that were stored before the store was stopped, but for the last one
  -- at most, and nothing else. That one is lost if the goroutine has taken it and not yet written it.
  pub queue_steps-IsPrefix :
      (es : List QueueEvent) (db : B.State) (r : Queue)
      → queue_steps es (new_patch_store db) ≡ some r
      → (ps lost : List Patch) × (r.db ≡ persist_all ps db)
        × (accepted es ≡ ps ++ lost)
        × (length lost ≤ 1)
  unfolding new_patch_store
  queue_steps-IsPrefix es db r h = queue_steps-Kept es (new_patch_store db) r refl h
