-- ===== src/Control/Spawned/Kills.antt =====
-- control/spawned-service.go: which commands are killed.
use mathlib.Core.Path.{subst}
use cells_sync.Prelude.{
  some_injective, ℕ, suc, ◌<◌, ◌≡◌, refl, sym, ◌∙◌, String, Bool, true, false, ◌⊎◌, inl, inr,
  Option, none, some, List, [], ◌∷◌, arith, nat_eq, >>=-eq-some, Bool-cases, Option-cases,
}
use cells_sync.Go.Strings.{contains}
use cells_sync.Control.Spawned.{
  killed_text, canceled_text, Phase, idle, prepared, running, Event, serves, pipe_fails, starts,
  ends, stops, SpawnedService, new_spawned_service, is_killed, run_ended, start_error, started,
  stop_spawned, spawned_step, spawned_steps,
}

-- Numbers below a bound, each below the one before it.
abbrev pub Descends : ℕ → List ℕ → Type 0
Descends n [] = Unit
Descends n (k ∷ ks) = (k < n) × Descends k ks

-- Was `Stop` called since the last call of `Serve`?
abbrev pub stopped_since : List Event → Bool → Bool
stopped_since [] b = b
stopped_since (serves ∷ es) b = stopped_since es false
stopped_since (stops ∷ es) b = stopped_since es true
stopped_since (_ ∷ es) b = stopped_since es b

abbrev pub is_serving : Phase → Bool
is_serving idle = false
is_serving _ = true

weaken : (n m : ℕ) (ks : List ℕ) → n < suc m → Descends n ks → Descends m ks
weaken n m [] h d = tt
weaken n m (k ∷ ks) h (e, d) = (omega arith, d)

is_killed-below : (n m : ℕ) (ks : List ℕ) → n < suc m → Descends n ks → is_killed m ks ≡ false
is_killed-below n m [] h d = refl
is_killed-below n m (k ∷ ks) h (e, d) =
    let rest = is_killed-below k m ks (omega arith) d in ground arith

is_killed-head : (n : ℕ) (ks : List ℕ) → is_killed n (n ∷ ks) ≡ true
is_killed-head n ks = ground arith

-- Either no command can be killed, and the last one was if `Serve` is in it, or the last one can be.
abbrev Inv : Bool → SpawnedService → Type 0
Inv b s =
    ((s.cancel ≡ none)
      × Descends (suc s.launched) s.killed
      × (is_serving s.phase ≡ true → (is_killed s.launched s.killed ≡ true) × (b ≡ true)))
    ⊎ ((s.cancel ≡ some s.launched)
        × Descends s.launched s.killed
        × (is_serving s.phase ≡ true → b ≡ false))

below_next : (b : Bool) (s : SpawnedService) → Inv b s → Descends (suc s.launched) s.killed
below_next b s (inl (c, d, k)) = d
below_next b s (inr (c, d, k)) = weaken s.launched (suc s.launched) s.killed (omega arith) d

returned-Inv : (b : Bool) (s : SpawnedService) → Inv b s → Inv b (record s { phase = idle })
returned-Inv b s (inl (c, d, k)) = inl (c, d, λ h. cc)
returned-Inv b s (inr (c, d, k)) = inr (c, d, λ h. cc)

run_ended-Inv :
    (e : Option (List ℕ)) (b : Bool) (s : SpawnedService) → Inv b s → Inv b (run_ended e s)
unfolding run_ended
run_ended-Inv none b s i = returned-Inv b s i
run_ended-Inv (some e) b s i = elim (Bool-cases (contains e killed_text)) [
  | inl k ↦ rw k (returned-Inv b s i)
  | inr k ↦ rw k (inl (refl, below_next b s i, λ h. cc))
]

start-Inv :
    (e : Option (List ℕ)) (b : Bool) (s : SpawnedService)
    → s.phase ≡ prepared
    → Inv b s
    → Inv b (started e s)
start-Inv none b s p (inl (c, d, k)) = inl (c, d, λ h. k (rw p refl))
start-Inv none b s p (inr (c, d, k)) = inr (c, d, λ h. k (rw p refl))
start-Inv (some e) b s p i = run_ended-Inv (some e) b s i

stop-Inv :
    (w b : Bool) (s r : SpawnedService) → stop_spawned w s.cancel s ≡ some r → Inv b s → Inv true r
unfolding stop_spawned
stop-Inv w b s r h (inl (c, d, k)) =
    let e : s ≡ r = ground (arith, h, c) in subst (Inv true) e (inl (c, d, λ q. ((k q).0, refl)))
stop-Inv w b s r h (inr (c, d, k)) =
    let e : record s { killed = s.launched ∷ s.killed; cancel = none } ≡ r = ground (arith, h, c) in
    subst (Inv true) e
      (inl (refl, (omega arith, d), λ q. (is_killed-head s.launched s.killed, refl)))

after : Event → Bool → Bool
after e b = stopped_since (e ∷ []) b

step-Inv :
    (w : Bool) (e : Event) (p : Phase) (b : Bool) (s r : SpawnedService)
    → s.phase ≡ p
    → spawned_step w e p s ≡ some r
    → Inv b s
    → Inv (after e b) r
unfolding spawned_step after
step-Inv w serves idle b s r q h i =
    subst (Inv false) (some_injective h) (inr (refl, below_next b s i, λ q. refl))
step-Inv w pipe_fails prepared b s r q h i = subst (Inv b) (some_injective h) (returned-Inv b s i)
step-Inv w (starts e) prepared b s r q h i =
    subst (Inv b) (some_injective h) (start-Inv (start_error w s e) b s q i)
step-Inv w (ends e) running b s r q h i = subst (Inv b) (some_injective h) (run_ended-Inv e b s i)
step-Inv w stops p b s r q h i = stop-Inv w b s r h i
step-Inv w serves prepared b s r q h i = cc
step-Inv w serves running b s r q h i = cc
step-Inv w pipe_fails idle b s r q h i = cc
step-Inv w pipe_fails running b s r q h i = cc
step-Inv w (starts e) idle b s r q h i = cc
step-Inv w (starts e) running b s r q h i = cc
step-Inv w (ends e) idle b s r q h i = cc
step-Inv w (ends e) prepared b s r q h i = cc

stopped_since-cons :
    (e : Event) (es : List Event) (b : Bool)
    → stopped_since (e ∷ es) b ≡ stopped_since es (after e b)
unfolding after
stopped_since-cons serves es b = refl
stopped_since-cons pipe_fails es b = refl
stopped_since-cons (starts e) es b = refl
stopped_since-cons (ends e) es b = refl
stopped_since-cons stops es b = refl

steps-Inv :
    (w : Bool) (es : List Event) (b : Bool) (s r : SpawnedService)
    → spawned_steps w es s ≡ some r
    → Inv b s
    → Inv (stopped_since es b) r
unfolding spawned_steps
steps-Inv w [] b s r h i = subst (Inv b) (some_injective h) i
steps-Inv w (e ∷ es) b s r h i =
    let (m, f, g) = >>=-eq-some (spawned_step w e s.phase s) _ h in
    rw (stopped_since-cons e es b)
      (steps-Inv w es (after e b) m r g (step-Inv w e s.phase b s m refl f i))

-- Whatever happens to the service, from its creation on and until a panic of `Stop`, on Windows or not:
-- each command is killed at most once, the commands being numbered in the order of the calls of
-- `Serve`; and while `Serve` is in a call, its command has been killed if and only if `Stop`
-- was called since that call began.
pub spawned_steps-killed :
    (windows : Bool) (es : List Event) (name : String) (args : List String) (s : SpawnedService)
    → spawned_steps windows es (new_spawned_service name args) ≡ some s
    → Descends (suc s.launched) s.killed
      × (is_serving s.phase ≡ true → is_killed s.launched s.killed ≡ stopped_since es false)
unfolding new_spawned_service
spawned_steps-killed windows es name args s h =
    elim (steps-Inv windows es false (new_spawned_service name args) s h
      (inl (refl, tt, λ q. cc))) [
        | inl (c, d, k) ↦ (d, λ q. (k q).0 ∙ sym (k q).1)
        | inr (c, d, k) ↦ (
          weaken s.launched (suc s.launched) s.killed (omega arith) d,
          λ q. is_killed-below s.launched s.launched s.killed (omega arith) d ∙ sym (k q),
        )
      ]

-- Elsewhere than on Windows no call of `Stop` panics.
stop-returns :
    (s : SpawnedService) → (r : SpawnedService) × (spawned_step false stops s.phase s ≡ some r)
unfolding spawned_step stop_spawned
stop-returns s = elim (Option-cases s.cancel) [
  | inl e ↦ (s, rw e refl)
  | inr (n, e) ↦ (record s { killed = n ∷ s.killed; cancel = none }, rw e refl)
]

-- A `Stop` that comes before the process: on Windows it panics, and elsewhere `Serve` does, with an error
-- that does not speak of a kill.
stop-early :
    (name : String) (args : List String)
    → (spawned_steps true (serves ∷ stops ∷ []) (new_spawned_service name args) ≡ none)
      × ((r : SpawnedService) × (spawned_steps false
              (serves ∷ stops ∷ starts none ∷ [])
              (new_spawned_service name args)
            ≡ some r)
          × (r.panics ≡ canceled_text ∷ []))
unfolding spawned_steps spawned_step new_spawned_service stop_spawned run_ended contains
stop-early name args = (refl, (_, refl, refl))
