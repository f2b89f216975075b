-- ===== src/Control/State/Disk.antt =====
-- control/sync-state.go: what the state file holds after updates and goroutines have run.
use cells_sync.Prelude.{
  ℕ, ◌+◌, ◌<◌, ◌≤◌, ◌≡◌, ◌≢◌, refl, sym, ap, ◌∙◌, Bool, true, false, Option, none, some, List, [],
  ◌∷◌, arith, length, All, ◌>>=◌, inl, inr, if◌then◌else◌, Bool-cases,
}
use cells_sync.Go.Strconv.{itoa, atoi, atoi-itoa, itoa-digit}
use cells_sync.Control.State.{TaskStatus, update_sync_status}
use cells_sync.Control.State.File.{
  FileStateStore, Action, test, send, write, finish, trim, write_at_start, read_last_state, act,
  act_all, file_update_sync_status, close, same_status,
}

-- No goroutine is left, and the file is open.
pub record IsDrained (f : FileStateStore) : Type 0 where
  pub opened : f.file_error ≡ false
  pub none_starting : f.starting ≡ []
  pub none_sending : f.sending ≡ []
  pub none_waiting : f.file_state ≡ none
  pub not_done : f.done ≡ false
  pub not_closed : f.file_closed ≡ false
  pub no_panic : f.panicked ≡ false

same_status_ne : (a b : TaskStatus) → a ≢ b → same_status a b ≡ false
same_status_ne a b h = ground arith

same_status_eq : (a b : TaskStatus) → a ≡ b → same_status a b ≡ true
same_status_eq a b h = ground arith

same_status-eq : (a b : TaskStatus) → same_status a b ≡ true → a ≡ b
same_status-eq a b h = ground arith

-- A digit stays when newlines are trimmed.
trim-digit : (n : ℕ) → trim ((48 + n) ∷ []) ≡ (48 + n) ∷ []
unfolding trim
trim-digit n = ground arith

write_at_start-short :
    (c : ℕ) (old : List ℕ) → length old ≤ 1 → write_at_start (c ∷ []) old ≡ c ∷ []
unfolding write_at_start
write_at_start-short c [] h = refl
write_at_start-short c (d ∷ []) h = refl
write_at_start-short c (d ∷ e ∷ ds) h = absurd (omega arith)

-- The schedule in which the goroutine of an update runs to its end.
abbrev pub run_out : List Action
run_out = test 0 ∷ send 0 ∷ write ∷ []

-- The schedule in which the goroutine of the second update is faster.
abbrev pub overtaking : List Action
overtaking = test 0 ∷ test 0 ∷ send 1 ∷ write ∷ send 0 ∷ write ∷ []

-- The schedule in which the listener ends between a goroutine's test and its send.
abbrev pub late : List Action
late = test 0 ∷ finish ∷ send 0 ∷ []

module _ (code : TaskStatus → ℕ) (of_int : Bool × ℕ → TaskStatus) where
  -- The number of the status has one digit, and stands for the status.
  abbrev pub IsWritten : TaskStatus → Type 0
  IsWritten s = (code s < 10) × (of_int (false, code s) ≡ s)

  -- The file holds one byte at most, and reads back as the current status.
  abbrev pub Agrees : FileStateStore → Type 0
  Agrees f = (length f.file ≤ 1) × (read_last_state code of_int (some f.file) ≡ f.mem.state.status)

  read-digit :
      (s : TaskStatus) → IsWritten s → read_last_state code of_int (some ((48 + code s) ∷ [])) ≡ s
  unfolding read_last_state
  read-digit s w =
      let e : atoi (trim ((48 + code s) ∷ [])) ≡ some (false, code s) =
        ap atoi (trim-digit (code s) ∙ sym (itoa-digit (code s) w.0))
        ∙ atoi-itoa (code s) (omega (arith, w.0)) in
      rw e w.1

  settled : TaskStatus → FileStateStore → FileStateStore
  settled s f = record f {
    mem = update_sync_status s f.mem;
    file = write_at_start (itoa (code s)) f.file;
  }

  run_out_lem :
      (s : TaskStatus) (f : FileStateStore)
      → IsDrained f
      → same_status f.mem.state.status s ≡ false
      → act_all code of_int run_out (file_update_sync_status s f) ≡ some (settled s f)
  unfolding act_all act file_update_sync_status settled
  run_out_lem s f d new = ground arith

  settled-Agrees :
      (s : TaskStatus) (f : FileStateStore) → IsWritten s → Agrees f → Agrees (settled s f)
  unfolding settled update_sync_status
  settled-Agrees s f w h =
      rw (itoa-digit (code s) w.0, write_at_start-short (48 + code s) f.file h.0)
        (omega arith, read-digit s w)

  settled-IsDrained : (s : TaskStatus) (f : FileStateStore) → IsDrained f → IsDrained (settled s f)
  unfolding settled
  settled-IsDrained s f d = ground arith

  status-settled : (s : TaskStatus) (f : FileStateStore) → (settled s f).mem.state.status ≡ s
  unfolding settled update_sync_status
  status-settled s f = refl

  -- One update, and the goroutine that it starts if the status is new.
  abbrev schedule : Bool → List Action
  schedule same = if same then [] else run_out

  unfoldable pub update_in_turn : List TaskStatus → FileStateStore → Option FileStateStore
  unfolding act_all act file_update_sync_status
  update_in_turn [] f = some f
  update_in_turn (s ∷ ss) f = do
    g ←
        act_all code of_int (schedule (same_status f.mem.state.status s))
          (file_update_sync_status s f)
    update_in_turn ss g

  abbrev pub last_status : TaskStatus → List TaskStatus → TaskStatus
  last_status s [] = s
  last_status s (t ∷ ts) = last_status t ts

  unchanged :
      (s : TaskStatus) (f : FileStateStore)
      → same_status f.mem.state.status s ≡ true
      → file_update_sync_status s f ≡ f
  unfolding file_update_sync_status update_sync_status
  unchanged s f same = ground arith

  one_update :
      (s : TaskStatus) (f : FileStateStore)
      → IsWritten s
      → IsDrained f
      → Agrees f
      → (g : FileStateStore) × (act_all code of_int
            (schedule (same_status f.mem.state.status s))
            (file_update_sync_status s f)
          ≡ some g)
        × IsDrained g
        × Agrees g
        × (g.mem.state.status ≡ s)
  one_update s f w d h = elim (Bool-cases (same_status f.mem.state.status s)) [
    | inl same ↦
        (f, rw (same, unchanged s f same) (unfold act_all in refl), d, h, same_status-eq _ s same)
    | inr new ↦ (
      settled s f,
      rw new (run_out_lem s f d new),
      settled-IsDrained s f d,
      settled-Agrees s f w h,
      status-settled s f,
    )
  ]

  -- Let the updates of the status come one after the other, each when the goroutine of the one
  -- before has run to its end, on an open store whose file agrees with its status. If the number of
  -- every new status is one digit, then all the writes go through, and the file reads back as the
  -- last status.
  pub update_in_turn-Agrees :
      (ss : List TaskStatus) (f : FileStateStore)
      → All IsWritten ss
      → IsDrained f
      → Agrees f
      → (g : FileStateStore) × (update_in_turn ss f ≡ some g)
        × IsDrained g
        × Agrees g
        × (g.mem.state.status ≡ last_status f.mem.state.status ss)
  unfolding update_in_turn
  update_in_turn-Agrees [] f w d h = (f, refl, d, h, refl)
  update_in_turn-Agrees (s ∷ ss) f w d h =
      let (g, run, d', h', now) = one_update s f w.0 d h in
      let (k, run', d'', h'', end) = update_in_turn-Agrees ss g w.1 d' h' in
      (k, rw run run', d'', h'', end ∙ ap (λ s. last_status s ss) now)

  abbrev overtaken : TaskStatus → TaskStatus → FileStateStore → FileStateStore
  overtaken a b f = record f {
    mem = update_sync_status b (update_sync_status a f.mem);
    file = write_at_start (itoa (code a)) (write_at_start (itoa (code b)) f.file);
  }

  overtaking_lem :
      (a b : TaskStatus) (f : FileStateStore)
      → IsDrained f
      → same_status f.mem.state.status a ≡ false
      → same_status a b ≡ false
      → act_all code of_int overtaking (file_update_sync_status b (file_update_sync_status a f))
        ≡ some (overtaken a b f)
  unfolding act_all act file_update_sync_status update_sync_status
  overtaking_lem a b f d new differ = ground arith

  -- Two updates in a row, to a new status a and then to another status b, may leave the file with a
  -- while the store is in b: the goroutines that carry the statuses to the file are not ordered.
  pub file_may_be_stale :
      (a b : TaskStatus) (f : FileStateStore)
      → IsWritten a
      → IsWritten b
      → IsDrained f
      → length f.file ≤ 1
      → f.mem.state.status ≢ a
      → a ≢ b
      → (g : FileStateStore) × (act_all code of_int overtaking
            (file_update_sync_status b (file_update_sync_status a f))
          ≡ some g)
        × (g.mem.state.status ≡ b)
        × (read_last_state code of_int (some g.file) ≡ a)
  file_may_be_stale a b f wa wb d h new differ = (
    overtaken a b f,
    overtaking_lem a b f d (same_status_ne _ a new) (same_status_ne a b differ),
    unfold update_sync_status in refl,
    rw
        (
          itoa-digit (code a) wa.0,
          itoa-digit (code b) wb.0,
          write_at_start-short (48 + code b) f.file h,
          write_at_start-short (48 + code a) ((48 + code b) ∷ []) (omega arith),
        )
        (read-digit a wa),
  )

  -- Let the store be closed right after an update to a new status. If the goroutine of the update
  -- reads `fileClosed` before the listener ends, and sends after it, then it panics.
  pub late_send_panics :
      (s : TaskStatus) (f : FileStateStore)
      → IsDrained f
      → f.mem.state.status ≢ s
      → (g : FileStateStore) × (act_all code of_int late (close (file_update_sync_status s f))
          ≡ some g)
        × (g.panicked ≡ true)
  unfolding act_all act file_update_sync_status update_sync_status close
  late_send_panics s f d new = (
    record f { mem = update_sync_status s f.mem; done = true; file_closed = true; panicked = true },
    ground (arith, same_status_ne _ s new),
    refl,
  )
