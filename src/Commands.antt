-- ===== src/Commands.antt =====
-- cmd/config.go: the commands that change the tasks, and config/http-address.go. What the prompts and
-- the network answer is a parameter; `none` is a panic.
pub mod Deleting
pub mod Address
pub mod Capture
pub mod Signals
pub mod Autotest
use cells_sync.Prelude.{
  ℕ, zero, suc, ◌+◌, ◌-◌, String, Bool, true, false, Option, none, some, List, [], ◌∷◌, ◌++◌, ◌⊎◌,
  inl, inr, if◌then◌else◌, ◌==◌, string_eq, length, get_elem?, set, take, leb,
}
use cells_sync.Config.Types.{Task}
use cells_sync.Config.Keyring.{Keyring}
use cells_sync.Config.Global.{World, save}

-- `exit`: the code of the process.
abbrev pub exit_code : String → ℕ
exit_code e = if e == "" then 0 else 1

abbrev blank_task : String → Task
blank_task uuid = record {
  uuid = uuid;
  label = "";
  left_uri = "";
  right_uri = "";
  direction = "";
  selective_roots = [];
  realtime = false;
  loop_interval = "";
  hard_interval = "";
}

-- The body of `DeleteCmd`: the chosen task changes places with the last one, which goes.
unfoldable pub swap_remove {ℓ} : {A : Type ℓ} → ℕ → List A → Option (List A)
swap_remove i ts =
    let last = length ts - 1 in
    elim (get_elem? ts last) [
      | none ↦ none
      | some l ↦ elim (get_elem? ts i) [
        | none ↦ none
        | some t ↦ some (take last (set (set ts last t) i l))
      ]
    ]

module _ (K : Keyring) where
  abbrev pub with_tasks : List Task → World K → World K
  with_tasks ts w = record w { global = record (w.global) { tasks = ts } }

  -- The save, and the code if the process exits. The error of a save has a text.
  abbrev pub saved : Bool → World K → World K × Option ℕ
  saved ok w = let (w', fine) = save K ok w in (w', if fine then none else some 1)

  abbrev add_with : Task → String ⊎ String → Bool → World K → World K × Option ℕ
  add_with t (inl e) ok w = (w, some (exit_code e))
  add_with t (inr d) ok w =
      saved ok (with_tasks (w.global.tasks ++ (record t { direction = d } ∷ [])) w)

  -- `AddCmd`
  unfoldable pub add_cmd :
      String
      → String ⊎ String
      → String ⊎ String
      → String ⊎ String
      → Bool
      → World K
      → World K × Option ℕ
  add_cmd uuid (inl e) right direction ok w = (w, some (exit_code e))
  add_cmd uuid (inr l) (inl e) direction ok w = (w, some (exit_code e))
  add_cmd uuid (inr l) (inr r) direction ok w =
      add_with (record (blank_task uuid) { left_uri = l; right_uri = r }) direction ok w

  abbrev edit_at :
      ℕ → String → String → String → Bool → World K → Option Task → Option (World K × Option ℕ)
  edit_at i l r d ok w none = none
  edit_at i l r d ok w (some t) =
      let t' = record t { left_uri = l; right_uri = r; direction = d } in
      some (saved ok (with_tasks (set w.global.tasks i t') w))

  -- The prompts of `EditCmd`, for the task at the chosen position. A prompt that fails ends the process, and
  -- what was changed in memory before is lost.
  abbrev edit_with :
      ℕ
      → String ⊎ String
      → String ⊎ String
      → String ⊎ String
      → Bool
      → World K
      → Option (World K × Option ℕ)
  edit_with i (inl e) right direction ok w = some (w, some (exit_code e))
  edit_with i (inr l) (inl e) direction ok w = some (w, some (exit_code e))
  edit_with i (inr l) (inr r) (inl e) ok w = some (w, some (exit_code e))
  edit_with i (inr l) (inr r) (inr d) ok w = edit_at i l r d ok w (get_elem? w.global.tasks i)

  -- `EditCmd`
  unfoldable pub edit_cmd :
      String ⊎ ℕ
      → String ⊎ String
      → String ⊎ String
      → String ⊎ String
      → Bool
      → World K
      → Option (World K × Option ℕ)
  edit_cmd (inl e) left right direction ok w = some (w, some (exit_code e))
  edit_cmd (inr i) left right direction ok w = elim (get_elem? w.global.tasks i) [
    | none ↦ none
    | some t ↦ edit_with i left right direction ok w
  ]

  abbrev delete_with : Bool → World K → Option (List Task) → Option (World K × Option ℕ)
  delete_with ok w none = none
  delete_with ok w (some ts) = some (saved ok (with_tasks ts w))

  -- `DeleteCmd`
  unfoldable pub delete_cmd : String ⊎ ℕ → Bool → World K → Option (World K × Option ℕ)
  delete_cmd (inl e) ok w = some (w, some (exit_code e))
  delete_cmd (inr i) ok w = delete_with ok w (swap_remove i w.global.tasks)

-- The loop of `GetHttpAddress`: the first port from `port` on that can be listened on, or 3667.
unfoldable pub first_port : ℕ → (ℕ → Bool) → ℕ → ℕ
first_port zero is_free port = port
first_port (suc fuel) is_free port =
    let rest = first_port fuel is_free (suc port) in if is_free port then port else rest

abbrev pub address : ℕ → Option ℕ
address port = if leb port 3666 then some port else none

-- `GetHttpAddress`: the port of its address, `none` is the error. There are 31 ports.
unfoldable pub get_http_address : (ℕ → Bool) → Option ℕ
get_http_address is_free = address (first_port 31 is_free 3636)
