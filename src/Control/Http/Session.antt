-- ===== src/Control/Http/Session.antt =====
-- control/http-server.go, config/defaults.go and control/supervisor.go together: what the messages of the
-- web socket do to the tasks. The events of a message are handled before the next message.
use cells_sync.Prelude.{
  Bool, map, ◌≡◌, ◌≢◌, refl, ap, String, true, Option, none, some, List, [], ◌∷◌, ◌++◌, arith, ◌==◌,
  string_eq, eq_iff, Bool-cases, inl, inr,
}
use cells_sync.Config.Types.{Task, Authority}
use cells_sync.Config.Keyring.{Keyring}
use cells_sync.Config.Global.{World}
use cells_sync.Config.Global.Tasks.{Command, create, edit, delete, find}
use cells_sync.Control.Http.{
  Content, cmd_content, config_content, check_request, apply_request, state_content, raw,
  SocketMessage, Effect, create_task, update_task, remove_task, task_command, handle_cmd,
  handle_config, handle_update, handle_socket, authority_command,
}
use cells_sync.Control.Supervisor.{Suture, Supervisor}
use cells_sync.Control.Supervisor.Running.{IsLawful}
use cells_sync.Control.Supervisor.Agreement.{
  change_by, AreSound, Agree, run_commands, run_commands-Agree,
}

-- The change of the tasks that an effect is.
abbrev pub command_of : Effect → List Command
command_of (create_task t) = create t ∷ []
command_of (update_task t) = edit t ∷ []
command_of (remove_task t) = delete t ∷ []
command_of _ = []

abbrev pub commands_of : List Effect → List Command
commands_of [] = []
commands_of (e ∷ es) = command_of e ++ commands_of es

-- A message, with what `uuid.New()` gives for it and whether the file can be written.
pub record Exchange : Type 0 where
  pub new_uuid : String
  pub saved : Bool
  pub message : SocketMessage

-- What a message changes: at most one task, so one outcome of the save.
unfoldable pub exchange_commands : Exchange → List (Command × Bool)
exchange_commands t = map (λ c. (c, t.saved)) (commands_of (handle_socket t.new_uuid t.message))

unfoldable pub session_commands : List Exchange → List (Command × Bool)
session_commands [] = []
session_commands (t ∷ ts) = exchange_commands t ++ session_commands ts

route_none : (u text : String) → commands_of (handle_cmd (cmd_content u text)) ≡ []
unfolding handle_cmd
route_none u text = ground arith

authority_none : (c : String) (a : Option Authority) → commands_of (authority_command c a) ≡ []
authority_none c none = refl
authority_none c (some a) = ground arith

update_none : (m : Content) → commands_of (handle_update m) ≡ []
unfolding handle_update
update_none (check_request c v) = ground arith
update_none apply_request = refl
update_none (cmd_content u text) = refl
update_none (config_content c t a) = refl
update_none (state_content s) = refl
update_none raw = refl

-- The content of the message edits the task.
abbrev pub Edits : SocketMessage → Task → Type 0
Edits m t = (a : Option Authority) × (m.content ≡ config_content "edit" (some t) a)

-- A new uuid is new, and a task that is edited is there.
abbrev pub IsFair : String → SocketMessage → List Task → Type 0
IsFair u m tasks = (find u tasks ≡ none) × ((t : Task) → Edits m t → find t.uuid tasks ≢ none)

module _ (S : Suture) (L : IsLawful S) (K : Keyring) where
  abbrev pub changed : List (Command × Bool) → World K → World K
  changed [] w = w
  changed ((c, ok) ∷ cs) w = changed cs (change_by S L K c ok w)

  -- Every message is fair at its turn, and the file can be written.
  abbrev pub AreFair : List Exchange → World K → Type 0
  AreFair [] w = Unit
  AreFair (t ∷ ts) w =
      IsFair t.new_uuid t.message w.global.tasks
      × (t.saved ≡ true)
      × AreFair ts (changed (exchange_commands t) w)

  AreSound-append :
      (cs ds : List (Command × Bool)) (w : World K)
      → AreSound S L K cs w
      → AreSound S L K ds (changed cs w)
      → AreSound S L K (cs ++ ds) w
  AreSound-append [] ds w h k = k
  AreSound-append ((c, ok) ∷ cs) ds w h k =
      (h.0, h.1, AreSound-append cs ds (change_by S L K c ok w) h.2 k)

  -- All of them saved.
  abbrev AreSaved : List Command → World K → Type 0
  AreSaved cs w = AreSound S L K (map (λ c. (c, true)) cs) w

  task_command-AreSound :
      (u c : String) (t : Task) (w : World K)
      → find u w.global.tasks ≡ none
      → (c ≡ "edit" → find t.uuid w.global.tasks ≢ none)
      → AreSaved (commands_of (task_command u c t)) w
  task_command-AreSound u c t w new known = elim (Bool-cases (c == "create")) [
    | inl e ↦ rw e (new, refl, tt)
    | inr a ↦ elim (Bool-cases (c == "edit")) [
      | inl e ↦ rw (a, e) (known ((eq_iff c "edit").0 e), refl, tt)
      | inr b ↦ elim (Bool-cases (c == "delete")) [
        | inl e ↦ rw (a, b, e) (tt, refl, tt)
        | inr d ↦ rw (a, b, d) tt
      ]
    ]
  ]

  handle_config-AreSound :
      (u k : String) (m : Content) (w : World K)
      → IsFair u (record { kind = k; content = m }) w.global.tasks
      → AreSaved (commands_of (handle_config u m)) w
  unfolding handle_config
  handle_config-AreSound u k (config_content c (some t) a) w (new, known) =
      task_command-AreSound u c t w new (λ e. known t (a, ap (λ x. config_content x (some t) a) e))
  handle_config-AreSound u k (config_content c none a) w h = rw (authority_none c a) tt
  handle_config-AreSound u k (cmd_content v text) w h = tt
  handle_config-AreSound u k (check_request c v) w h = tt
  handle_config-AreSound u k apply_request w h = tt
  handle_config-AreSound u k (state_content s) w h = tt
  handle_config-AreSound u k raw w h = tt

  cmd_none : (m : Content) → commands_of (handle_cmd m) ≡ []
  unfolding handle_cmd
  cmd_none (cmd_content u text) = route_none u text
  cmd_none (config_content c t a) = refl
  cmd_none (check_request c v) = refl
  cmd_none apply_request = refl
  cmd_none (state_content s) = refl
  cmd_none raw = refl

  handle_socket-AreSound :
      (u : String) (m : SocketMessage) (w : World K)
      → IsFair u m w.global.tasks
      → AreSaved (commands_of (handle_socket u m)) w
  unfolding handle_socket
  handle_socket-AreSound u m w h = elim (Bool-cases (m.kind == "PING")) [
    | inl e ↦ rw e tt
    | inr a ↦ elim (Bool-cases (m.kind == "WEBVIEW_ROUTE")) [
      | inl e ↦ rw (a, e) tt
      | inr b ↦ elim (Bool-cases (m.kind == "CMD")) [
        | inl e ↦ rw (a, b, e, cmd_none m.content) tt
        | inr c ↦ elim (Bool-cases (m.kind == "CONFIG")) [
          | inl e ↦ rw (a, b, c, e) (handle_config-AreSound u m.kind m.content w h)
          | inr d ↦ elim (Bool-cases (m.kind == "UPDATE")) [
            | inl e ↦ rw (a, b, c, d, e, update_none m.content) tt
            | inr f ↦ rw (a, b, c, d, f) tt
          ]
        ]
      ]
    ]
  ]

  session_commands-AreSound :
      (ts : List Exchange) (w : World K) → AreFair ts w → AreSound S L K (session_commands ts) w
  unfolding session_commands exchange_commands
  session_commands-AreSound [] w h = tt
  session_commands-AreSound (t ∷ ts) w h =
      AreSound-append (exchange_commands t) (session_commands ts) w
        (rw h.1 (handle_socket-AreSound t.new_uuid t.message w h.0))
        (session_commands-AreSound ts _ h.2)

  -- Let the services that run agree with the configuration. Let messages of the web socket come one after
  -- the other, each after the supervisor has handled the events of the one before, and let every save
  -- succeed. If each new uuid is new and a task is edited only while it is there, then they agree
  -- again. A message that creates a task may carry any uuid, also that of another task.
  pub session-Agree :
      (ts : List Exchange) (w : World K) (s : Supervisor S)
      → AreFair ts w
      → Agree S L K w s
      → Agree S L K
          (run_commands S L K (session_commands ts) w s).0
          (run_commands S L K (session_commands ts) w s).1
  session-Agree ts w s fair agrees =
      run_commands-Agree S L K (session_commands ts) w s (session_commands-AreSound ts w fair)
        agrees
