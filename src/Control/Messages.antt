-- ===== src/Control/Messages.antt =====
-- common/common.go: `MessageFromData`, and `AllowedServiceCmd` of config/service.go. The decoder of
-- JSON is a parameter: D is the data, J a decoded value, of which the code decodes its parts again.
use cells_sync.Prelude.{
  ◌≡◌, refl, String, Bool, true, false, ◌||◌, Option, none, some, List, [], ◌∷◌, ◌⊎◌, inl, inr,
  if◌then◌else◌, ◌==◌, string_eq, eq_iff, Bool-cases,
}
use cells_sync.Config.Types.{Task, Authority}
use cells_sync.Control.State.{SyncState}
use cells_sync.Control.Http.{
  Content, cmd_content, config_content, check_request, apply_request, state_content, raw,
  SocketMessage,
}

pub record Decoder (D J : Type 0) : Type 0 where
  pub message : D → String ⊎ (String × J)  -- the error, or the type and the content
  pub cmd : J → Option (String × String)
  pub config : J → Option (String × Option Task × Option Authority)
  pub state : J → Option SyncState
  pub check : J → Option (Bool × Bool)
  pub has_package : J → Option Bool  -- is `Package` of an UpdateApplyRequest not nil?
  pub text : J → Option String  -- the type assertion to a string

abbrev is_one_of : String → List String → Bool
is_one_of s [] = false
is_one_of s (c ∷ cs) = if c == s then true else is_one_of s cs

-- `AllowedServiceCmd`
unfoldable pub allowed_service_cmd : String → Bool
allowed_service_cmd s = is_one_of s ("start" ∷ "stop" ∷ "restart" ∷ "install" ∷ "uninstall" ∷ [])

-- The command for the service of the application, when it is allowed.
abbrev pub service_cmd : Option String → Option String
service_cmd none = none
service_cmd (some s) = if allowed_service_cmd s then some s else none

module _ {D J : Type 0} (P : Decoder D J) where
  abbrev as_cmd : Option (String × String) → Content
  as_cmd none = raw
  as_cmd (some (u, c)) = cmd_content u c

  abbrev as_config : Option (String × Option Task × Option Authority) → Content
  as_config none = raw
  as_config (some (c, t, a)) = config_content c t a

  abbrev as_state : Option SyncState → Content
  as_state none = raw
  as_state (some s) = state_content s

  abbrev as_apply : Option Bool → Content
  as_apply (some true) = apply_request
  as_apply (some false) = raw
  as_apply none = raw

  abbrev as_update : Option (Bool × Bool) → Option Bool → Content
  as_update none apply = as_apply apply
  as_update (some (c, v)) apply = if c || v then check_request c v else as_apply apply

  abbrev content_of : String → J → Content
  content_of kind j =
      if kind == "CMD"
      then as_cmd (P.cmd j)
      else if kind == "CONFIG"
      then as_config (P.config j)
      else if kind == "STATE"
      then as_state (P.state j)
      else if kind == "UPDATE"
      then as_update (P.check j) (P.has_package j)
      else raw

  -- The message, and the command that is given to the service of the application.
  abbrev parsed : String ⊎ (String × J) → SocketMessage × Option String
  parsed (inl e) = (record { kind = "ERROR"; content = raw }, none)
  parsed (inr (kind, j)) = (
    record { kind = kind; content = content_of kind j },
    if kind == "SERVICE" then service_cmd (P.text j) else none,
  )

  unfoldable pub message_from_data : D → SocketMessage × Option String
  message_from_data d = parsed (P.message d)

  -- The type of the content of a message.
  abbrev kind_of : Content → Option String
  kind_of (cmd_content u c) = some "CMD"
  kind_of (config_content c t a) = some "CONFIG"
  kind_of (state_content s) = some "STATE"
  kind_of (check_request c v) = some "UPDATE"
  kind_of apply_request = some "UPDATE"
  kind_of raw = none

  -- The content was not decoded, or it has the type of messages of this kind.
  abbrev pub HasKind : String → Content → Type 0
  HasKind k c = (kind_of c ≡ none) ⊎ (kind_of c ≡ some k)

  as_cmd-HasKind : (o : Option (String × String)) → HasKind "CMD" (as_cmd o)
  as_cmd-HasKind none = inl refl
  as_cmd-HasKind (some (u, c)) = inr refl

  as_config-HasKind :
      (o : Option (String × Option Task × Option Authority)) → HasKind "CONFIG" (as_config o)
  as_config-HasKind none = inl refl
  as_config-HasKind (some (c, t, a)) = inr refl

  as_state-HasKind : (o : Option SyncState) → HasKind "STATE" (as_state o)
  as_state-HasKind none = inl refl
  as_state-HasKind (some s) = inr refl

  as_apply-HasKind : (o : Option Bool) → HasKind "UPDATE" (as_apply o)
  as_apply-HasKind none = inl refl
  as_apply-HasKind (some true) = inr refl
  as_apply-HasKind (some false) = inl refl

  as_update-HasKind :
      (o : Option (Bool × Bool)) (a : Option Bool) → HasKind "UPDATE" (as_update o a)
  as_update-HasKind none a = as_apply-HasKind a
  as_update-HasKind (some (c, v)) a = elim (Bool-cases (c || v)) [
    | inl e ↦ rw e (inr refl)
    | inr e ↦ rw e (as_apply-HasKind a)
  ]

  choice-HasKind :
      (kind k : String) (c d : Content)
      → HasKind k c
      → HasKind kind d
      → HasKind kind (if kind == k then c else d)
  choice-HasKind kind k c d here else_ = elim (Bool-cases (kind == k)) [
    | inl e ↦ rw (e, (eq_iff kind k).0 e) here
    | inr e ↦ rw e else_
  ]

  content_of-HasKind : (kind : String) (j : J) → HasKind kind (content_of kind j)
  content_of-HasKind kind j = choice-HasKind kind "CMD" _ _ (as_cmd-HasKind (P.cmd j)) (
      choice-HasKind kind "CONFIG" _ _ (as_config-HasKind (P.config j)) (
        choice-HasKind kind "STATE" _ _ (as_state-HasKind (P.state j)) (
          choice-HasKind kind "UPDATE" _ _ (as_update-HasKind (P.check j) (P.has_package j))
            (inl refl))))

  -- A command for the service of the application comes with a message of this kind, and is allowed.
  abbrev pub IsAllowed : String → Option String → Type 0
  IsAllowed kind none = Unit
  IsAllowed kind (some c) = (kind ≡ "SERVICE") × (allowed_service_cmd c ≡ true)

  service_cmd-IsAllowed : (o : Option String) → IsAllowed "SERVICE" (service_cmd o)
  service_cmd-IsAllowed none = tt
  service_cmd-IsAllowed (some s) = elim (Bool-cases (allowed_service_cmd s)) [
    | inl e ↦ rw e (refl, e)
    | inr e ↦ rw e tt
  ]

  parsed-IsAllowed :
      (kind : String) (o : Option String)
      → IsAllowed kind (if kind == "SERVICE" then service_cmd o else none)
  parsed-IsAllowed kind o = elim (Bool-cases (kind == "SERVICE")) [
    | inl e ↦ rw (e, (eq_iff kind "SERVICE").0 e) (service_cmd-IsAllowed o)
    | inr e ↦ rw e tt
  ]

  abbrev pub IsSound : SocketMessage × Option String → Type 0
  IsSound (m, c) = HasKind m.kind m.content × IsAllowed m.kind c

  parsed-IsSound : (r : String ⊎ (String × J)) → IsSound (parsed r)
  parsed-IsSound (inl e) = (inl refl, tt)
  parsed-IsSound (inr (kind, j)) = (content_of-HasKind kind j, parsed-IsAllowed kind (P.text j))

  -- The content of a message has the type of the messages of its kind, or it is a value that was not
  -- decoded further. A command reaches the service of the application only from a message of the
  -- kind SERVICE, and only if it is one of the allowed ones.
  pub message_from_data-IsSound : (d : D) → IsSound (message_from_data d)
  unfolding message_from_data
  message_from_data-IsSound d = parsed-IsSound (P.message d)
