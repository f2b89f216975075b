-- ===== src/Tray/Client/Views.antt =====
-- app/tray/client.go: what the client knows of one task.
use cells_sync.Prelude.{
  ◌≡◌, refl, ap, ◌∙◌, arith, String, false, Option, none, some, List, [], ◌∷◌, if◌then◌else◌, ◌==◌,
  string_eq, eq_iff, Bool-cases, inl, inr,
}
use cells_sync.Control.State.{SyncState, removed}
use cells_sync.Control.State.File.{same_status}
use cells_sync.Control.Http.{
  Content, cmd_content, config_content, check_request, apply_request, state_content, raw,
  SocketMessage,
}
use cells_sync.Tray.Client.{
  Client, Frame, failed, other, text, find, delete, put, is_removal, with_state, on_state,
  on_content, on_message, read_all,
}

module _ {A : Type 0} where
  pub find-delete :
      (u v : String) (m : List (String × A))
      → find u (delete v m) ≡ (if v == u then none else find u m)
  unfolding find delete
  find-delete u v [] = ground arith
  find-delete u v ((w, s) ∷ m) =
      ground (arith, find-delete u v m, eq_iff v u, eq_iff w u, eq_iff w v)

  pub find-put :
      (u v : String) (s : A) (m : List (String × A))
      → find u (put v s m) ≡ (if v == u then some s else find u m)
  unfolding find put
  find-put u v s [] = refl
  find-put u v s ((w, t) ∷ m) = ground (arith, find-put u v s m, eq_iff v u, eq_iff w u, eq_iff w v)

-- One task alone. A state of a task that is not known makes it known, whatever the state is; a state
-- "removed" of a known task takes it away, and any other state replaces the one before.
abbrev pub state_after : Option SyncState → SyncState → Option SyncState
state_after none s = some s
state_after (some p) s = if same_status s.status removed then none else some s

abbrev pub view_state : String → Option SyncState → SyncState → Option SyncState
view_state u p s = if s.config.uuid == u then state_after p s else p

abbrev view_content : String → Option SyncState → Content → Option SyncState
view_content u p (state_content s) = view_state u p s
view_content u p _ = p

abbrev pub view_message : String → Option SyncState → SocketMessage → Option SyncState
view_message u p m =
    if m.kind == "STATE" then view_content u p m.content else if m.kind == "PONG" then none else p

abbrev pub view_all : String → Option SyncState → List Frame → Option SyncState
view_all u p [] = p
view_all u p (failed ∷ fs) = p
view_all u p (other ∷ fs) = view_all u p fs
view_all u p (text m ∷ fs) = view_all u (view_message u p m) fs

is_removal_lem :
    (p : Option SyncState) (s : SyncState)
    → (if is_removal p s then none else some s) ≡ state_after p s
is_removal_lem none s = ground arith
is_removal_lem (some p) s = ground arith

find-with_state :
    (u : String) (s : SyncState) (c : Client)
    → find u (with_state (find s.config.uuid c.tasks) s c).tasks ≡ view_state u (find u c.tasks) s
find-with_state u s c =
    let known = is_removal_lem (find s.config.uuid c.tasks) s in
    elim (Bool-cases (is_removal (find s.config.uuid c.tasks) s)) [
      | inl e ↦
          ground (arith, e, known, find-delete u s.config.uuid c.tasks, eq_iff s.config.uuid u)
      | inr e ↦ ground (arith, e, known, find-put u s.config.uuid s c.tasks, eq_iff s.config.uuid u)
    ]

find-on_content :
    (u : String) (t : Content) (c : Client)
    → find u (on_content t c).0.tasks ≡ view_content u (find u c.tasks) t
unfolding on_state
find-on_content u (state_content s) c = find-with_state u s c
find-on_content u (cmd_content v t) c = refl
find-on_content u (config_content t k a) c = refl
find-on_content u (check_request b v) c = refl
find-on_content u apply_request c = refl
find-on_content u raw c = refl

find-on_message :
    (u : String) (m : SocketMessage) (c : Client)
    → find u (on_message m c).0.tasks ≡ view_message u (find u c.tasks) m
unfolding on_message find
find-on_message u m c = ground (arith, find-on_content u m.content c)

closing-on_content : (t : Content) (c : Client) → (on_content t c).0.closing ≡ c.closing
unfolding on_state
closing-on_content (state_content s) c = refl
closing-on_content (cmd_content v t) c = refl
closing-on_content (config_content t k a) c = refl
closing-on_content (check_request b v) c = refl
closing-on_content apply_request c = refl
closing-on_content raw c = refl

pub closing-on_message : (m : SocketMessage) (c : Client) → (on_message m c).0.closing ≡ c.closing
unfolding on_message
closing-on_message m c = ground (arith, closing-on_content m.content c)

-- While the client is not closed, and up to the first error of the socket, what it knows of a task
-- is decided by the states of that task alone, in their order, since the last PONG: it is the last one,
-- unless that takes away a task which was known.
pub find-read_all :
    (u : String) (fs : List Frame) (c : Client)
    → c.closing ≡ false
    → find u (read_all fs c).0.tasks ≡ view_all u (find u c.tasks) fs
unfolding read_all
find-read_all u [] c h = refl
find-read_all u (failed ∷ fs) c h = rw h refl
find-read_all u (other ∷ fs) c h = ground (arith, h, find-read_all u fs c h)
find-read_all u (text m ∷ fs) c h = simp h (
    find-read_all u fs (on_message m c).0 (closing-on_message m c ∙ h)
    ∙ ap (λ p. view_all u p fs) (find-on_message u m c))
