-- ===== src/Tray/Client/Shown.antt =====
-- app/tray/client.go: the tray shows what the client knows.
use mathlib.Core.List.{Perm}
use mathlib.Core.List.Perm
use cells_sync.Prelude.{
  ◌≡◌, refl, ap, sym, ◌∙◌, arith, false, Option, none, some, List, [], ◌∷◌, ◌++◌, map, ◌==◌,
  string_eq, bool_eq, Bool-cases, inl, inr,
}
use cells_sync.Go.Order.{IsOrdered, sort_slice, sort_slice-Perm, sort_slice-IsOrdered}
use cells_sync.Control.State.{SyncState, removed}
use cells_sync.Control.State.File.{same_status}
use cells_sync.Control.Http.{
  Content, cmd_content, config_content, check_request, apply_request, state_content, raw,
  SocketMessage,
}
use cells_sync.Tray.Client.{
  Client, new_client, Effect, send_tasks, send_status, write, write_cmd, write_route,
  start_reconnect, close_conn, cancel_view, log_error, before_exit, quit, quit_later, Frame, failed,
  other, text, find, values, label, has_changed, is_removal, with_state, on_state, on_content,
  on_message, read_all, send_ordered_tasks,
}
use cells_sync.Tray.Client.Entries.{
  brief, brief_same, map-brief-put, IsEntry, AreEntries, find-IsEntry, delete-AreEntries,
  put-AreEntries,
}

-- The list that the tray got last.
abbrev pub shown_after : List SyncState → List Effect → List SyncState
shown_after shown [] = shown
shown_after shown (send_tasks ss ∷ es) = shown_after ss es
shown_after shown (_ ∷ es) = shown_after shown es

-- The list of the tray shows the tasks of the client, each once, in the order of their labels.
abbrev pub Agree : List SyncState → Client → Type 0
Agree shown c = Perm (map brief (values c.tasks)) (map brief shown) × IsOrdered label shown

abbrev pub Inv : List SyncState → Client → Type 0
Inv shown c = Agree shown c × AreEntries c.tasks

sorted-Agree : (c : Client) → Agree (sort_slice label (values c.tasks)) c
sorted-Agree c =
    (sort_slice-Perm label brief (values c.tasks), sort_slice-IsOrdered label (values c.tasks))

-- A task is removed only when it is known.
abbrev pub IsKnown : SyncState → Client → Type 0
IsKnown s c = is_removal (find s.config.uuid c.tasks) s ≡ same_status s.status removed

with_state-AreEntries :
    (s : SyncState) (c : Client)
    → IsKnown s c
    → AreEntries c.tasks
    → AreEntries (with_state (find s.config.uuid c.tasks) s c).tasks
with_state-AreEntries s c k h = elim (Bool-cases (is_removal (find s.config.uuid c.tasks) s)) [
  | inl e ↦ rw e (delete-AreEntries s.config.uuid c.tasks h)
  | inr e ↦ rw e (put-AreEntries s.config.uuid s c.tasks (refl, sym k ∙ e) h)
]

unchanged-Agree :
    (s : SyncState) (o : Option SyncState) (shown : List SyncState) (c : Client)
    → find s.config.uuid c.tasks ≡ o
    → has_changed o s ≡ false
    → Inv shown c
    → Agree shown (with_state o s c)
unchanged-Agree s none shown c e h v = cc
unchanged-Agree s (some p) shown c e h v = elim (Bool-cases (is_removal (some p) s)) [
  | inl gone ↦ absurd (ground (arith, gone, rw (ap (λ b. b.1) alike) at entry.1))
  | inr kept ↦ rw (kept, map-brief-put s.config.uuid p s c.tasks e alike) v.0
]
  where
    entry : IsEntry s.config.uuid p
    entry = find-IsEntry s.config.uuid p c.tasks v.1 e

    alike : brief p ≡ brief s
    alike = brief_same p s entry.0 h

on_state-Inv :
    (s : SyncState) (shown : List SyncState) (c : Client)
    → IsKnown s c
    → Inv shown c
    → Inv (shown_after shown (on_state s c).1) (on_state s c).0
unfolding on_state send_ordered_tasks
on_state-Inv s shown c k v = elim (Bool-cases (has_changed (find s.config.uuid c.tasks) s)) [
  | inl e ↦
      rw e (
        sorted-Agree (with_state (find s.config.uuid c.tasks) s c),
        with_state-AreEntries s c k v.1,
      )
  | inr e ↦ rw e (
    unchanged-Agree s (find s.config.uuid c.tasks) shown c refl e v,
    with_state-AreEntries s c k v.1,
  )
]

-- Of a message with a state.
abbrev pub IsKnownIn : Content → Client → Type 0
IsKnownIn (state_content s) c = IsKnown s c
IsKnownIn _ c = Unit

on_content-Inv :
    (t : Content) (shown : List SyncState) (c : Client)
    → IsKnownIn t c
    → Inv shown c
    → Inv (shown_after shown (on_content t c).1) (on_content t c).0
on_content-Inv (state_content s) shown c k v = on_state-Inv s shown c k v
on_content-Inv (cmd_content u t) shown c k v = v
on_content-Inv (config_content t k' a) shown c k v = v
on_content-Inv (check_request b r) shown c k v = v
on_content-Inv apply_request shown c k v = v
on_content-Inv raw shown c k v = v

on_message-Inv :
    (m : SocketMessage) (shown : List SyncState) (c : Client)
    → IsKnownIn m.content c
    → Inv shown c
    → Inv (shown_after shown (on_message m c).1) (on_message m c).0
unfolding on_message send_ordered_tasks
on_message-Inv m shown c k v = elim (Bool-cases (m.kind == "STATE")) [
  | inl e ↦ rw e (on_content-Inv m.content shown c k v)
  | inr e ↦ elim (Bool-cases (m.kind == "PONG")) [
    | inl e' ↦ rw (e, e') (sorted-Agree (record c { tasks = [] }), tt)
    | inr e' ↦ elim (Bool-cases (m.kind == "ERROR")) [
      | inl e'' ↦ rw (e, e', e'') v
      | inr e'' ↦ rw (e, e', e'') v
    ]
  ]
]

shown_after-append :
    (shown : List SyncState) (es es' : List Effect)
    → shown_after shown (es ++ es') ≡ shown_after (shown_after shown es) es'
shown_after-append shown [] es' = refl
shown_after-append shown (send_tasks ss ∷ es) es' = shown_after-append ss es es'
shown_after-append shown (send_status b ∷ es) es' = shown_after-append shown es es'
shown_after-append shown (write t ∷ es) es' = shown_after-append shown es es'
shown_after-append shown (write_cmd u t ∷ es) es' = shown_after-append shown es es'
shown_after-append shown (write_route t ∷ es) es' = shown_after-append shown es es'
shown_after-append shown (start_reconnect ∷ es) es' = shown_after-append shown es es'
shown_after-append shown (close_conn ∷ es) es' = shown_after-append shown es es'
shown_after-append shown (cancel_view ∷ es) es' = shown_after-append shown es es'
shown_after-append shown (log_error ∷ es) es' = shown_after-append shown es es'
shown_after-append shown (before_exit ∷ es) es' = shown_after-append shown es es'
shown_after-append shown (quit ∷ es) es' = shown_after-append shown es es'
shown_after-append shown (quit_later ∷ es) es' = shown_after-append shown es es'

abbrev pub AreKnown : List Frame → Client → Type 0
AreKnown [] c = Unit
AreKnown (failed ∷ fs) c = Unit
AreKnown (other ∷ fs) c = AreKnown fs c
AreKnown (text m ∷ fs) c = IsKnownIn m.content c × AreKnown fs (on_message m c).0

read_all-Inv :
    (fs : List Frame) (shown : List SyncState) (c : Client)
    → AreKnown fs c
    → Inv shown c
    → Inv (shown_after shown (read_all fs c).1) (read_all fs c).0
unfolding read_all
read_all-Inv [] shown c k v = v
read_all-Inv (failed ∷ fs) shown c k v = elim (Bool-cases c.closing) [
  | inl e ↦ simp e v
  | inr e ↦ simp e v
]
read_all-Inv (other ∷ fs) shown c k v = elim (Bool-cases c.closing) [
  | inl e ↦ simp e v
  | inr e ↦ simp e (read_all-Inv fs shown c k v)
]
read_all-Inv (text m ∷ fs) shown c k v = elim (Bool-cases c.closing) [
  | inl e ↦ simp e v
  | inr e ↦
      simp (e, shown_after-append)
        (read_all-Inv fs (shown_after shown (on_message m c).1) (on_message m c).0 k.1
          (on_message-Inv m shown c k.0 v))
]

-- Whatever a new client reads, what it sent to the tray last shows exactly the tasks that it knows by
-- then, with their present status and connections, in the order of their labels: although it sends
-- the list only when one of these changes. Tasks are only removed when they are known.
pub read_all-Agree :
    (fs : List Frame)
    → AreKnown fs new_client
    → Agree (shown_after [] (read_all fs new_client).1) (read_all fs new_client).0
unfolding new_client
read_all-Agree fs k = (read_all-Inv fs [] new_client k ((Perm.refl [], tt), tt)).0
