-- ===== src/Examples/Browsing.antt =====
-- The theorems on the folders of endpoints, the icon, the views and the captures at concrete inputs.
use cells_sync.Prelude.{
  ℕ, ◌≡◌, refl, String, Bool, true, false, Option, none, some, List, [], ◌∷◌, inl, inr, nat_eq,
  string_eq,
}
use cells_sync.Config.Types.{Task}
use cells_sync.Go.Strings.{begins, split, split_from, join}
use cells_sync.Endpoint.Uri.{endpoint_from_uri, default_dir_for_uri}
use cells_sync.Control.Http.Trees.{Node, listed}
use cells_sync.Control.Http.Trees.Folders.{
  Access, create, folder_at, default_dir, parse_tree_request,
}
use cells_sync.Control.Http.Trees.Default.{default_dir-again}
use cells_sync.Tray.Menu.{icon_active, icon_error}
use cells_sync.Tray.Animation.{
  Animation, Tick, sends, takes, ticks, animate_all, animate, still, in_error,
}
use cells_sync.Tray.Animation.Drawn.{DepictsAny, last_sent, animate_all-Depicts}
use cells_sync.Commands.Capture.{capture_task}
use cells_sync.Control.Syncer.Start.{direction_of}
use cells_sync.Examples.Values.{task}
use cells_sync.Examples.Uris.{factory}

-- An endpoint that has no folder, and the same one with every folder.
abbrev access : Bool → Access String
access has_all = record {
  source = λ e. record {
    load_node = λ p. elim has_all [ true ↦ inr (folder_at p) | false ↦ inl "not found" ];
    walk = λ p. none;
  };
  target = λ e. some (record { uri = []; create_node = λ p. none });
}

abbrev text : List ℕ → String
text s = "fs://"

abbrev home : Option (List ℕ)
home = some (b'h' ∷ [])

abbrev cells : List ℕ
cells = b'h' ∷ b'/' ∷ b'C' ∷ b'e' ∷ b'l' ∷ b'l' ∷ b's' ∷ []

created :
    default_dir (factory "fs") text (access false) home (b'/' ∷ []) [] (inr ([], []))
    ≡ some (create cells ∷ [], listed (folder_at cells) [])
unfolding default_dir parse_tree_request endpoint_from_uri default_dir_for_uri split split_from
    begins join
created = refl

default_dir-again_example :
    (m : Node) × (default_dir (factory "fs") text (access true) home (b'/' ∷ []) [] (inr ([], []))
      ≡ some ([], listed m []))
    × (m.path ≡ cells)
default_dir-again_example =
    default_dir-again (factory "fs") text (access false) (access true) (create cells ∷ [])
      (folder_at cells) [] home (b'/' ∷ []) [] (inr ([], [])) created
      (λ ep d h. (folder_at d, refl))

-- "c:\a", and its child "/b".
abbrev c_drive : List ℕ
c_drive = b'/' ∷ b'c' ∷ b':' ∷ 92 ∷ b'a' ∷ []

abbrev drawn : Animation
drawn = record { channel = none; crt = some icon_error; toggler = true; drawn = in_error }

abbrev life : List Tick
life = sends icon_active ∷ takes ∷ ticks ∷ sends icon_error ∷ takes ∷ []

lives : animate_all life still ≡ some drawn
unfolding animate_all animate still
lives = refl

animate_all-Depicts_example : DepictsAny (last_sent life none) drawn.drawn
animate_all-Depicts_example = animate_all-Depicts life drawn lives refl

abbrev captured_task : Task
captured_task = record task { direction = "Bi" }

captures : capture_task (factory "fs") [] (λ t l r d. none) captured_task ≡ some none
unfolding capture_task endpoint_from_uri direction_of
captures = refl
