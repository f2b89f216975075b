-- ===== src/Commands/Capture.antt =====
-- cmd/capture.go: the snapshots of all tasks in JSON files. `none` is a panic, as in Endpoint/Uri.
use cells_sync.Prelude.{
  ◌≡◌, refl, String, false, Option, none, some, List, [], ◌∷◌, ◌++◌, ◌⊎◌, inl, inr, map, All,
  if◌then◌else◌, ◌==◌, string_eq, ap,
}
use cells_sync.Config.Types.{Task, Authority}
use cells_sync.Endpoint.Uri.{Factory, endpoint_from_uri}
use cells_sync.Control.Syncer.{Direction}
use cells_sync.Control.Syncer.Start.{direction_of}

-- The uuids of the tasks that were captured, and the text of `log.Fatal`, which ends the program.
pub record Captures : Type 0 where
  pub captured : List String
  pub fatal : Option String

-- `run` is `NewSync` with its snapshot factory and `Capture`: the error, if there is one.
module _ {E : Type 0} (F : Factory E) (as' : List Authority)
    (run : Task → E → E → Direction → Option String) where
  abbrev with_direction : Task → E → E → Option Direction → Option String
  with_direction t l r none = some "unsupported direction type, please use one of Bi, Left, Right"
  with_direction t l r (some d) = run t l r d

  abbrev with_right : Task → E → Option (String ⊎ E) → Option (Option String)
  with_right t l none = none
  with_right t l (some (inl e)) = some (some e)
  with_right t l (some (inr r)) = some (with_direction t l r (direction_of t.direction))

  abbrev with_left : Task → Option (String ⊎ E) → Option (Option String)
  with_left t none = none
  with_left t (some (inl e)) = some (some e)
  with_left t (some (inr l)) = with_right t l (endpoint_from_uri F as' t.right_uri t.left_uri false)

  -- The body of the loop: the text of `log.Fatal`, if it is called.
  unfoldable pub capture_task : Task → Option (Option String)
  capture_task t = with_left t (endpoint_from_uri F as' t.left_uri t.right_uri false)

  abbrev pub capture_next : Task → Option (Option String) → Option Captures → Option Captures
  capture_next t none rest = none
  capture_next t (some (some e)) rest = some (record { captured = []; fatal = some e })
  capture_next t (some none) none = none
  capture_next t (some none) (some c) = some (record c { captured = t.uuid ∷ c.captured })

  unfoldable pub capture_tasks : List Task → Option Captures
  capture_tasks [] = some (record { captured = []; fatal = none })
  capture_tasks (t ∷ ts) = capture_next t (capture_task t) (capture_tasks ts)

  -- `CaptureCmd`, for the folder that is given.
  unfoldable pub capture_cmd : String → List Task → Option Captures
  capture_cmd target ts =
      if target == ""
      then some (record {
        captured = [];
        fatal = some "Please provide a target folder for storing JSON files";
      })
      else capture_tasks ts

  -- With a folder, the tasks are captured one after another. If all go well all are captured. If one
  -- does not, the program ends with its error, and of the tasks exactly those before it have been captured,
  -- whatever comes after it.
  pub capture_cmd_lem :
      (target : String) (ts : List Task)
      → (target == "") ≡ false
      → All (λ t. capture_task t ≡ some none) ts
      → (capture_cmd target ts ≡ some (record { captured = map (λ t. t.uuid) ts; fatal = none }))
        × ((t : Task) (us : List Task) (e : String)
            → capture_task t ≡ some (some e)
            → capture_cmd target (ts ++ (t ∷ us))
              ≡ some (record { captured = map (λ t. t.uuid) ts; fatal = some e }))
  unfolding capture_cmd capture_tasks
  capture_cmd_lem target [] given h = rw given (refl, λ t us e f. rw f refl)
  capture_cmd_lem target (t ∷ ts) given (good, h) =
      let ih = capture_cmd_lem target ts given h in
      rw (given, good)
        (
          ap (capture_next t (some none)) (rw given at (ih.0)),
          λ u us e f. ap (capture_next t (some none)) (rw given at (ih.1 u us e f)),
        )
