-- ===== src/Control/Http/Trees/Folders.antt =====
-- control/http-handler-tree.go: the request and its endpoint, the creation of a folder, and the default
-- folder. JSON and the endpoints are parameters; `none` is a panic, as in Endpoint/Uri.
use cells_sync.Prelude.{
  ℕ, String, Bool, true, false, ◌&&◌, Option, none, some, List, [], ◌∷◌, ◌⊎◌, inl, inr,
  if◌then◌else◌,
}
use cells_sync.Config.Types.{Authority}
use cells_sync.Go.Strings.{begins}
use cells_sync.Endpoint.Uri.{ParsedUri, Factory, endpoint_from_uri, default_dir_for_uri}
use cells_sync.Control.Http.Trees.{
  Node, TreeRequest, TreeSource, Response, failed, listed, apply_windows_transformation, ls,
}

-- `model.PathSyncTarget`: `create_node` gives the error, if there is one.
pub record Target : Type 0 where
  pub uri : List ℕ
  pub create_node : List ℕ → Option String

-- What the handlers read of an endpoint; `target` is `none` if it is none.
pub record Access (E : Type 0) : Type 0 where
  pub source : E → TreeSource
  pub target : E → Option Target

-- The calls that change the endpoint or wait for it.
pub data FolderCall : Type 0 where
  create : List ℕ → FolderCall
  wait_for : List ℕ → FolderCall

abbrev pub folder_at : List ℕ → Node
folder_at p = record { path = p; uuid = []; is_leaf = false; is_collection = true }

-- "fs://"
abbrev pub fs_scheme : List ℕ
fs_scheme = b'f' ∷ b's' ∷ b':' ∷ b'/' ∷ b'/' ∷ []

abbrev pub http : List ℕ
http = b'h' ∷ b't' ∷ b't' ∷ b'p' ∷ []

abbrev pub path_of : String ⊎ ParsedUri → String ⊎ List ℕ
path_of (inl e) = inl e
path_of (inr u) = inr u.path

-- `text` is the string of some bytes.
module _ {E : Type 0} (F : Factory E) (text : List ℕ → String) where
  abbrev pub transformed : TreeRequest → String ⊎ TreeRequest
  transformed r =
      if begins fs_scheme r.endpoint_uri && F.is_windows
      then apply_windows_transformation (path_of (F.parse (text r.endpoint_uri))) r
      else inr r

  abbrev with_endpoint : TreeRequest → Option (String ⊎ E) → Option (String ⊎ (TreeRequest × E))
  with_endpoint r none = none
  with_endpoint r (some (inl e)) = some (inl e)
  with_endpoint r (some (inr ep)) = some (inr (r, ep))

  abbrev with_request : List Authority → String ⊎ TreeRequest → Option (String ⊎ (TreeRequest × E))
  with_request as' (inl e) = some (inl e)
  with_request as' (inr r) = with_endpoint r (endpoint_from_uri F as' (text r.endpoint_uri) "" true)

  -- `parseTreeRequest`, for the two fields of the body or the error of its decoder.
  unfoldable pub parse_tree_request :
      List Authority → String ⊎ (List ℕ × List ℕ) → Option (String ⊎ (TreeRequest × E))
  parse_tree_request as' (inl e) = some (inl e)
  parse_tree_request as' (inr (uri, path)) = with_request as' (
      transformed (record {
        endpoint_uri = uri;
        path = path;
        windows_drive = [];
        browse_win_volumes = false;
      }))

  -- A handler, once the request is parsed.
  abbrev pub handled :
      (TreeRequest → E → List FolderCall × Response)
      → Option (String ⊎ (TreeRequest × E))
      → Option (List FolderCall × Response)
  handled f none = none
  handled f (some (inl e)) = some ([], failed e)
  handled f (some (inr (r, ep))) = some (f r ep)

  module _ (A : Access E) where
    abbrev pub created : TreeRequest → Target → Option String → List FolderCall × Response
    created r t (some e) = (create r.path ∷ [], failed e)
    created r t none = (
      create r.path ∷ (if begins http t.uri then wait_for r.path ∷ [] else []),
      listed (folder_at r.path) [],
    )

    abbrev pub make : TreeRequest → Option Target → List FolderCall × Response
    make r none = ([], failed "cannot.write")
    make r (some t) = created r t (t.create_node r.path)

    abbrev pub shown : List ℕ → List ℕ → Option Target → List FolderCall × Response
    shown output dir none = ([], failed "cannot.write")
    shown output dir (some t) = elim (t.create_node dir) [
      | some e ↦ (create dir ∷ [], failed e)
      | none ↦ (create dir ∷ [], listed (folder_at output) [])
    ]

    abbrev pub loaded : E → List ℕ → List ℕ → String ⊎ Node → List FolderCall × Response
    loaded ep output dir (inr n) = ([], listed (record n { path = output }) [])
    loaded ep output dir (inl e) = shown output dir (A.target ep)

    abbrev pub on_windows : E → List ℕ → String ⊎ TreeRequest → List FolderCall × Response
    on_windows ep output (inl e) =
        ([], listed (record { path = []; uuid = []; is_leaf = false; is_collection = false }) [])
    on_windows ep output (inr r) = loaded ep output r.path ((A.source ep).load_node r.path)

    abbrev pub default_at : TreeRequest → E → List ℕ → List FolderCall × Response
    default_at r ep [] =
        ([], listed (record { path = []; uuid = []; is_leaf = false; is_collection = false }) [])
    default_at r ep (c ∷ cs) =
        if F.is_windows
        then on_windows ep (b'/' ∷ c ∷ cs) (
            apply_windows_transformation (path_of (F.parse (text r.endpoint_uri)))
              (record r { path = b'/' ∷ c ∷ cs }))
        else loaded ep (c ∷ cs) (c ∷ cs) ((A.source ep).load_node (c ∷ cs))

    -- `ls`, from the body of the request.
    unfoldable pub ls_request :
        (List ℕ → List ℕ → List ℕ)
        → (List ℕ → Bool)
        → List Node
        → List Authority
        → String ⊎ (List ℕ × List ℕ)
        → Option (List FolderCall × Response)
    ls_request join hidden volumes as' body =
        handled (λ r ep. ([], ls join hidden volumes (A.source ep) r)) (parse_tree_request as' body)

    -- `mkdir`
    unfoldable pub mkdir :
        List Authority → String ⊎ (List ℕ × List ℕ) → Option (List FolderCall × Response)
    mkdir as' body = handled (λ r ep. make r (A.target ep)) (parse_tree_request as' body)

    -- `defaultDir`, for the home of the user and the separator of the file system.
    unfoldable pub default_dir :
        Option (List ℕ)
        → List ℕ
        → List Authority
        → String ⊎ (List ℕ × List ℕ)
        → Option (List FolderCall × Response)
    default_dir home sep as' body =
        handled (λ r ep. default_at r ep (default_dir_for_uri F home sep (text r.endpoint_uri)))
          (parse_tree_request as' body)
