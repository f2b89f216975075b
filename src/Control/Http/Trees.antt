-- ===== src/Control/Http/Trees.antt =====
-- control/http-handler-tree.go: browsing an endpoint. The endpoint and path.Join are parameters; paths are
-- bytes. The upper case of a drive is that of ASCII.
pub mod Listing
pub mod Folders
pub mod Default
pub mod Drives
use cells_sync.Prelude.{
  ℕ, ◌-◌, String, Bool, true, false, ◌&&◌, not, Option, none, some, List, [], ◌∷◌, ◌++◌, map, ◌⊎◌,
  inl, inr, if◌then◌else◌, ◌==◌, nat_eq, ltb, leb, length, take, drop,
}
use cells_sync.Go.Strings.{begins, split}

-- What the code reads and writes of a `tree.Node`.
pub record Node : Type 0 where
  pub path : List ℕ
  pub uuid : List ℕ
  pub is_leaf : Bool
  pub is_collection : Bool

-- `TreeRequest`, without its endpoint.
pub record TreeRequest : Type 0 where
  pub endpoint_uri : List ℕ
  pub path : List ℕ
  pub windows_drive : List ℕ
  pub browse_win_volumes : Bool

-- An endpoint. `walk` is `none` if it is no source, and gives what the callback gets.
pub record TreeSource : Type 0 where
  pub load_node : List ℕ → String ⊎ Node
  pub walk : List ℕ → Option (List (List ℕ × (String ⊎ Node)))

-- The error of a request, or the node and its children.
pub data Response : Type 0 where
  failed : String → Response
  listed : Node → List Node → Response

abbrev pub to_upper : ℕ → ℕ
to_upper c = if leb b'a' c && leb c b'z' then c - 32 else c

abbrev pub slashed : ℕ → ℕ
slashed c = if c == 92 then b'/' else c

abbrev pub with_drive : TreeRequest → TreeRequest
with_drive r =
    let prefix = b'/' ∷ map to_upper (take 2 (drop 1 r.path)) in
    record r {
      windows_drive = prefix ++ (b'/' ∷ []);
      path = if ltb 3 (length r.path) then map slashed (drop 3 r.path) else 92 ∷ [];
      endpoint_uri = r.endpoint_uri ++ prefix;
    }

abbrev pub with_path : TreeRequest → List ℕ → TreeRequest
with_path r [] =
    if ltb 2 (length r.path)
    then with_drive r
    else record r { path = b'/' ∷ []; browse_win_volumes = true }
with_path r (c ∷ cs) = record r { browse_win_volumes = false }

-- `applyWindowsTransformation`, given the path of the parsed URI or the error.
unfoldable pub apply_windows_transformation : String ⊎ List ℕ → TreeRequest → String ⊎ TreeRequest
apply_windows_transformation (inl e) r = inl e
apply_windows_transformation (inr path) r = inr (with_path r path)

-- `path.Base`: the last element of a path, without the slashes behind it.
abbrev trim_slashes : List ℕ → List ℕ
trim_slashes [] = []
trim_slashes (c ∷ s) = elim (trim_slashes s) [
  | [] ↦ if c == b'/' then [] else c ∷ []
  | d ∷ ds ↦ c ∷ d ∷ ds
]

abbrev last_piece : List (List ℕ) → List ℕ
last_piece [] = []
last_piece (p ∷ []) = p
last_piece (p ∷ q ∷ ps) = last_piece (q ∷ ps)

abbrev base_of : List ℕ → List ℕ
base_of [] = b'/' ∷ []
base_of (c ∷ s) = last_piece (split (c ∷ s) (b'/' ∷ []))

unfoldable pub base : List ℕ → List ℕ
base [] = b'.' ∷ []
base (c ∷ s) = base_of (trim_slashes (c ∷ s))

abbrev pub is_dotted : List ℕ → Bool
is_dotted p = begins (b'.' ∷ []) (base p)

module _ (join : List ℕ → List ℕ → List ℕ) (hidden : List ℕ → Bool) where
  abbrev on_drive : List ℕ → List ℕ → Node → List ℕ × Node
  on_drive [] p n = (p, n)
  on_drive (c ∷ d) p n = (join (c ∷ d) p, record n { path = join (c ∷ d) p })

  -- "DATASOURCE:"
  abbrev pub fixed : Node → Node
  fixed n =
      if begins (b'D' ∷ b'A' ∷ b'T' ∷ b'A' ∷ b'S' ∷ b'O' ∷ b'U' ∷ b'R' ∷ b'C' ∷ b'E' ∷ b':' ∷ [])
        n.uuid
      then record n { is_collection = true; is_leaf = false }
      else n

  -- The callback of the walk. `hidden` is the comparison with the name of the hidden file of the library.
  abbrev child : List ℕ → List ℕ × (String ⊎ Node) → List Node
  child drive (p, inl e) = []
  child drive (p, inr n) =
      let (p', n') = on_drive drive p n in
      if not (hidden (base p')) && not (is_dotted p') then fixed n' ∷ [] else []

  unfoldable pub children : List ℕ → List (List ℕ × (String ⊎ Node)) → List Node
  children drive [] = []
  children drive (x ∷ xs) = child drive x ++ children drive xs

  abbrev walked : List ℕ → Option (List (List ℕ × (String ⊎ Node))) → List Node
  walked drive none = []
  walked drive (some xs) = children drive xs

  abbrev with_node : TreeSource → TreeRequest → String ⊎ Node → Response
  with_node s r (inl e) = failed e
  with_node s r (inr n) =
      listed n (if n.is_leaf then [] else walked r.windows_drive (s.walk r.path))

  abbrev no_node : Node
  no_node = record { path = []; uuid = []; is_leaf = false; is_collection = false }

  -- `ls`, once the request is parsed. `volumes` are the volumes of the machine.
  unfoldable pub ls : List Node → TreeSource → TreeRequest → Response
  ls volumes s r =
      if r.browse_win_volumes then listed no_node volumes else with_node s r (s.load_node r.path)
