-- ===== src/Control/Http/Trees/Default.antt =====
-- control/http-handler-tree.go: asking for the default folder twice.
use cells_sync.Prelude.{
  ℕ, ◌≡◌, refl, String, Option, none, some, List, [], ◌∷◌, ◌⊎◌, inl, inr, Bool-cases, arith,
  Option-cases,
}
use cells_sync.Config.Types.{Authority}
use cells_sync.Endpoint.Uri.{Factory}
use cells_sync.Control.Http.Trees.{Node, TreeRequest, Response, listed}
use cells_sync.Control.Http.Trees.Folders.{
  Target, Access, FolderCall, create, parse_tree_request, default_dir, loaded, shown, default_at,
  on_windows, handled,
}

module _ {E : Type 0} (F : Factory E) (text : List ℕ → String) where
  abbrev pub Loads : Access E → E → List ℕ → Type 0
  Loads A ep d = (n : Node) × ((A.source ep).load_node d ≡ inr n)

  -- The second access has what the first one has, and what the calls have created.
  abbrev pub Holds : Access E → Access E → List FolderCall → Type 0
  Holds A A' calls = (ep : E) (d : List ℕ) → Loads A ep d ⊎ (calls ≡ create d ∷ []) → Loads A' ep d

  -- A listing of one node with no children.
  abbrev pub IsNode : List ℕ → List FolderCall × Response → Type 0
  IsNode p r = (m : Node) × (r ≡ ([], listed m [])) × (m.path ≡ p)

  module _ (A A' : Access E) (calls : List FolderCall) (n : Node) (cs : List Node) where
    found-again :
        (ep : E) (output dir : List ℕ)
        → Loads A' ep dir
        → IsNode output (loaded F text A' ep output dir ((A'.source ep).load_node dir))
    found-again ep output dir (m, e) = rw e (record m { path = output }, refl, refl)

    shown-created :
        (output dir : List ℕ) (t : Option Target)
        → shown F text A output dir t ≡ (calls, listed n cs)
        → (calls ≡ create dir ∷ []) × (n.path ≡ output)
    shown-created output dir none h = cc
    shown-created output dir (some t) h = elim (Option-cases (t.create_node dir)) [
      | inl made ↦ ground (arith, h, made)
      | inr (e, no_) ↦ ground (arith, h, no_)
    ]

    loaded-again :
        (ep : E) (output dir : List ℕ) (r : String ⊎ Node)
        → (A.source ep).load_node dir ≡ r
        → loaded F text A ep output dir r ≡ (calls, listed n cs)
        → Holds A A' calls
        → IsNode n.path (loaded F text A' ep output dir ((A'.source ep).load_node dir))
    loaded-again ep output dir (inr m) e h k =
        let p : n.path ≡ output = ground (arith, h) in
        rw p (found-again ep output dir (k ep dir (inl (m, e))))
    loaded-again ep output dir (inl x) e h k =
        let (c, p) = shown-created output dir (A.target ep) h in
        rw p (found-again ep output dir (k ep dir (inr c)))

    windows-again :
        (ep : E) (output : List ℕ) (r : String ⊎ TreeRequest)
        → on_windows F text A ep output r ≡ (calls, listed n cs)
        → Holds A A' calls
        → IsNode n.path (on_windows F text A' ep output r)
    windows-again ep output (inl e) h k = (n, ground (arith, h), refl)
    windows-again ep output (inr r) h k = loaded-again ep output r.path _ refl h k

    default_at-again :
        (r : TreeRequest) (ep : E) (output : List ℕ)
        → default_at F text A r ep output ≡ (calls, listed n cs)
        → Holds A A' calls
        → IsNode n.path (default_at F text A' r ep output)
    default_at-again r ep [] h k = (n, ground (arith, h), refl)
    default_at-again r ep (c ∷ out) h k = elim (Bool-cases F.is_windows) [
      | inl w ↦ rw w (windows-again ep _ _ (rw w at h) k)
      | inr u ↦ rw u (loaded-again ep (c ∷ out) (c ∷ out) _ refl (rw u at h) k)
    ]

    -- An answer of `handled` that is a node.
    handled-again :
        (f g : TreeRequest → E → List FolderCall × Response)
        → ((r : TreeRequest) (ep : E) → f r ep ≡ (calls, listed n cs) → IsNode n.path (g r ep))
        → (q : Option (String ⊎ (TreeRequest × E))) → handled F text f q ≡ some (calls, listed n cs)
        → (m : Node) × (handled F text g q ≡ some ([], listed m [])) × (m.path ≡ n.path)
    handled-again f g k none h = cc
    handled-again f g k (some (inl e)) h = cc
    handled-again f g k (some (inr (r, ep))) h = let (m, e, p) = k r ep (cc) in (m, rw e, p)

    -- If the default folder was answered, and later each endpoint still gives the nodes that it gave
    -- and the folder that was created, then the same request creates nothing and answers one node, of
    -- the same path, without children. This holds on Windows too.
    pub default_dir-again :
        (home : Option (List ℕ)) (sep : List ℕ) (as' : List Authority)
        (body : String ⊎ (List ℕ × List ℕ))
        → default_dir F text A home sep as' body ≡ some (calls, listed n cs)
        → Holds A A' calls
        → (m : Node) × (default_dir F text A' home sep as' body ≡ some ([], listed m []))
          × (m.path ≡ n.path)
    unfolding default_dir
    default_dir-again home sep as' body h k =
        handled-again _ _ (λ r ep e. default_at-again r ep _ e k)
          (parse_tree_request F text as' body) h
