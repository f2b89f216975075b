-- ===== src/Control/Http/Trees/Drives.antt =====
-- control/http-handler-tree.go: browsing the drives of Windows, from one folder to the next.
use cells_sync.Prelude.{ℕ, ◌≡◌, ◌≢◌, refl, ap₂, false, List, [], ◌∷◌, inr, map, All, arith, nat_eq}
use cells_sync.Control.Http.Trees.{
  TreeRequest, apply_windows_transformation, with_drive, to_upper, slashed,
}

to_upper_twice : (c : ℕ) → to_upper (to_upper c) ≡ to_upper c
to_upper_twice c = ground arith

map-slashed : (p : List ℕ) → All (λ c. c ≢ 92) p → map slashed p ≡ p
map-slashed [] h = refl
map-slashed (c ∷ p) (h, hs) = ap₂ (λ d q. d ∷ q) (ground (arith, h)) (map-slashed p hs)

-- The request of a path, as the decoder makes it.
abbrev pub request : List ℕ → List ℕ → TreeRequest
request uri path = record {
  endpoint_uri = uri;
  path = path;
  windows_drive = [];
  browse_win_volumes = false;
}

module _ (join : List ℕ → List ℕ → List ℕ) where
  -- A request on a drive, with a URI without a path, opens the endpoint of the drive in upper case. If a child "/q"
  -- of it has no backslash and path.Join puts the drive in front of it, then a request for the path
  -- that the listing shows for the child gives the same drive, the same endpoint, and "/q".
  pub apply-child :
      (uri : List ℕ) (a b k : ℕ) (rest q : List ℕ)
      → All (λ c. c ≢ 92) q
      → join (b'/' ∷ to_upper b ∷ to_upper k ∷ b'/' ∷ []) (b'/' ∷ q)
        ≡ b'/' ∷ to_upper b ∷ to_upper k ∷ b'/' ∷ q
      → (r : TreeRequest) × (apply_windows_transformation (inr []) (request uri (a ∷ b ∷ k ∷ rest))
          ≡ inr r)
        × (apply_windows_transformation (inr []) (request uri (join r.windows_drive (b'/' ∷ q)))
            ≡ inr (record r { path = b'/' ∷ q }))
  unfolding apply_windows_transformation
  apply-child uri a b k rest q clean joined = (
    with_drive (request uri (a ∷ b ∷ k ∷ rest)),
    ground arith,
    rw joined (ground (arith, to_upper_twice b, to_upper_twice k, map-slashed q clean)),
  )
