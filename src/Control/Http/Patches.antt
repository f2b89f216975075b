-- ===== src/Control/Http/Patches.antt =====
-- control/http-handler-patches.go: the patches of a task for the web interface.
pub mod Stores
use cells_sync.Prelude.{
  ℕ, ◌+◌, ◌-◌, ◌*◌, ◌/◌, ◌<◌, ◌≡◌, ◌≢◌, refl, ap, ◌∙◌, String, Bool, true, false, Option, none,
  some, List, [], ◌∷◌, arith, if◌then◌else◌, ◌==◌, string_eq, nat_eq, eq_iff, take, drop,
}
use Prim.Native.Nat.{max}
use cells_sync.Prelude.Int.{ℤ, pos, negsuc}
use cells_sync.Go.Strconv.{itoa, atoi, atoi-itoa}
use cells_sync.Endpoint.PatchStore.{Loaded, page}
use cells_sync.Endpoint.PatchStore.Pages.{page-take}

-- `PatchesRequest`
pub record PatchesRequest : Type 0 where
  pub sync_uuid : String
  pub offset : ℤ
  pub limit : ℤ

-- The number that a sign and a magnitude write.
abbrev pub signed : Bool × ℕ → ℤ
signed (false, n) = pos n
signed (true, n) = if n == 0 then pos 0 else negsuc (n - 1)

abbrev given_or : ℤ → Option (Bool × ℕ) → ℤ
given_or d none = d
given_or d (some n) = signed n

-- `parsePatchRequest`, given the three parameters of the path; `none` is the error.
unfoldable pub parse_patch_request : String → List ℕ → List ℕ → Option PatchesRequest
parse_patch_request uuid offset limit =
    if uuid == ""
    then none
    else some (record {
      sync_uuid = uuid;
      offset = given_or (pos 0) (atoi offset);
      limit = given_or (pos 10) (atoi limit);
    })

-- `data[fmt.Sprintf("%d", seconds)] = p`, for the patches of the page in their order. Stamps are in
-- nanoseconds.
abbrev pub second_of : Loaded → ℕ
second_of p = p.stamp / 1000000000

abbrev pub put : ℕ → Loaded → List (ℕ × Loaded) → List (ℕ × Loaded)
put k p [] = (k, p) ∷ []
put k p ((j, q) ∷ m) = let rest = put k p m in if j == k then (j, p) ∷ m else (j, q) ∷ rest

unfoldable pub by_second : List Loaded → List (ℕ × Loaded) → List (ℕ × Loaded)
by_second [] m = m
by_second (p ∷ ps) m = by_second ps (put (second_of p) p m)

abbrev page_of : PatchesRequest → List Loaded → List (ℕ × Loaded)
page_of r stamps = by_second (page 0 r.offset r.limit stamps) []

-- The answer of `listPatches`: `stamps` are the patches of the store as `Load` sorts them, `none` is
-- an error that is written.
unfoldable pub list_patches :
    Option (List Loaded) → String → List ℕ → List ℕ → Option (List (ℕ × Loaded))
list_patches none uuid offset limit = none
list_patches (some stamps) uuid offset limit = elim (parse_patch_request uuid offset limit) [
  | none ↦ none
  | some r ↦ some (page_of r stamps)
]

abbrev pub lookup : ℕ → List (ℕ × Loaded) → Option Loaded
lookup k [] = none
lookup k ((j, p) ∷ m) = if j == k then some p else lookup k m

-- The last patch of a list that is in a second, or what was there before.
abbrev pub last_in : ℕ → List Loaded → Option Loaded → Option Loaded
last_in k [] before = before
last_in k (p ∷ ps) before =
    let here = if second_of p == k then some p else before in last_in k ps here

lookup-put :
    (k j : ℕ) (p : Loaded) (m : List (ℕ × Loaded))
    → lookup k (put j p m) ≡ (if j == k then some p else lookup k m)
lookup-put k j p [] = refl
lookup-put k j p ((i, q) ∷ m) = ground (arith, lookup-put k j p m)

lookup-by_second :
    (k : ℕ) (ps : List Loaded) (m : List (ℕ × Loaded))
    → lookup k (by_second ps m) ≡ last_in k ps (lookup k m)
unfolding by_second
lookup-by_second k [] m = refl
lookup-by_second k (p ∷ ps) m =
    lookup-by_second k ps (put (second_of p) p m)
    ∙ ap (last_in k ps) (lookup-put k (second_of p) p m)

parse_lem :
    (uuid : String) (offset limit : ℕ)
    → uuid ≢ ""
    → offset < 2 * 4611686018427387904
    → limit < 2 * 4611686018427387904
    → parse_patch_request uuid (itoa offset) (itoa limit)
      ≡ some (record { sync_uuid = uuid; offset = pos offset; limit = pos limit })
unfolding parse_patch_request
parse_lem uuid offset limit named ho hl =
    rw (atoi-itoa offset ho, atoi-itoa limit hl) (ground (arith, named, eq_iff uuid ""))

-- A request for a page, with its position and its number of patches in decimal, whose sum is in Go's
-- int, is answered from the patches of that page (one patch, if none is asked for), by the second of
-- their stamp. Of the patches that are in one second, the answer has the last only, the oldest one.
pub lookup-list_patches :
    (stamps : List Loaded) (uuid : String) (offset limit second : ℕ)
    → uuid ≢ ""
    → offset + limit < 2 * 4611686018427387904
    → (m : List (ℕ × Loaded)) × (list_patches (some stamps) uuid (itoa offset) (itoa limit)
        ≡ some m)
      × (lookup second m ≡ last_in second (take (max 1 limit) (drop offset stamps)) none)
unfolding list_patches
lookup-list_patches stamps uuid offset limit second named h =
    let e = parse_lem uuid offset limit named (omega arith) (omega arith) in
    rw (e, list_patches)
      (
        _,
        refl,
        lookup-by_second second (page 0 (pos offset) (pos limit) stamps) []
            ∙ ap (λ ps. last_in second ps none) (page-take offset limit stamps (omega arith)),
      )
