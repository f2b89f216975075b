-- ===== src/Endpoint/Uri/Building.antt =====
-- endpoint/uri-parser.go: when a URI makes the program panic, and the default folder.
use cells_sync.Prelude.{
  ℕ, ◌≡◌, refl, ◌≤◌, ap, ap₂, ◌∙◌, arith, String, Bool, true, ◌&&◌, Option, none, some, List, [],
  ◌∷◌, ◌++◌, ◌⊎◌, inl, inr, if◌then◌else◌, ◌==◌, string_eq, nat_eq, nat_beq_iff, eq_iff, Bool-cases,
  length, ltb,
}
use cells_sync.Config.Types.{Authority}
use cells_sync.Go.Strings.{begins, add_byte, split_from, split, join, Lacks}
use cells_sync.Endpoint.Uri.{
  ParsedUri, Factory, drive, with_drive, fs_path, fs_endpoint, s3_endpoint, endpoint_of,
  endpoint_from_uri, default_dir_for_uri,
}

-- The pieces of a text by one byte, put together again.
split_cons :
    (b c : ℕ) (s : List ℕ)
    → split_from (b ∷ []) 0 (c ∷ s)
      ≡ (if b == c then [] ∷ split_from (b ∷ []) 0 s else add_byte c (split_from (b ∷ []) 0 s))
unfolding split_from begins
split_cons b c s = ground arith

-- There is always a piece.
split_some :
    (b : ℕ) (s : List ℕ) → (p : List ℕ) × (ps : List (List ℕ)) × (split_from (b ∷ []) 0 s ≡ p ∷ ps)
unfolding split_from
split_some b [] = ([], [], refl)
split_some b (c ∷ s) = elim (Bool-cases (b == c)) [
  | inl e ↦ ([], split_from (b ∷ []) 0 s, split_cons b c s ∙ rw e refl)
  | inr e ↦ let r = split_some b s in (c ∷ r.0, r.1, split_cons b c s ∙ rw (e, r.2) refl)
]

join-add_byte :
    (c : ℕ) (p : List ℕ) (qs : List (List ℕ)) (sep : List ℕ)
    → join ((c ∷ p) ∷ qs) sep ≡ c ∷ join (p ∷ qs) sep
unfolding join
join-add_byte c p [] sep = refl
join-add_byte c p (q ∷ qs) sep = refl

join-nil :
    (q : List ℕ) (qs : List (List ℕ)) (b : ℕ)
    → join ([] ∷ q ∷ qs) (b ∷ []) ≡ b ∷ join (q ∷ qs) (b ∷ [])
unfolding join
join-nil q qs b = refl

join-split :
    (b : ℕ) (s x : List ℕ) → join (split_from (b ∷ []) 0 s ++ (x ∷ [])) (b ∷ []) ≡ s ++ (b ∷ x)
unfolding split_from join
join-split b [] x = refl
join-split b (c ∷ s) x =
    let r = split_some b s in
    let ih = rw (r.2) at (join-split b s x) in
    elim (Bool-cases (b == c)) [
      | inl e ↦
          rw (split_cons b c s, e, r.2)
            (join-nil r.0 (r.1 ++ (x ∷ [])) b ∙ ap₂ (λ d t. d ∷ t) ((nat_beq_iff b c).0 e) ih)
      | inr e ↦
          rw (split_cons b c s, e, r.2)
            (join-add_byte c r.0 (r.1 ++ (x ∷ [])) (b ∷ []) ∙ ap (λ t. c ∷ t) ih)
    ]

two_pieces :
    {p q r : List ℕ} {ps : List (List ℕ)} → ◌≡◌ {A = List (List ℕ)} (p ∷ q ∷ ps) (r ∷ []) → ⊥
two_pieces h = cc

one_piece :
    {p r : List ℕ} {ps : List (List ℕ)} → ◌≡◌ {A = List (List ℕ)} (p ∷ ps) (r ∷ []) → ps ≡ []
one_piece h = cc

-- A text that is one piece lacks the byte.
split_one : (b : ℕ) (s p : List ℕ) → split_from (b ∷ []) 0 s ≡ p ∷ [] → Lacks b s
split_one b [] p h = tt
split_one b (c ∷ s) p h =
    let r = split_some b s in
    elim (Bool-cases (b == c)) [
      | inl e ↦ absurd (two_pieces (rw (split_cons b c s, e, r.2) at h))
      | inr e ↦ (
        λ q. ground (arith, e, q),
        split_one b s r.0
            (r.2 ∙ ap (λ ps. r.0 ∷ ps) (one_piece (rw (split_cons b c s, e, r.2) at h))),
      )
    ]

module _ {E : Type 0} (F : Factory E) where
  -- A folder of one byte that is browsed on Windows.
  abbrev pub IsShortDrive : ParsedUri → Bool → Type 0
  IsShortDrive u browse =
      (u.url.scheme ≡ "fs") × (F.is_windows ≡ true) × (browse ≡ true) × (length u.path ≡ 1)

  -- A URI of a bucket without a slash.
  abbrev pub LacksBucket : ParsedUri → Type 0
  LacksBucket u = (u.url.scheme ≡ "s3") × Lacks b'/' u.path

  with_drive-none : (path : List ℕ) → with_drive F path (drive path) ≡ none → length path ≤ 1
  with_drive-none [] h = omega arith
  with_drive-none (a ∷ []) h = omega arith
  with_drive-none (a ∷ b ∷ rest) h = cc

  fs_path-none :
      (path : List ℕ) (browse : Bool)
      → fs_path F path browse ≡ none
      → (F.is_windows ≡ true) × (browse ≡ true) × (length path ≡ 1)
  fs_path-none path browse h = elim (Bool-cases (F.is_windows && ltb 0 (length path) && browse)) [
    | inl e ↦ ground (arith, e, with_drive-none path (rw e at h))
    | inr e ↦ ground (arith, rw e at h)
  ]

  fs_endpoint-none :
      (browse : Bool) (o : Option (List ℕ)) → fs_endpoint F browse o ≡ none → o ≡ none
  fs_endpoint-none browse none h = refl
  fs_endpoint-none browse (some path) h = cc

  s3_endpoint-none :
      (u : ParsedUri) (browse : Bool)
      → s3_endpoint F u browse (split u.path (b'/' ∷ [])) ≡ none
      → Lacks b'/' u.path
  unfolding split
  s3_endpoint-none u browse h = pieces (split_some b'/' u.path)
    where
      some-none : {r : String ⊎ E} → ◌≡◌ {A = Option (String ⊎ E)} (some r) none → ⊥
      some-none e = cc

      pieces :
          (p : List ℕ) × (ps : List (List ℕ)) × (split_from (b'/' ∷ []) 0 u.path ≡ p ∷ ps)
          → Lacks b'/' u.path
      pieces (p, [], e) = split_one b'/' u.path p e
      pieces (p, q ∷ ps, e) = absurd (some-none (rw e at h))

  endpoint_of-none :
      (as' : List Authority) (other : String ⊎ ParsedUri) (browse : Bool) (u : ParsedUri)
      → endpoint_of F as' other browse (inr u) ≡ none
      → IsShortDrive u browse ⊎ LacksBucket u
  endpoint_of-none as' other browse u h = elim (Bool-cases (u.url.scheme == "fs")) [
    | inl fs ↦
        let c = fs_path-none u.path browse (fs_endpoint-none browse _ (rw fs at h)) in
        inl ((eq_iff u.url.scheme "fs").0 fs, c.0, c.1, c.2)
    | inr not_fs ↦ elim (Bool-cases (u.url.scheme == "s3")) [
      | inl s3 ↦ inr (
        (eq_iff u.url.scheme "s3").0 s3,
        s3_endpoint-none u browse (simp ((eq_iff u.url.scheme "s3").0 s3) at h),
      )
      | inr not_s3 ↦ ground (arith, h, not_fs, not_s3)
    ]
  ]

  parsed-none :
      (as' : List Authority) (other r : String ⊎ ParsedUri) (browse : Bool)
      → endpoint_of F as' other browse r ≡ none
      → (u : ParsedUri) × (r ≡ inr u) × (IsShortDrive u browse ⊎ LacksBucket u)
  parsed-none as' other (inl e) browse h = cc
  parsed-none as' other (inr u) browse h = (u, refl, endpoint_of-none as' other browse u h)

  -- Only two kinds of URIs make the program panic, and give neither an endpoint nor an error: that of a
  -- bucket whose path has no slash, and that of a folder with a path of one byte that is browsed
  -- on Windows.
  pub endpoint_from_uri-none :
      (as' : List Authority) (uri other : String) (browse : Bool)
      → endpoint_from_uri F as' uri other browse ≡ none
      → (u : ParsedUri) × (F.parse uri ≡ inr u) × (IsShortDrive u browse ⊎ LacksBucket u)
  unfolding endpoint_from_uri
  endpoint_from_uri-none as' uri other browse h =
      parsed-none as' (F.parse other) (F.parse uri) browse h

  -- Where the separator of the file system is a slash, the default folder of a URI of files is the
  -- folder "Cells" in the home of the user.
  pub default_dir_for_uri-home :
      (home : List ℕ) (uri : String) (u : ParsedUri)
      → F.parse uri ≡ inr u
      → u.url.scheme ≡ "fs"
      → default_dir_for_uri F (some home) (b'/' ∷ []) uri
        ≡ home ++ (b'/' ∷ b'C' ∷ b'e' ∷ b'l' ∷ b'l' ∷ b's' ∷ [])
  unfolding default_dir_for_uri split
  default_dir_for_uri-home home uri u e s = rw (e, s) (join-split b'/' home _)
