-- ===== src/I18n.antt =====
-- i18n/i18n.go: the texts of the user's language. Texts are bytes; the language of the system, the
-- files of the box and JSON are parameters.
use cells_sync.Prelude.{
  ℕ, ◌+◌, ◌≡◌, refl, Bool, true, ◌&&◌, Option, none, some, List, [], ◌∷◌, ◌++◌, map, arith,
  if◌then◌else◌, ◌==◌, nat_eq, leb, Bool-cases, inl, inr,
}
use cells_sync.Go.Strings.{split, split_from, begins, add_byte, contains, Lacks}

abbrev to_lower : ℕ → ℕ
to_lower c = if leb b'A' c && leb c b'Z' then c + 32 else c

abbrev dash : List ℕ
dash = b'-' ∷ []

-- "en-us"
abbrev english : List ℕ
english = b'e' ∷ b'n' ∷ b'-' ∷ b'u' ∷ b's' ∷ []

abbrev detected : Option (List ℕ) → List ℕ
detected none = english
detected (some l) = l

abbrev first_piece : List (List ℕ) → List ℕ
first_piece [] = []
first_piece (p ∷ ps) = p

-- The two names that `init` looks for, in lower case: all of the detected one, and the language.
unfoldable pub names_of : Option (List ℕ) → List ℕ × List ℕ
names_of l =
    let ietf = detected l in
    (
      map to_lower ietf,
      map to_lower (if contains ietf dash then first_piece (split ietf dash) else ietf),
    )

-- The texts of a file, if the box has it (`has`) and JSON can read it (`read`).
module _ {T : Type 0} (has : List ℕ → Bool) (read : List ℕ → Option T) (empty : T) where
  abbrev or_empty : Option T → T
  or_empty none = empty
  or_empty (some t) = t

  -- `init`: the texts.
  unfoldable pub load_texts : Option (List ℕ) → T
  load_texts l =
      let (ietf, lang) = names_of l in
      if has ietf then or_empty (read ietf) else if has lang then or_empty (read lang) else empty

-- `JsonLang`
unfoldable pub json_lang : Option (List ℕ) → List ℕ
json_lang l = (names_of l).1

-- `T`
unfoldable pub translate : (List ℕ → Option (List ℕ)) → List ℕ → List ℕ
translate texts s = elim (texts s) [ none ↦ s | some t ↦ t ]

-- A text that goes on with a byte: its first piece does too, unless the byte cuts.
first_piece-add_byte :
    (c : ℕ) (ps : List (List ℕ)) (p : List ℕ) (qs : List (List ℕ))
    → ps ≡ p ∷ qs
    → first_piece (add_byte c ps) ≡ c ∷ p
first_piece-add_byte c ps p qs h = rw h refl

split_some :
    (lang region : List ℕ)
    → (p : List ℕ) × (ps : List (List ℕ)) × (split_from dash 0 (lang ++ (b'-' ∷ region)) ≡ p ∷ ps)
unfolding split_from begins
split_some [] region = ([], split_from dash 0 region, refl)
split_some (c ∷ lang) region = elim (Bool-cases (b'-' == c)) [
  | inl e ↦ ([], split_from dash 0 (lang ++ (b'-' ∷ region)), ground (arith, e))
  | inr e ↦ let (p, ps, q) = split_some lang region in (c ∷ p, ps, ground (arith, e, q))
]

first_piece-split :
    (lang region : List ℕ)
    → Lacks b'-' lang
    → first_piece (split_from dash 0 (lang ++ (b'-' ∷ region))) ≡ lang
unfolding split_from begins
first_piece-split [] region h = refl
first_piece-split (c ∷ lang) region h =
    ground (arith, h.0, first_piece-split lang region h.1, split_some lang region)

contains-dash : (lang region : List ℕ) → contains (lang ++ (b'-' ∷ region)) dash ≡ true
unfolding contains begins
contains-dash [] region = refl
contains-dash (c ∷ lang) region = ground (arith, contains-dash lang region)

-- A language with a region looks for the file of both, and then for that of the language alone.
names_of-region :
    (lang region : List ℕ)
    → Lacks b'-' lang
    → names_of (some (lang ++ (b'-' ∷ region)))
      ≡ (map to_lower (lang ++ (b'-' ∷ region)), map to_lower lang)
unfolding names_of split
names_of-region lang region h = rw (contains-dash lang region, first_piece-split lang region h) refl
