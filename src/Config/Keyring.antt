-- ===== src/Config/Keyring.antt =====
-- config/keyring.go: the tokens of an authority in the keyring of the system.
-- The keyring is a parameter. Tokens and stored values are texts by their bytes.
pub mod RoundTrip
use cells_sync.Prelude.{
  ℕ, ◌≡◌, refl, String, ◌<>◌, Bool, true, false, ◌&&◌, not, Option, none, some, List, [], ◌∷◌,
  if◌then◌else◌,
}
use cells_sync.Go.Strings.{split, join}
use cells_sync.Config.Types.{Authority}

-- `keyring.Set`, `keyring.Get` and `keyring.Delete` for the service of the program.
pub record Keyring : Type 1 where
  pub State : Type 0
  pub set : State → String → List ℕ → Option State  -- `none` is an error
  pub get : State → String → Option (List ℕ)
  pub delete : State → String → Option State

-- The separator `__//__`.
abbrev pub token_separator : List ℕ
token_separator = b'_' ∷ b'_' ∷ b'/' ∷ b'/' ∷ b'_' ∷ b'_' ∷ []

abbrev pub is_empty : List ℕ → Bool
is_empty [] = true
is_empty (c ∷ cs) = false

abbrev pub access_key : Authority → String
access_key a = a.id <> "::AccessToken"

module _ (K : Keyring) where
  -- `AuthToKeyring`: the authority without its tokens, and the keyring. `none` is the error, with
  -- which the source returns the authority as it was.
  unfoldable pub auth_to_keyring : Authority → K.State → Option (Authority × K.State)
  auth_to_keyring a k =
      if not (is_empty a.access_token) && not (is_empty a.refresh_token)
      then elim (K.set k (access_key a)
          (join (a.access_token ∷ a.id_token ∷ a.refresh_token ∷ []) token_separator)) [
            | none ↦ none
            | some k' ↦ some (record a { access_token = []; id_token = []; refresh_token = [] }, k')
          ]
      else some (a, k)

  abbrev with_parts : Authority → List (List ℕ) → Option Authority
  with_parts a (x ∷ y ∷ z ∷ []) =
      some (record a { access_token = x; id_token = y; refresh_token = z })
  with_parts a _ = none

  abbrev with_value : Authority → Option (List ℕ) → Option Authority
  with_value a none = none
  with_value a (some value) = with_parts a (split value token_separator)

  -- `AuthFromKeyring`; `none` is an error.
  unfoldable pub auth_from_keyring : Authority → K.State → Option Authority
  auth_from_keyring a k =
      if is_empty a.access_token && is_empty a.refresh_token
      then with_value a (K.get k (access_key a))
      else some a

  -- `ClearKeyring`. The callers pass over its error.
  unfoldable pub clear_keyring : Authority → K.State → K.State
  clear_keyring a k = elim (K.delete k (access_key a)) [ none ↦ k | some k' ↦ k' ]

  -- `Authority.BeforeSave`: what is written to the file, and the keyring.
  unfoldable pub before_save : Authority → K.State → Authority × K.State
  unfolding auth_to_keyring
  before_save a k =
      if not (is_empty a.id_token) && not (is_empty a.refresh_token)
      then elim (auth_to_keyring a k) [ none ↦ (a, k) | some r ↦ r ]
      else (a, k)

  -- The tokens that `Authority.AfterLoad` sets, from the keyring if that answers.
  unfoldable pub after_load : Authority → K.State → Authority
  unfolding auth_from_keyring
  after_load a k = elim (auth_from_keyring a k) [
    | none ↦ a
    | some b ↦ record a {
      id_token = b.id_token;
      access_token = b.access_token;
      refresh_token = b.refresh_token;
    }
  ]
