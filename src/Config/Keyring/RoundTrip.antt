-- ===== src/Config/Keyring/RoundTrip.antt =====
-- config/keyring.go: the tokens that were put into the keyring come back from it.
use cells_sync.Prelude.{
  ℕ, ◌≡◌, ◌≢◌, refl, ap, ◌∙◌, String, false, some, List, [], ◌∷◌, ◌++◌, arith, not, ◌&&◌, ◌⊎◌, inl,
  inr, Option-cases, Bool-cases,
}
use cells_sync.Go.Strings.{begins, add_byte, split_from, split, join, Lacks}
use cells_sync.Config.Types.{Authority}
use cells_sync.Config.Keyring.{
  Keyring, token_separator, is_empty, access_key, auth_to_keyring, auth_from_keyring, before_save,
  after_load,
}

-- The third byte of the separator is a slash, so it starts nowhere in a text without slashes.
not-begins_before :
    (c : ℕ) (a r : List ℕ)
    → Lacks b'/' (c ∷ a)
    → begins token_separator (c ∷ a ++ (token_separator ++ r)) ≡ false
unfolding begins
not-begins_before c [] r h = ground arith
not-begins_before c (d ∷ []) r h = ground arith
not-begins_before c (d ∷ e ∷ a) r h = ground arith

not-begins_last : (c : ℕ) (a : List ℕ) → Lacks b'/' (c ∷ a) → begins token_separator (c ∷ a) ≡ false
unfolding begins
not-begins_last c [] h = ground arith
not-begins_last c (d ∷ []) h = ground arith
not-begins_last c (d ∷ e ∷ a) h = ground arith

split-token :
    (a r : List ℕ)
    → Lacks b'/' a
    → split_from token_separator 0 (a ++ (token_separator ++ r))
      ≡ a ∷ split_from token_separator 0 r
unfolding split_from
split-token [] r h = refl
split-token (c ∷ a) r h = rw (not-begins_before c a r h) (ap (add_byte c) (split-token a r h.1))

split-last : (a : List ℕ) → Lacks b'/' a → split_from token_separator 0 a ≡ a ∷ []
unfolding split_from
split-last [] h = refl
split-last (c ∷ a) h = rw (not-begins_last c a h) (ap (add_byte c) (split-last a h.1))

-- Three texts without slashes are found again between the separators.
split-join :
    (x y z : List ℕ)
    → Lacks b'/' x
    → Lacks b'/' y
    → Lacks b'/' z
    → split (join (x ∷ y ∷ z ∷ []) token_separator) token_separator ≡ x ∷ y ∷ z ∷ []
unfolding split join
split-join x y z hx hy hz =
    split-token x _ hx
    ∙ ap (λ ps. x ∷ ps) (split-token y z hy ∙ ap (λ ps. y ∷ ps) (split-last z hz))

-- What is set can be read back, and other keys keep their values.
pub record IsLawful (K : Keyring) : Type 0 where
  pub get-set :
      (k k' : K.State) (key : String) (value : List ℕ)
      → K.set k key value ≡ some k'
      → K.get k' key ≡ some value
  pub get-set_ne :
      (k k' : K.State) (key other : String) (value : List ℕ)
      → K.set k key value ≡ some k'
      → key ≢ other
      → K.get k' other ≡ K.get k other

module _ (K : Keyring) (L : IsLawful K) where
  abbrev pub stored_value : Authority → List ℕ
  stored_value a = join (a.access_token ∷ a.id_token ∷ a.refresh_token ∷ []) token_separator

  abbrev pub emptied : Authority → Authority
  emptied a = record a { access_token = []; id_token = []; refresh_token = [] }

  -- What is read back after the keyring took the tokens.
  load-stored :
      (a : Authority) (k k' : K.State)
      → Lacks b'/' a.access_token
      → Lacks b'/' a.id_token
      → Lacks b'/' a.refresh_token
      → K.set k (access_key a) (stored_value a) ≡ some k'
      → after_load K (emptied a) k' ≡ a
  unfolding after_load auth_from_keyring
  load-stored a k k' hx hy hz e =
      rw (L.get-set k k' (access_key a) (stored_value a) e, after_load)
        (rw (split-join a.access_token a.id_token a.refresh_token hx hy hz, after_load) refl)

  load-kept :
      (a : Authority) (k : K.State)
      → (is_empty a.access_token && is_empty a.refresh_token) ≡ false
      → after_load K a k ≡ a
  unfolding after_load auth_from_keyring
  load-kept a k some_token = rw (some_token, after_load) refl

  -- Either the save kept the authority as it was, or the keyring took its tokens.
  pub before_save-cases :
      (a : Authority) (k : K.State)
      → (before_save K a k ≡ (a, k))
        ⊎ ((k' : K.State) × (K.set k (access_key a) (stored_value a) ≡ some k')
            × (before_save K a k ≡ (emptied a, k')))
  unfolding before_save auth_to_keyring
  before_save-cases a k = elim (Option-cases (K.set k (access_key a) (stored_value a))) [
    | inl e ↦ inl (ground (arith, e))
    | inr (k', e) ↦
        elim (Bool-cases (not (is_empty a.id_token) && not (is_empty a.refresh_token))) [
          | inl some_id ↦
              elim (Bool-cases (not (is_empty a.access_token) && not (is_empty a.refresh_token))) [
                | inl all ↦ inr (k', e, rw (some_id, all, e) refl)
                | inr no_access ↦ inl (rw (some_id, no_access) refl)
              ]
          | inr no_id ↦ inl (rw no_id refl)
        ]
  ]

  -- Save an authority that has an access or a refresh token and whose tokens hold no slash, and load
  -- it again from what was written, with the keyring as the save left it. The tokens come back,
  -- whether the keyring took them or refused them. And what was written is the authority as it
  -- was, or the authority without any of its tokens.
  pub after_load-before_save :
      (a : Authority) (k : K.State)
      → Lacks b'/' a.access_token
      → Lacks b'/' a.id_token
      → Lacks b'/' a.refresh_token
      → (is_empty a.access_token && is_empty a.refresh_token) ≡ false
      → (after_load K (before_save K a k).0 (before_save K a k).1 ≡ a)
        × (((before_save K a k).0 ≡ a) ⊎ ((before_save K a k).0 ≡ emptied a))
  after_load-before_save a k hx hy hz some_token = elim (before_save-cases a k) [
    | inl kept ↦ (rw kept (load-kept a k some_token), inl (rw kept refl))
    | inr (k', e, taken) ↦ (rw taken (load-stored a k k' hx hy hz e), inr (rw taken refl))
  ]
