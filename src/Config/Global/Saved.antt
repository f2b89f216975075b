-- ===== src/Config/Global/Saved.antt =====
-- config/defaults.go: what is saved, which events follow, and what is loaded again.
use text.Mathlib.TextLemmas.{append_cancel_right}
use cells_sync.Prelude.{
  ◌≡◌, ◌≢◌, refl, ap₂, ◌∙◌, inl, inr, String, Bool, false, ◌&&◌, some, List, [], ◌∷◌, ◌++◌, arith,
  if◌then◌else◌, All,
}
use cells_sync.Go.Strings.{Lacks}
use cells_sync.Config.Types.{Authority}
use cells_sync.Config.Keyring.{
  Keyring, before_save, after_load, auth_from_keyring, access_key, is_empty,
}
use cells_sync.Config.Keyring.RoundTrip.{
  IsLawful, after_load-before_save, before_save-cases, stored_value,
}
use cells_sync.Config.Global.{
  World, stored_authorities, save, create_task, remove_task, update_task,
}
use cells_sync.Config.Global.Tasks.{Command, create, edit, delete, event_of, apply}

module _ (K : Keyring) where
  -- A change of the tasks reports the error of its save. If the save went well, the file holds the
  -- new configuration, with the authorities as they are stored, and exactly the event of the change
  -- was started. If not, the file is as it was and there is no event.
  pub apply-saved :
      (c : Command) (ok : Bool) (w : World K)
      → let (w', saved) = apply K c ok w in
        (saved ≡ ok)
        × (w'.events ≡ (if ok then w.events ++ (event_of c ∷ []) else w.events))
        × (w'.file ≡ (
            if ok
            then some (record (w'.global) {
              authorities = (stored_authorities K w'.global.authorities w.ring).0;
            })
            else w.file))
  unfolding apply create_task update_task remove_task save
  apply-saved (create t) ok w = ground arith
  apply-saved (edit t) ok w = ground arith
  apply-saved (delete t) ok w = ground arith

  -- The loop of `Default` over the authorities of the file.
  unfoldable pub load_authorities : List Authority → K.State → List Authority
  load_authorities [] k = []
  load_authorities (a ∷ as') k = after_load K a k ∷ load_authorities as' k

  -- An authority that has tokens, none of which holds a slash.
  abbrev pub IsClean : Authority → Type 0
  IsClean a =
      Lacks b'/' a.access_token
      × Lacks b'/' a.id_token
      × Lacks b'/' a.refresh_token
      × ((is_empty a.access_token && is_empty a.refresh_token) ≡ false)

  -- No authority of the list has the id.
  abbrev pub IsNew : String → List Authority → Type 0
  IsNew id as' = All (λ (b : Authority). b.id ≢ id) as'

  abbrev pub HasDistinctIds : List Authority → Type 0
  HasDistinctIds [] = Unit
  HasDistinctIds (a ∷ as') = IsNew a.id as' × HasDistinctIds as'

  access_key_inj : (a b : Authority) → access_key a ≡ access_key b → a.id ≡ b.id
  access_key_inj a b e = append_cancel_right a.id b.id "::AccessToken" e

  module _ (L : IsLawful K) where
    get-before_save :
        (a b : Authority) (k : K.State)
        → b.id ≢ a.id
        → K.get (before_save K b k).1 (access_key a) ≡ K.get k (access_key a)
    get-before_save a b k differ = elim (before_save-cases K L b k) [
      | inl kept ↦ rw kept refl
      | inr (k', e, taken) ↦ rw taken (
          L.get-set_ne k k' (access_key b) (access_key a) (stored_value K L b) e
            (λ same. differ (access_key_inj b a same)))
    ]

    get-stored :
        (a : Authority) (as' : List Authority) (k : K.State)
        → IsNew a.id as'
        → K.get (stored_authorities K as' k).1 (access_key a) ≡ K.get k (access_key a)
    unfolding stored_authorities
    get-stored a [] k h = refl
    get-stored a (b ∷ as') k h =
        get-stored a as' (before_save K b k).1 h.1 ∙ get-before_save a b k h.0

    -- What is loaded depends on one value of the keyring.
    after_load-get :
        (a : Authority) (k k' : K.State)
        → K.get k (access_key a) ≡ K.get k' (access_key a)
        → after_load K a k ≡ after_load K a k'
    unfolding after_load auth_from_keyring
    after_load-get a k k' e = rw (e, after_load) refl

    access_key-before_save :
        (a : Authority) (k : K.State) → access_key (before_save K a k).0 ≡ access_key a
    access_key-before_save a k = elim (before_save-cases K L a k) [
      | inl kept ↦ rw kept refl
      | inr (k', e, taken) ↦ rw taken refl
    ]

    -- Store authorities of distinct ids, which have tokens without slashes, and load what was written,
    -- with the keyring as the save left it: they come back with their tokens, also those that the
    -- keyring refused.
    pub load-stored_authorities :
        (as' : List Authority) (k : K.State)
        → HasDistinctIds as'
        → All IsClean as'
        → load_authorities (stored_authorities K as' k).0 (stored_authorities K as' k).1 ≡ as'
    unfolding load_authorities stored_authorities
    load-stored_authorities [] k d c = refl
    load-stored_authorities (a ∷ as') k d c =
        let k' = (before_save K a k).1 in
        let b = (before_save K a k).0 in
        let same : K.get (stored_authorities K as' k').1 (access_key b) ≡ K.get k' (access_key b) =
          rw (access_key-before_save a k) (get-stored a as' k' d.0) in
        ap₂ (λ x xs. x ∷ xs)
          (after_load-get b _ k' same ∙ (after_load-before_save K L a k c.0.0 c.0.1 c.0.2 c.0.3).0)
          (load-stored_authorities as' k' d.1 c.1)
