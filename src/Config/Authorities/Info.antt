-- ===== src/Config/Authorities/Info.antt =====
-- config/oidc-authorities.go, `LoadInfo`: what an authority learns from its server and its token.
use mathlib.Core.Path.{subst}
use cells_sync.Prelude.{
  >>=-some, ◌≡◌, ◌≢◌, refl, ap, ◌∙◌, ℕ, String, Bool, Option, none, some, List, if◌then◌else◌, ◌==◌,
  string_eq, ◌>>=◌, >>=-eq-some, some_injective,
}
use cells_sync.Config.Types.{Authority}
use cells_sync.Config.Authorities.Monitors.{IsStable}

-- The claim "name" of a token.
pub data NameClaim : Type 0 where
  absent : NameClaim
  text : String → NameClaim
  other : NameClaim  -- a value that is not a text

-- What `LoadInfo` asks for.
pub record Sources : Type 0 where
  -- The title in the answer of the server at a URI, `none` when there is no answer that can be decoded.
  pub title : String → Bool → Option String
  -- The claim of a token; `none` when it is not a JWT: the code then reads through a nil pointer.
  pub name_claim : List ℕ → Option NameClaim
  -- The text of a URI with the name of a user, `none` when it cannot be parsed, which panics too.
  pub with_user : String → String → Option String

abbrev label_of : String → Option String → String
label_of uri none = uri
label_of uri (some title) = if title == "" then uri else title

abbrev with_name : NameClaim → Authority → Option Authority
with_name absent a = some a
with_name (text name) a = some (record a { username = name })
with_name other a = none

module _ (S : Sources) where
  abbrev with_label : Authority → Authority
  with_label a = record a { server_label = label_of a.uri (S.title a.uri a.insecure_skip_verify) }

  abbrev with_id : Authority → Option Authority
  with_id a = S.with_user a.uri a.username >>= λ i. some (record a { id = i })

  -- `LoadInfo`; `none` is a panic.
  unfoldable pub load_info : Authority → Option Authority
  load_info a = S.name_claim a.id_token >>= λ n. with_name n (with_label a) >>= λ b. with_id b

  -- The second time, the same name and label are found.
  abbrev Again : NameClaim → Authority → String → Authority → Type 0
  Again n a i c =
      (c.id_token ≡ a.id_token)
      × (with_name n (with_label (record c { id = i })) ≡ some (record c { id = i }))

  with_name-Again :
      (n : NameClaim) (a c : Authority) (i : String)
      → with_name n (with_label a) ≡ some c
      → Again n a i c
  with_name-Again absent a c i h = subst (Again absent a i) (some_injective h) (refl, refl)
  with_name-Again (text name) a c i h =
      subst (Again (text name) a i) (some_injective h) (refl, refl)
  with_name-Again other a c i h = cc

  reload :
      (n : NameClaim) (a c : Authority) (i : String)
      → S.name_claim a.id_token ≡ some n
      → S.with_user c.uri c.username ≡ some i
      → Again n a i c
      → load_info (record c { id = i }) ≡ some (record c { id = i })
  unfolding load_info
  reload n a c i claim found (same, again) =
      >>=-some _ (ap S.name_claim same ∙ claim) ∙ >>=-some _ again ∙ >>=-some _ found

  -- A login loads the information twice: with the same answers the second time changes nothing.
  pub load_info-again : (a b : Authority) → load_info a ≡ some b → load_info b ≡ some b
  unfolding load_info
  load_info-again a b h =
      let (n, claim, h') = >>=-eq-some (S.name_claim a.id_token) _ h in
      let (c, named, h'') = >>=-eq-some (with_name n (with_label a)) _ h' in
      let (i, found, e) = >>=-eq-some (S.with_user c.uri c.username) _ h'' in
      subst (λ b. load_info b ≡ some b) (some_injective e)
        (reload n a c i claim found (with_name-Again n a c i named))

  -- When nothing panics, and no text of a URL is empty, it gives every authority an id, as the changes
  -- of the authorities ask of it.
  pub load_info-IsStable :
      (total : (a : Authority) → (b : Authority) × (load_info a ≡ some b))
      → ((uri name : String) → S.with_user uri name ≢ some "")
      → IsStable (λ a. (total a).0)
  unfolding load_info
  load_info-IsStable total no_empty = record {
    named = λ a e.
        let (n, claim, h') = >>=-eq-some (S.name_claim a.id_token) _ (total a).1 in
        let (c, named, h'') = >>=-eq-some (with_name n (with_label a)) _ h' in
        let (i, found, f) = >>=-eq-some (S.with_user c.uri c.username) _ h'' in
        no_empty c.uri c.username (found ∙ ap some (ap (λ b. b.id) (some_injective f) ∙ e));
  }
