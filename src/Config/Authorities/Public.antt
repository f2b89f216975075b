-- ===== src/Config/Authorities/Public.antt =====
-- config/oidc-authorities.go: what is shown of the authorities.
use cells_sync.Prelude.{
  ℕ, suc, ◌≡◌, refl, String, Bool, false, ◌&&◌, ◌||◌, Option, none, some, List, [], ◌∷◌, arith,
  if◌then◌else◌, ◌==◌, string_eq, ◌>>=◌, >>=-eq-some,
}
use cells_sync.Config.Types.{Task, Authority, Url}
use cells_sync.Config.Authorities.{loaded}

-- Is a URL on the server of an authority, for its user?
abbrev pub is_on : Url → String → Url → Bool
is_on server username u =
    u.scheme == server.scheme && u.username == username && u.host == server.host

module _ (load_info : Authority → Authority) (parse : String → Option Url) where
  -- The loop of `PublicAuthorities` over the tasks; `none` is the read of a nil URL. Both URLs that the
  -- source compares are parsed from the left URI.
  unfoldable pub count_tasks : Option Url → String → List Task → Option ℕ
  count_tasks server username [] = some 0
  count_tasks server username (t ∷ ts) = do
    left ← parse t.left_uri
    right ← parse t.left_uri
    p ← server
    n ← count_tasks server username ts
    some (if is_on p username left || is_on p username right then suc n else n)

  -- `PublicAuthorities`
  unfoldable pub public_authority : List Task → Authority → Option Authority
  public_authority tasks a = do
    n ← count_tasks (parse (loaded load_info a).uri) (loaded load_info a).username tasks
    some (record {
      id = (loaded load_info a).id;
      uri = (loaded load_info a).uri;
      insecure_skip_verify = false;
      server_label = (loaded load_info a).server_label;
      username = (loaded load_info a).username;
      login_date = (loaded load_info a).login_date;
      refresh_date = (loaded load_info a).refresh_date;
      token_status = "";
      tasks_count = n;
      id_token = [];
      access_token = [];
      refresh_token = [];
      expires_at = (loaded load_info a).expires_at;
    })

  unfoldable pub public_authorities : List Task → List Authority → Option (List Authority)
  public_authorities tasks [] = some []
  public_authorities tasks (a ∷ as') = do
    p ← public_authority tasks a
    ps ← public_authorities tasks as'
    some (p ∷ ps)

  abbrev on_server : Option Url → String → Option Url → Bool
  on_server none username u = false
  on_server (some server) username none = false
  on_server (some server) username (some u) = is_on server username u

  -- The tasks whose left side is on a server, for a user.
  abbrev pub left_count : Option Url → String → List Task → ℕ
  left_count server username [] = 0
  left_count server username (t ∷ ts) =
      let n = left_count server username ts in
      if on_server server username (parse t.left_uri) then suc n else n

  -- What is shown of an authority.
  pub record IsView (tasks : List Task) (a p : Authority) : Type 0 where
    pub same_id : p.id ≡ (loaded load_info a).id
    pub no_id_token : p.id_token ≡ []
    pub no_access_token : p.access_token ≡ []
    pub no_refresh_token : p.refresh_token ≡ []
    pub counted :
        p.tasks_count
        ≡ left_count (parse (loaded load_info a).uri) (loaded load_info a).username tasks

  abbrev pub AreViews : List Task → List Authority → List Authority → Type 0
  AreViews tasks [] [] = Unit
  AreViews tasks [] (p ∷ ps) = ⊥
  AreViews tasks (a ∷ as') [] = ⊥
  AreViews tasks (a ∷ as') (p ∷ ps) = IsView tasks a p × AreViews tasks as' ps

  -- One task of the count, for the URL of its left side and the count of the others.
  one_task :
      (o server : Option Url) (m : Option ℕ) (username : String) (n l : ℕ)
      → ((k : ℕ) → m ≡ some k → k ≡ l)
      → (o >>= λ left. o >>= λ right. server >>= λ p.
          m >>= λ k. some (if is_on p username left || is_on p username right then suc k else k))
        ≡ some n
      → n ≡ (if on_server server username o then suc l else l)
  one_task none server m username n l f h = cc
  one_task (some u) none m username n l f h = cc
  one_task (some u) (some server) none username n l f h = cc
  one_task (some u) (some server) (some k) username n l f h = ground (arith, f k refl)

  count_tasks-eq-some :
      (server : Option Url) (username : String) (ts : List Task) (n : ℕ)
      → count_tasks server username ts ≡ some n
      → n ≡ left_count server username ts
  unfolding count_tasks
  count_tasks-eq-some server username [] n h = ground arith
  count_tasks-eq-some server username (t ∷ ts) n h =
      one_task (parse t.left_uri) server (count_tasks server username ts) username n
        (left_count server username ts) (λ k e. count_tasks-eq-some server username ts k e) h

  public_authority-IsView :
      (tasks : List Task) (a p : Authority) → public_authority tasks a ≡ some p → IsView tasks a p
  unfolding public_authority
  public_authority-IsView tasks a p h =
      let server = parse (loaded load_info a).uri in
      let username = (loaded load_info a).username in
      let (n, e, h1) = >>=-eq-some (count_tasks server username tasks) _ h in
      let c = count_tasks-eq-some server username tasks n e in ground (arith, h1, c)

  -- The authorities that are shown, if no URL is missing: one for each authority, with its id, without
  -- any of its tokens, and with the number of the tasks whose left side is on its server for its
  -- user. Tasks with only the right side there do not count.
  pub public_authorities-AreViews :
      (tasks : List Task) (as' ps : List Authority)
      → public_authorities tasks as' ≡ some ps
      → AreViews tasks as' ps
  unfolding public_authorities
  public_authorities-AreViews tasks [] [] h = tt
  public_authorities-AreViews tasks [] (p ∷ ps) h = absurd (ground arith)
  public_authorities-AreViews tasks (a ∷ as') qs h =
      let (p, e, h1) = >>=-eq-some (public_authority tasks a) _ h in
      let (ps, e', h2) = >>=-eq-some (public_authorities tasks as') _ h1 in
      let q : qs ≡ p ∷ ps = ground (arith, h2) in
      rw q (public_authority-IsView tasks a p e, public_authorities-AreViews tasks as' ps e')
