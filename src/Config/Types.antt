-- ===== src/Config/Types.antt =====
-- The records of the configuration (config/defaults.go, config/oidc-authorities.go), and the
-- parts of a parsed URL that the program reads.
use cells_sync.Prelude.{ℕ, Bool, String, List}

-- `config.Task`
pub record Task : Type 0 where
  pub uuid : String
  pub label : String
  pub left_uri : String
  pub right_uri : String
  pub direction : String
  pub selective_roots : List String
  pub realtime : Bool
  pub loop_interval : String
  pub hard_interval : String

-- `config.Authority`. Dates are in nanoseconds, 0 is the zero time.
pub record Authority : Type 0 where
  pub id : String
  pub uri : String
  pub insecure_skip_verify : Bool
  pub server_label : String
  pub username : String
  pub login_date : ℕ
  pub refresh_date : ℕ
  pub token_status : String
  pub tasks_count : ℕ
  pub id_token : List ℕ  -- the bytes of a text
  pub access_token : List ℕ  -- the bytes of a text
  pub refresh_token : List ℕ  -- the bytes of a text
  pub expires_at : ℕ

-- What the program reads of a `url.URL`. A URL without user information has the username "".
pub record Url : Type 0 where
  pub scheme : String
  pub host : String
  pub path : String
  pub username : String
