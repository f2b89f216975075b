-- ===== src/Control/Http/Serving.antt =====
-- control/http-server.go: `Serve`, `Stop` and the goroutines that listen to the bus.
pub mod Repeated
use cells_sync.Prelude.{
  ℕ, zero, suc, ◌-◌, String, Bool, true, false, ◌&&◌, not, Option, none, some, List, [], ◌∷◌, ◌⊎◌,
  inl, inr, if◌then◌else◌, ◌==◌, nat_eq, ltb,
}
use cells_sync.Config.Global.{Change, task_change, auth_change}
use cells_sync.Control.State.{SyncState}
use cells_sync.Control.Http.{Floats, drop_state}

-- `statuses` and `authorities` count the goroutines of `ListenStatus` and `ListenAuthorities`.
-- `last` is the last state, `none` the zero state.
pub record HttpServer : Type 0 where
  pub has_done : Bool
  pub statuses : ℕ
  pub authorities : ℕ
  pub last : Option SyncState

-- `NewHttpServer`
unfoldable pub new_http_server : HttpServer
new_http_server = record { has_done = false; statuses = 0; authorities = 0; last = none }

-- The handlers that `Serve` registers.
pub data Handler : Type 0 where
  status logs default_dir ls mkdir list_patches load_conf update_conf : Handler

pub data Method : Type 0 where
  get post put : Method

abbrev pub routes : List (Method × String × Handler)
routes =
    (get, "/status", status)
    ∷ (get, "/logs", logs)
    ∷ (post, "/default", default_dir)
    ∷ (post, "/tree", ls)
    ∷ (put, "/tree", mkdir)
    ∷ (get, "/patches/:uuid/:offset/:limit", list_patches)
    ∷ (get, "/config", load_conf)
    ∷ (put, "/config", update_conf)
    ∷ []

-- How a call of `Serve` ends.
pub data Served : Type 0 where
  no_address : String → Served
  ended : String → List (Method × String × Handler) → Option String → Served

abbrev served : String ⊎ String → Option String → Served
served (inl e) result = no_address e
served (inr addr) result = ended addr routes result

-- `Serve`, for the address or its error, and what `http.ListenAndServe` returns.
unfoldable pub serve : String ⊎ String → Option String → HttpServer → HttpServer × Served
serve addr result h = (
  record h { has_done = true; statuses = suc h.statuses; authorities = suc h.authorities },
  served addr result,
)

-- `Stop`; `none` if it blocks forever, as nobody takes what it sends.
unfoldable pub stop : HttpServer → Option HttpServer
stop h =
    if h.has_done && ltb 0 h.statuses then some (record h { statuses = h.statuses - 1 }) else none

-- `ListenAuthorities`: the lists that are broadcast. With each change comes the list at that time.
unfoldable pub listen_authorities {ℓ} : {L : Type ℓ} → List (Change × L) → List L
listen_authorities [] = []
listen_authorities ((task_change kind t, l) ∷ cs) = listen_authorities cs
listen_authorities ((auth_change kind a, l) ∷ cs) = l ∷ listen_authorities cs

module _ (F : Floats) where
  -- A state that `n` goroutines of `ListenStatus` take in turn: how often it is broadcast, and the
  -- last state.
  abbrev pub taken : ℕ → SyncState → Option SyncState → ℕ
  taken zero s last = 0
  taken (suc n) s last =
      let rest = taken n s (some s) in if drop_state F last s then rest else suc rest

  unfoldable pub on_state : SyncState → HttpServer → HttpServer × ℕ
  on_state s h =
      (record h { last = if ltb 0 h.statuses then some s else h.last }, taken h.statuses s h.last)

-- Calls of `Serve` one after another, as the supervisor makes them when the service returns.
unfoldable pub serve_all : List ((String ⊎ String) × Option String) → HttpServer → HttpServer
unfolding serve
serve_all [] h = h
serve_all ((addr, result) ∷ rs) h = serve_all rs (serve addr result h).0
