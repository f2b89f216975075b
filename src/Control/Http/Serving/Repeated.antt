-- ===== src/Control/Http/Serving/Repeated.antt =====
-- control/http-server.go: a server that is served again and again.
use cells_sync.Prelude.{
  ℕ, zero, suc, ◌+◌, ◌-◌, ◌≡◌, refl, ap, ◌∙◌, String, true, false, Option, some, List, [], ◌∷◌, ◌⊎◌,
  arith, nat_eq, length,
}
use cells_sync.Control.State.{SyncState}
use cells_sync.Control.Http.{Floats, is_busy}
use cells_sync.Control.Http.States.{drop_state-settled}
use cells_sync.Control.Http.Serving.{
  HttpServer, new_http_server, serve, serve_all, stop, on_state, taken,
}

statuses-serve_all :
    (rs : List ((String ⊎ String) × Option String)) (h : HttpServer)
    → (serve_all rs h).statuses ≡ h.statuses + length rs
unfolding serve_all serve
statuses-serve_all [] h = omega arith
statuses-serve_all ((addr, result) ∷ rs) h =
    statuses-serve_all rs (serve addr result h).0 ∙ omega arith

has_done-serve_all :
    (rs : List ((String ⊎ String) × Option String)) (h : HttpServer)
    → h.has_done ≡ true
    → (serve_all rs h).has_done ≡ true
unfolding serve_all serve
has_done-serve_all [] h e = e
has_done-serve_all ((addr, result) ∷ rs) h e = has_done-serve_all rs (serve addr result h).0 refl

has_done-serve_once :
    (r : (String ⊎ String) × Option String) (rs : List ((String ⊎ String) × Option String))
    → (serve_all (r ∷ rs) new_http_server).has_done ≡ true
unfolding serve_all serve
has_done-serve_once (addr, result) rs =
    has_done-serve_all rs (serve addr result new_http_server).0 refl

module _ (F : Floats) where
  taken-settled :
      (n : ℕ) (s : SyncState) (last : Option SyncState) → is_busy F s ≡ false → taken F n s last ≡ n
  taken-settled zero s last e = refl
  taken-settled (suc n) s last e =
      rw (drop_state-settled F last s e) (ap suc (taken-settled n s (some s) e))

  -- Each call of `Serve`, also one that finds no address, leaves one more goroutine behind that sends
  -- the states: after a number of calls, a state of a task that is not processing is broadcast as many
  -- times. `Stop` ends one of them only, and so after it the state is still broadcast once for each other call.
  pub stop-serve_all :
      (r : (String ⊎ String) × Option String) (rs : List ((String ⊎ String) × Option String))
      (s : SyncState)
      → is_busy F s ≡ false
      → ((on_state F s (serve_all (r ∷ rs) new_http_server)).1 ≡ length (r ∷ rs))
        × ((h : HttpServer) × (stop (serve_all (r ∷ rs) new_http_server) ≡ some h)
            × ((on_state F s h).1 ≡ length rs))
  unfolding on_state stop new_http_server
  stop-serve_all r rs s e =
      let g = serve_all (r ∷ rs) new_http_server in
      let n : g.statuses ≡ suc (length rs) =
        statuses-serve_all (r ∷ rs) new_http_server ∙ omega arith in
      let d : g.has_done ≡ true = has_done-serve_once r rs in
      (
        taken-settled g.statuses s g.last e ∙ n,
        (
          record g { statuses = g.statuses - 1 },
          ground (arith, n, d),
          taken-settled (g.statuses - 1) s g.last e ∙ omega (arith, n),
        ),
      )
