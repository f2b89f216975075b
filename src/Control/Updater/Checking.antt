-- ===== src/Control/Updater/Checking.antt =====
-- control/updater.go: `LoadUpdates`, and the messages that come back to the service.
use cells_sync.Prelude.{
  ℕ, ◌≡◌, ◌≢◌, refl, ap₂, arith, String, Bool, false, Option, none, some, List, [], ◌∷◌, ◌⊎◌, inl,
  inr, ◌==◌, string_eq, nat_eq, nat_beq_iff, eq_iff, Bool-cases,
}
use cells_sync.Config.Types.{Url}
use cells_sync.Config.Global.{Updates}
use cells_sync.Control.Updater.{
  Package, UpdateMessage, check_status, Host, server_url, request_for, ask_url, ask_version, answer,
  ask, report, load_updates, dispatch, dispatch_all,
}
use cells_sync.Control.Updater.Download.{Doubles, Installer, Action, apply_update}
use cells_sync.Control.Updater.Progress.{apply_update-quiet}

report-available :
    (r : String ⊎ List Package) (ps : List Package)
    → report r ≡ check_status "available" ps ""
    → (r ≡ inr ps) × (ps ≢ [])
unfolding report
report-available (inl e) ps h = ground (arith, h, eq_iff "error" "available")
report-available (inr []) ps h = ground (arith, h, eq_iff "up-to-date" "available")
report-available (inr (p ∷ qs)) ps h = ground (arith, h)

module _ (H : Host) (now : ℕ) (conf : Updates) where
  answer-inr :
      (r : String ⊎ (ℕ × (String ⊎ List Package))) (ps : List Package)
      → answer H r ≡ inr ps
      → r ≡ inr (200, inr ps)
  answer-inr (inl e) ps h = cc
  answer-inr (inr (status, body)) ps h = elim (Bool-cases (status == 200)) [
    | inl e ↦ ap₂ (λ n b. inr (n, b)) ((nat_beq_iff status 200).0 e) (rw e at h)
    | inr e ↦ ground (arith, h, e)
  ]

  -- The server of the configuration was asked, and answered with these packages.
  abbrev pub WasAsked : List Package → Url → Type 0
  WasAsked ps u =
      (H.parse_url conf.update_url ≡ inr u)
      × (H.check_version H.version ≡ none)
      × (H.post (server_url H u) (request_for H conf.update_channel) ≡ inr (200, inr ps))

  ask_version-inr :
      (u : Url) (v : Option String) (ps : List Package)
      → ask_version H false now conf.update_channel u v ≡ inr ps
      → (v ≡ none)
        × (H.post (server_url H u) (request_for H conf.update_channel) ≡ inr (200, inr ps))
  ask_version-inr u (some e) ps h = cc
  ask_version-inr u none ps h = (refl, answer-inr _ ps h)

  ask_url-inr :
      (r : String ⊎ Url) (ps : List Package)
      → ask_url H false now conf.update_channel r ≡ inr ps
      → (u : Url) × (r ≡ inr u)
        × (H.check_version H.version ≡ none)
        × (H.post (server_url H u) (request_for H conf.update_channel) ≡ inr (200, inr ps))
  ask_url-inr (inl e) ps h = cc
  ask_url-inr (inr u) ps h =
      let c = ask_version-inr u (H.check_version H.version) ps h in (u, refl, c.0, c.1)

  ask-inr :
      (ps : List Package)
      → ask H false now conf ≡ inr ps
      → (conf.update_url ≢ "") × ((u : Url) × WasAsked ps u)
  unfolding ask
  ask-inr ps h = elim (Bool-cases (conf.update_url == "")) [
    | inl e ↦ ground (arith, h, e)
    | inr e ↦
        let c = ask_url-inr (H.parse_url conf.update_url) ps (rw e at h) in
        (ground (arith, e, eq_iff conf.update_url ""), (c.0, (c.1, c.2, c.3)))
  ]

  -- Outside the debug mode, an update is announced as available only with at least one package, and
  -- with the packages that the server of the configuration gave with the status 200 for the
  -- version that runs and the channel of the configuration.
  pub load_updates-available :
      (ps : List Package)
      → load_updates H false now conf
        ≡ check_status "checking" [] "" ∷ check_status "available" ps "" ∷ []
      → (ps ≢ []) × (conf.update_url ≢ "") × ((u : Url) × WasAsked ps u)
  unfolding load_updates
  load_updates-available ps h =
      let r = report-available (ask H false now conf) ps (second h) in
      let c = ask-inr ps r.0 in (r.1, c.0, c.1)
    where
      second :
          {m n k : UpdateMessage} → ◌≡◌ {A = List UpdateMessage} (m ∷ n ∷ []) (m ∷ k ∷ []) → n ≡ k
      second e = cc

dispatch_all-report :
    (r : String ⊎ List Package) → dispatch_all (check_status "checking" [] "" ∷ report r ∷ []) ≡ []
unfolding dispatch_all dispatch report
dispatch_all-report (inl e) = refl
dispatch_all-report (inr []) = refl
dispatch_all-report (inr (q ∷ qs)) = refl

-- The service listens to the topic that it publishes to. Whatever it publishes about a search for
-- updates or about an update, in every interleaving, starts nothing when it comes back.
pub dispatch_all-published {κ} :
    {K B : Type κ} (F : Doubles) (H : Host) (I : Installer K B) (debug : Bool) (now : ℕ)
    (conf : Updates) (p : Package) (dry : Bool) (actions : List Action)
    → (dispatch_all (load_updates H debug now conf) ≡ [])
      × (dispatch_all (apply_update F H I debug conf.update_public_key p dry actions).published
          ≡ [])
unfolding load_updates
dispatch_all-published F H I debug now conf p dry actions = (
  dispatch_all-report (ask H debug now conf),
  apply_update-quiet F H I debug conf.update_public_key p dry actions,
)
