-- ===== src/Config/Monitor/Renewal.antt =====
-- config/oidc-token.go and config/oidc-authorities.go: what a refresh of the tokens leaves.
use cells_sync.Prelude.{
  ◌/◌, ap, ℕ, String, ◌+◌, ◌*◌, ◌≡◌, ◌≢◌, refl, ◌≤◌, ◌⊎◌, arith, Bool, true, false, some, List, [],
  ◌∷◌, All, inl, inr, Bool-cases, string_eq, eq_iff,
}
use cells_sync.Config.Types.{Authority}
use cells_sync.Config.Keyring.{Keyring}
use cells_sync.Config.Global.{save}
use cells_sync.Config.Authorities.{
  refresh_required, loaded, is_same, update_all, dated, seen, AuthWorld, update_authority,
}
use cells_sync.Config.Authorities.Monitors.{IsStable, loaded_lem, loaded_twice}
use cells_sync.Config.Monitor.{
  Response, selecting, take_trigger, TokenMonitor, with_response, refresh, on_trigger, step,
}

module _ (load_info : Authority → Authority) where
  -- If an authority has this key, then it has the tokens of the answer.
  abbrev pub HasTokens : String → Response → ℕ → Authority → Type 0
  HasTokens k r now b =
      (loaded load_info b).id ≡ k
      → (b.id_token ≡ r.id_token)
        × (b.access_token ≡ r.access_token)
        × (b.refresh_token ≡ r.refresh_token)
        × (b.expires_at ≡ now / 1000000000 + r.expires_in)

  module _ (L : IsStable load_info) where
    module _ (a : Authority) (r : Response) (now : ℕ) (named : a.id ≢ "") where
      abbrev renewed : Authority
      renewed = dated load_info true now (with_response r now a)

      not_same-HasTokens :
          (b : Authority)
          → is_same load_info b renewed ≡ false
          → HasTokens a.id r now (loaded load_info b)
      unfolding is_same
      not_same-HasTokens b e h = ground (
        arith,
        e,
        h,
        loaded_twice load_info L b,
        loaded_lem load_info renewed named,
        eq_iff (loaded load_info b).id a.id,
      )

      update_all-HasTokens :
          (bs : List Authority)
          → All (HasTokens a.id r now) (update_all load_info renewed true now bs)
      unfolding update_all
      update_all-HasTokens [] = tt
      update_all-HasTokens (b ∷ bs) = elim (Bool-cases (is_same load_info b renewed)) [
        | inl e ↦ rw e (λ h. (refl, refl, refl, refl), update_all-HasTokens bs)
        | inr e ↦ rw e (not_same-HasTokens b e, update_all-HasTokens bs)
      ]

      -- The authority of the monitor has the new expiry, and it has an id already.
      seen_expiry :
          (K : Keyring) (bs : List Authority)
          → (seen load_info K bs renewed).expires_at ≡ now / 1000000000 + r.expires_in
      seen_expiry K [] = refl
      seen_expiry K (b ∷ bs) =
          ap (λ (c : Authority). c.expires_at) (loaded_lem load_info renewed named)

      module _ (K : Keyring) where
        update_authority-HasTokens :
            (ok : Bool) (w : AuthWorld load_info K)
            → All
                (HasTokens a.id r now)
                (update_authority load_info K
                  (with_response r now a)
                  true
                  now
                  ok
                  w).0.world.global.authorities
        unfolding update_authority save
        update_authority-HasTokens true w = update_all-HasTokens w.world.global.authorities
        update_authority-HasTokens false w = update_all-HasTokens w.world.global.authorities

  -- The next timer of a monitor fires at least ten seconds before the time, in seconds, at which its
  -- tokens expire, or at once.
  abbrev pub IsInTime : ℕ → ℕ → ℕ → Type 0
  IsInTime now next expiry = (next ≡ 0) ⊎ (now + next + 10000000000 ≤ expiry * 1000000000)

  refresh_required-IsInTime :
      (a : Authority) (now expiry : ℕ)
      → a.expires_at ≡ expiry
      → IsInTime now (refresh_required a now).0 expiry
  unfolding refresh_required
  refresh_required-IsInTime a now expiry e = ground (arith, e)

  -- When a loop that selects takes a signal, and the server answers with new tokens, then the signal
  -- is gone, every authority of the configuration with the key of the monitor has the new tokens, which
  -- expire the seconds of the answer after now, whether or not the save succeeds, and the next timer fires
  -- at least ten seconds before that, or at once. The key of the monitor is not empty, and `LoadInfo` always finds an id.
  pub step-renews :
      (L : IsStable load_info) (K : Keyring) (r : Response) (now : ℕ) (ok : Bool)
      (m : TokenMonitor load_info K)
      → m.authority.id ≢ ""
      → m.life ≡ selecting
      → m.trigger ≡ 1
      → let m' = step load_info K (take_trigger (some r) now ok) m in
        (m'.life ≡ selecting)
        × (m'.trigger ≡ 0)
        × IsInTime now m'.next_tick (now / 1000000000 + r.expires_in)
        × All (HasTokens m.authority.id r now) m'.auths.world.global.authorities
  unfolding step on_trigger refresh
  step-renews L K r now ok m named alive pending =
      rw (alive, pending)
        (
          refl,
          refl,
          refresh_required-IsInTime _ now _
              (seen_expiry L m.authority r now named K m.auths.world.global.authorities),
          update_authority-HasTokens L m.authority r now named K ok m.auths,
        )
