-- ===== src/Config/Authorities/Monitors.antt =====
-- config/oidc-authorities.go and config/oidc-token.go: which authorities have a monitor.
use cells_sync.Prelude.{
  ℕ, ◌≡◌, ◌≢◌, refl, sym, ap, ◌∙◌, String, Bool, true, false, List, [], ◌∷◌, ◌++◌, arith,
  if◌then◌else◌, ◌==◌, string_eq, eq_iff, Bool-cases, Option-cases, inl, inr,
}
use cells_sync.Config.Types.{Authority}
use cells_sync.Config.Keyring.{Keyring}
use cells_sync.Config.Global.{save}
use cells_sync.Config.Authorities.{
  is_monitored, get_token_monitor, stop_monitoring_token, loaded, is_same, with_tokens, update_all,
  exists_same, load_all, without_same, last_same, AuthWorld, update_authority, append_authority,
  create_authority, remove_authority, removed,
}

pub is_monitored-get :
    (k j : String) (ms : List String)
    → is_monitored k (get_token_monitor j ms) ≡ (if j == k then true else is_monitored k ms)
unfolding get_token_monitor
is_monitored-get k j ms = elim (Bool-cases (j == k)) [
  | inl e ↦ ground (arith, e, (eq_iff j k).0 e)
  | inr e ↦ ground (arith, e)
]

is_monitored-stop :
    (k j : String) (ms : List String)
    → is_monitored k (stop_monitoring_token j ms) ≡ (if j == k then false else is_monitored k ms)
unfolding stop_monitoring_token
is_monitored-stop k j [] = ground arith
is_monitored-stop k j (i ∷ ms) =
    ground (arith, is_monitored-stop k j ms, eq_iff i j, eq_iff j k, eq_iff i k)

-- `LoadInfo` always finds an id: the URI with the name of the user.
pub record IsStable (load_info : Authority → Authority) : Type 0 where
  pub named : (a : Authority) → (load_info a).id ≢ ""

module _ (load_info : Authority → Authority) where
  -- Does an authority have this id, once its information is loaded?
  abbrev pub has_id : String → List Authority → Bool
  has_id k [] = false
  has_id k (b ∷ bs) = if (loaded load_info b).id == k then true else has_id k bs

  pub loaded_lem : (a : Authority) → a.id ≢ "" → loaded load_info a ≡ a
  unfolding loaded
  loaded_lem a h = ground (arith, h, eq_iff a.id "")

  has_id-append :
      (k : String) (bs : List Authority) (a : Authority)
      → has_id k (bs ++ (a ∷ [])) ≡ (if (loaded load_info a).id == k then true else has_id k bs)
  has_id-append k [] a = refl
  has_id-append k (b ∷ bs) a = ground (arith, has_id-append k bs a)

  module _ (L : IsStable load_info) where
    pub loaded_named : (a : Authority) → (loaded load_info a).id ≢ ""
    unfolding loaded
    loaded_named a e = ground (arith, L.named a, eq_iff a.id "", e)

    pub loaded_twice : (a : Authority) → loaded load_info (loaded load_info a) ≡ loaded load_info a
    loaded_twice a = loaded_lem (loaded load_info a) (loaded_named a)

    has_id-load_all :
        (k : String) (bs : List Authority) → has_id k (load_all load_info bs) ≡ has_id k bs
    unfolding load_all
    has_id-load_all k [] = refl
    has_id-load_all k (b ∷ bs) = rw (loaded_twice b, has_id-load_all k bs) refl

    loaded-with_tokens :
        (a b : Authority) (is_refresh : Bool) (now : ℕ)
        → (loaded load_info (with_tokens load_info a is_refresh now (loaded load_info b))).id
          ≡ (loaded load_info b).id
    loaded-with_tokens a b true now = ap (λ (c : Authority). c.id) (loaded_lem _ (loaded_named b))
    loaded-with_tokens a b false now = ap (λ (c : Authority). c.id) (loaded_lem _ (loaded_named b))

    has_id-update_all :
        (k : String) (a : Authority) (is_refresh : Bool) (now : ℕ) (bs : List Authority)
        → has_id k (update_all load_info a is_refresh now bs) ≡ has_id k bs
    unfolding update_all
    has_id-update_all k a is_refresh now [] = refl
    has_id-update_all k a is_refresh now (b ∷ bs) = elim (Bool-cases (is_same load_info b a)) [
      | inl e ↦
          rw e (
            rw (loaded-with_tokens a b is_refresh now, has_id-update_all k a is_refresh now bs)
              refl)
      | inr e ↦ rw e (rw (loaded_twice b, has_id-update_all k a is_refresh now bs) refl)
    ]

    has_id-without_same :
        (k : String) (a : Authority) (bs : List Authority)
        → has_id k (without_same load_info a bs)
          ≡ (if (loaded load_info a).id == k then false else has_id k bs)
    unfolding without_same is_same
    has_id-without_same k a [] = ground arith
    has_id-without_same k a (b ∷ bs) = ground (
      arith,
      has_id-without_same k a bs,
      loaded_twice b,
      eq_iff (loaded load_info a).id k,
      eq_iff (loaded load_info b).id k,
      eq_iff (loaded load_info a).id (loaded load_info b).id,
    )

-- The changes of the authorities: a login, an update (`true` is a refresh) and a removal.
pub data AuthCommand : Type 0 where
  create : Authority → ℕ → AuthCommand
  refresh : Authority → Bool → ℕ → AuthCommand
  delete : Authority → AuthCommand

module _ (load_info : Authority → Authority) (L : IsStable load_info) (K : Keyring) where
  unfoldable pub run : AuthCommand → Bool → AuthWorld load_info K → AuthWorld load_info K × Bool
  run (create a now) ok w = create_authority load_info K a now ok w
  run (refresh a is_refresh now) ok w = update_authority load_info K a is_refresh now ok w
  run (delete a) ok w = remove_authority load_info K a ok w

  -- Exactly the authorities of the configuration have a monitor.
  abbrev pub AreMonitored : AuthWorld load_info K → Type 0
  AreMonitored w =
      (k : String) → is_monitored k w.monitors ≡ has_id load_info k w.world.global.authorities

  update-AreMonitored :
      (a : Authority) (is_refresh : Bool) (now : ℕ) (w : AuthWorld load_info K)
      → AreMonitored w
      → AreMonitored (update_authority load_info K a is_refresh now true w).0
  unfolding update_authority save
  update-AreMonitored a is_refresh now w h k =
      h k ∙ sym (has_id-update_all load_info L k _ is_refresh now w.world.global.authorities)

  append-AreMonitored :
      (a : Authority) (w : AuthWorld load_info K)
      → AreMonitored w
      → AreMonitored (append_authority load_info K a true w).0
  unfolding save
  append-AreMonitored a w h k =
      rw
        (
          is_monitored-get k (loaded load_info a).id w.monitors,
          has_id-append load_info k (load_all load_info w.world.global.authorities) a,
          has_id-load_all load_info L k w.world.global.authorities,
          h k,
        )
        refl

  removed-AreMonitored :
      (a gone : Authority) (w : AuthWorld load_info K)
      → AreMonitored w
      → AreMonitored (removed load_info K a gone true w).0
  unfolding save
  removed-AreMonitored a gone w h k =
      rw
        (
          is_monitored-stop k (loaded load_info a).id w.monitors,
          has_id-without_same load_info L k a w.world.global.authorities,
          h k,
        )
        refl

  -- When the change is saved, then after a login, an update or a removal of an authority exactly the
  -- authorities of the configuration have a monitor that refreshes their tokens, if it was so before.
  pub run-AreMonitored :
      (c : AuthCommand) (w : AuthWorld load_info K) → AreMonitored w → AreMonitored (run c true w).0
  unfolding run create_authority remove_authority
  run-AreMonitored (create a now) w h =
      elim (Bool-cases (exists_same load_info (load_info a) w.world.global.authorities)) [
        | inl e ↦ rw e (update-AreMonitored (load_info a) false now w h)
        | inr e ↦ rw e (append-AreMonitored _ w h)
      ]
  run-AreMonitored (refresh a is_refresh now) w h = update-AreMonitored a is_refresh now w h
  run-AreMonitored (delete a) w h =
      elim (Option-cases (last_same load_info a w.world.global.authorities)) [
        | inl e ↦
            rw (e, remove_authority)
              (λ k. h k ∙ sym (has_id-load_all load_info L k w.world.global.authorities))
        | inr (gone, e) ↦ rw (e, remove_authority) (removed-AreMonitored a gone w h)
      ]
