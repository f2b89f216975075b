-- ===== src/Control/Http/Settings.antt =====
-- control/http-handler-conf.go: the configuration over HTTP. JSON is a parameter.
use cells_sync.Prelude.{
  ◌≡◌, ◌⊎◌, inl, inr, String, Bool, true, Option, none, some, if◌then◌else◌, ◌==◌, bool_eq, ◌>>=◌,
  >>=-eq-some, Bool-cases, arith,
}
use cells_sync.Config.Keyring.{Keyring}
use cells_sync.Config.Global.{Global, Logs, Updates, World, update_globals, save}
use cells_sync.Config.Autostart.{
  Installer, ServiceManager, set_auto_start_value, read_auto_start_value,
}
use cells_sync.Config.Autostart.Truthful.{IsHonest}

pub data ConfAnswer : Type 0 where
  failed : String → ConfAnswer
  conf : Global → ConfAnswer

module _ (K : Keyring) {D : Type 0} (S : ServiceManager D) (i : Option (Installer D)) where
  -- `loadConf`
  unfoldable pub load_conf : World K → ConfAnswer
  load_conf w = conf w.global

  -- The call of `setAutoStartValue` in `UpdateGlobals`, if there is one.
  abbrev pub change_auto_start : Option Bool → Option Bool → D → Option (D × Bool)
  change_auto_start none now d = some (d, true)
  change_auto_start (some wanted) none d = some (d, true)
  change_auto_start (some wanted) (some now) d =
      if wanted == now then some (d, true) else set_auto_start_value S i wanted d

  abbrev pub answered : D → World K × Bool → Option (World K × D × ConfAnswer)
  answered d (w, saved) = some (w, d, if saved then conf w.global else failed "cannot save")

  -- `updateConf`, for the configuration that the decoder finds (`none` is a body null) or its error.
  unfoldable pub update_conf :
      Bool → String ⊎ Option Global → D → World K → Option (World K × D × ConfAnswer)
  update_conf write_ok (inl e) d w = some (w, d, failed e)
  update_conf write_ok (inr none) d w = none
  update_conf write_ok (inr (some g)) d w =
      change_auto_start g.auto_start w.global.auto_start d >>= λ (d', ok).
      answered d'
        (update_globals K (λ b. ok) g.logs g.updates g.show_panels g.auto_start write_ok w)

  update_globals-reads :
      (h : IsHonest S i) (logs : Option Logs) (updates : Option Updates)
      (panels wanted : Option Bool) (write_ok : Bool) (d : D) (w : World K) (r : D × Bool)
      → w.global.auto_start ≡ some (read_auto_start_value S i d)
      → change_auto_start wanted w.global.auto_start d ≡ some r
      → (update_globals K (λ b. r.1) logs updates panels wanted write_ok w).0.global.auto_start
        ≡ some (read_auto_start_value S i r.0)
  unfolding update_globals save
  update_globals-reads h logs updates panels none write_ok d w r e c = ground (arith, c, e)
  update_globals-reads h logs updates panels (some b) write_ok d w r e c =
      let seen = read_auto_start_value S i d in
      elim (Bool-cases (b == seen)) [
        | inl same_ ↦ ground (arith, same_, c, e, bool_eq.same_iff b seen)
        | inr other ↦
            let c' : set_auto_start_value S i b d ≡ some r = rw other at (rw e at c) in
            ground (arith, other, e, h.sets b d r c')
      ]

  -- With installers and services that are honest, the section on the automatic start says what the
  -- system does, before a request and so after it, whatever is asked for and whether or not the file
  -- can be written.
  pub update_conf-IsTruthful :
      (h : IsHonest S i) (write_ok : Bool) (body : String ⊎ Option Global) (d d' : D)
      (w w' : World K) (a : ConfAnswer)
      → w.global.auto_start ≡ some (read_auto_start_value S i d)
      → update_conf write_ok body d w ≡ some (w', d', a)
      → w'.global.auto_start ≡ some (read_auto_start_value S i d')
  unfolding update_conf
  update_conf-IsTruthful h write_ok (inl x) d d' w w' a e u = ground (arith, u, e)
  update_conf-IsTruthful h write_ok (inr none) d d' w w' a e u = cc
  update_conf-IsTruthful h write_ok (inr (some g)) d d' w w' a e u =
      let (r, c, v) = >>=-eq-some (change_auto_start g.auto_start w.global.auto_start d) _ u in
      let t =
        update_globals-reads h g.logs g.updates g.show_panels g.auto_start write_ok d w r e c in
      ground (arith, t, v)

  -- A request that does not panic changes neither the tasks nor the authorities nor who watches, starts
  -- no event, and takes over each section that it gives; the answer is what `loadConf` says next, or
  -- an error where the file was not written or the body not read.
  pub update_conf-keeps :
      (write_ok : Bool) (g : Global) (d d' : D) (w w' : World K) (a : ConfAnswer)
      → update_conf write_ok (inr (some g)) d w ≡ some (w', d', a)
      → (w'.global.tasks ≡ w.global.tasks)
        × (w'.global.authorities ≡ w.global.authorities)
        × (w'.global.changes ≡ w.global.changes)
        × (w'.events ≡ w.events)
        × (a ≡ (if write_ok then load_conf w' else failed "cannot save"))
        × ((l : Logs) → g.logs ≡ some l → w'.global.logs ≡ some l)
        × ((u : Updates) → g.updates ≡ some u → w'.global.updates ≡ some u)
  unfolding update_conf load_conf update_globals save
  update_conf-keeps write_ok g d d' w w' a u =
      let (r, c, v) = >>=-eq-some (change_auto_start g.auto_start w.global.auto_start d) _ u in
      (
        ground (arith, v),
        ground (arith, v),
        ground (arith, v),
        ground (arith, v),
        ground (arith, v),
        λ l e. ground (arith, v, e),
        λ x e. ground (arith, v, e),
      )
