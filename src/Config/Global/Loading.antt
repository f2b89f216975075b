-- ===== src/Config/Global/Loading.antt =====
-- config/defaults.go and config/file.go: the configuration that `Default` loads at the start, and the
-- monitors of the tokens that it starts.
use cells_sync.Prelude.{
  ◌≡◌, ◌≢◌, refl, ap₂, ◌∙◌, String, Bool, true, false, Option, none, some, List, [], ◌∷◌, All,
  arith, ◌>>=◌, if◌then◌else◌, string_eq,
}
use cells_sync.Config.Types.{Authority}
use cells_sync.Config.Authorities.{load_all, get_token_monitor, is_monitored}
use cells_sync.Config.Authorities.Monitors.{has_id, loaded_lem, is_monitored-get}
use cells_sync.Config.Keyring.{Keyring}
use cells_sync.Config.Keyring.RoundTrip.{IsLawful}
use cells_sync.Config.Global.{Global, new_logs, new_updates, World, save, stored_authorities}
use cells_sync.Config.Global.Saved.{
  load_authorities, IsClean, HasDistinctIds, load-stored_authorities,
}

abbrev filled {ℓ} : {A : Type ℓ} → A → Option A → Option A
filled new none = some new
filled new (some old) = some old

-- The sections that are missing are made new, and the value of the automatic start is read again.
unfoldable pub with_sections : String → String → Bool → Global → Global
with_sections folder key auto g = record g {
  logs = filled (new_logs folder) g.logs;
  updates = filled (new_updates key) g.updates;
  show_panels = filled false g.show_panels;
  auto_start = some auto;
}

unfoldable pub empty_global : Global
empty_global = record {
  tasks = [];
  authorities = [];
  logs = none;
  updates = none;
  show_panels = none;
  auto_start = none;
  changes = 0;
}

abbrev global_of : Option Global → Global
global_of none = empty_global
global_of (some g) = g

-- The package json on configurations, and the texts that it writes.
pub record Json : Type 1 where
  pub Text : Type 0
  pub marshal : Global → Option Text
  pub unmarshal : Text → Option Global

-- JSON reads back what it has written, but for the channels, which it does not write.
pub record IsFaithful (J : Json) : Type 0 where
  pub unmarshal-marshal :
      (g : Global)
      → (bytes : J.Text) × (J.marshal g ≡ some bytes)
        × (J.unmarshal bytes ≡ some (record g { changes = 0 }))

-- `LoadFromFile`, from the content of the file (`none` when it cannot be read), and what `WriteToFile`
-- writes; `none` is an error.
abbrev pub load_from_file : (J : Json) → Option J.Text → Option Global
load_from_file J content = content >>= λ b. J.unmarshal b

abbrev pub write_to_file : (J : Json) → Option Global → Option J.Text
write_to_file J saved = saved >>= λ g. J.marshal g

-- The calls of `getTokenMonitor`.
abbrev pub start_monitors : List Authority → List String → List String
start_monitors [] ms = ms
start_monitors (a ∷ as') ms = start_monitors as' (get_token_monitor a.id ms)

-- An authority that has its id.
abbrev pub IsNamed : Authority → Type 0
IsNamed a = a.id ≢ ""

module _ (load_info : Authority → Authority) where
  load_all-named : (as' : List Authority) → All IsNamed as' → load_all load_info as' ≡ as'
  unfolding load_all
  load_all-named [] h = refl
  load_all-named (a ∷ as') h =
      ap₂ (λ b bs. b ∷ bs) (loaded_lem load_info a h.0) (load_all-named as' h.1)

  is_monitored-start :
      (k : String) (as' : List Authority) (ms : List String)
      → All IsNamed as'
      → is_monitored k (start_monitors as' ms)
        ≡ (if has_id load_info k as' then true else is_monitored k ms)
  is_monitored-start k [] ms h = refl
  is_monitored-start k (a ∷ as') ms h = ground (
    arith,
    is_monitored-start k as' (get_token_monitor a.id ms) h.1,
    is_monitored-get k a.id ms,
    loaded_lem load_info a h.0,
  )

module _ (J : Json) (load_info : Authority → Authority) (K : Keyring) where
  -- `Default`, for the content of the file and the value of `readAutoStartValue`, and the monitors
  -- that are started. The key of an authority without an id loads its information.
  unfoldable pub default_global :
      String → String → Bool → Option J.Text → K.State → Global × List String
  default_global folder key auto content k =
      let g = with_sections folder key auto (global_of (load_from_file J content)) in
      let as' = load_all load_info (load_authorities K g.authorities k) in
      (record g { authorities = as'; changes = 0 }, start_monitors as' [])

  -- A configuration that was saved is the same when the program starts again from the content of its
  -- file, with the keyring as the save left it: the tasks, the sections and the authorities with
  -- their tokens; and each authority has a monitor, which nothing else has. Only the value of the automatic
  -- start is read again, missing sections are made new, and nobody watches yet. JSON must read back
  -- what it writes, and the authorities must have distinct ids that are not empty, and tokens
  -- without slashes.
  pub default_global-save :
      (F : IsFaithful J) (L : IsLawful K) (folder key : String) (auto : Bool) (w : World K)
      → All IsNamed w.global.authorities
      → HasDistinctIds K w.global.authorities
      → All (IsClean K) w.global.authorities
      → let saved = (save K true w).0 in
        let (g, monitors) =
          default_global folder key auto (write_to_file J saved.file) saved.ring in
        (g ≡ record (with_sections folder key auto w.global) { changes = 0 })
        × ((k : String) → is_monitored k monitors ≡ has_id load_info k w.global.authorities)
  unfolding default_global save with_sections
  default_global-save F L folder key auto w named d c =
      let (bytes, written, back) = F.unmarshal-marshal (record (w.global) {
        authorities = (stored_authorities K w.global.authorities w.ring).0;
      }) in
      let again = load-stored_authorities K L w.global.authorities w.ring d c in
      rw (written, back)
        (rw (again, load_all-named load_info w.global.authorities named)
          (refl, λ k. is_monitored-start load_info k w.global.authorities [] named ∙ ground arith))
