-- ===== src/Control/Updater/Download.antt =====
-- control/updater.go: `ApplyUpdate`. Its own goroutine reads the progress from a channel without a
-- buffer and publishes it, beside the download. A list of actions is one interleaving of the two.
use cells_sync.Prelude.{
  ℕ, ◌+◌, ◌*◌, ◌/◌, zero, suc, String, ◌<>◌, Bool, true, false, ◌||◌, not, Option, none, some, List,
  [], ◌∷◌, ◌++◌, map, ◌⊎◌, inl, inr, if◌then◌else◌, ◌==◌, string_eq, nat_eq,
}
use cells_sync.Control.Updater.{Package, UpdateMessage, apply_status, Host}

-- The floats of the progress, on bits.
pub record Doubles : Type 0 where
  pub zero_bits : ℕ
  pub one_bits : ℕ
  pub exceeds : ℕ → ℕ → Bool  -- new and old: new - old > 0.01
  pub fraction : ℕ → ℕ → ℕ  -- of two integers
  pub single : ℕ → ℕ  -- float32(x), with which a progress is published

-- `update2.Options`, for a key of type K. The hash and the verifier are constants.
pub record Options {κ} (K : Type κ) : Type κ where
  pub checksum : List ℕ
  pub signature : List ℕ
  pub target_path : String
  pub old_save_path : String
  pub public_key : K

-- What the code calls. A download answers with its status and its body; `install` gives the progress
-- of the body while it is read, and the error.
pub record Installer {κ} (K B : Type κ) : Type κ where
  pub pem_decode : String → Option (List ℕ)
  pub asn1_key : List ℕ → String ⊎ K
  pub download : String → String ⊎ (ℕ × B)
  pub plain : B → String
  pub base64 : String → String ⊎ List ℕ
  pub install : B → Options K → List ℕ × Option String

-- The part of `ApplyUpdate` that runs beside the progress: what it sends to the channel of the
-- progress, its error, and the options of `update2.Apply`, when it is called.
pub record Outcome {κ} (K : Type κ) : Type κ where
  pub progress : List ℕ
  pub error : Option String
  pub applied : Option (Options K)

-- The numbers from `i` on, `n` of them.
unfoldable pub range : ℕ → ℕ → List ℕ
range i zero = []
range i (suc n) = i ∷ range (suc i) n

pub data Action : Type 0 where
  send take finish : Action

module _ (F : Doubles) where
  -- The loop of the debug mode. `i` takes the multiples of 1024 below the size.
  unfoldable pub fake_progress : ℕ → List ℕ
  fake_progress size = map (λ k. F.fraction (k * 1024) size) (range 0 ((size + 1023) / 1024))

  module _ {κ} {K B : Type κ} (H : Host) (I : Installer K B) where
    abbrev failed : String → Outcome K
    failed e = record { progress = []; error = some e; applied = none }

    abbrev pub target_of : Bool → String
    target_of dry = if dry then H.join H.temp_dir "pydio-update" else ""

    abbrev pub old_path : String
    old_path =
        if H.mkdir_all (H.join H.data_dir "backups")
        then H.join (H.join H.data_dir "backups") ("revision-" <> H.build_stamp)
        else H.join H.data_dir ("revision-" <> H.build_stamp)

    abbrev installed : Options K → List ℕ × Option String → Outcome K
    installed o (progress, error) = record { progress = progress; error = error; applied = some o }

    abbrev options : K → Bool → List ℕ → List ℕ → Options K
    options key dry checksum signature = record {
      checksum = checksum;
      signature = signature;
      target_path = target_of dry;
      old_save_path = old_path;
      public_key = key;
    }

    abbrev pub with_signature : K → B → Bool → List ℕ → String ⊎ List ℕ → Outcome K
    with_signature key body dry checksum (inl e) = failed e
    with_signature key body dry checksum (inr signature) =
        let o = options key dry checksum signature in installed o (I.install body o)

    abbrev pub with_checksum : K → Package → B → Bool → String ⊎ List ℕ → Outcome K
    with_checksum key p body dry (inl e) = failed e
    with_checksum key p body dry (inr checksum) =
        with_signature key body dry checksum (I.base64 p.binary_signature)

    abbrev pub with_body : K → Package → Bool → String ⊎ (ℕ × B) → Outcome K
    with_body key p dry (inl e) = failed e
    with_body key p dry (inr (status, body)) =
        if not (status == 200)
        then failed (
            "error while downloading binary: "
            <> I.plain body
            <> " (status "
            <> H.status_text status
            <> ")")
        else if p.binary_checksum == "" || p.binary_signature == ""
        then failed "Missing checksum and signature infos"
        else with_checksum key p body dry (I.base64 p.binary_checksum)

    abbrev pub with_key : Bool → Package → Bool → String ⊎ K → Outcome K
    with_key debug p dry (inl e) = failed e
    with_key debug p dry (inr key) =
        if debug
        then record { progress = fake_progress p.binary_size; error = none; applied = none }
        else with_body key p dry (I.download p.binary_url)

    abbrev pub with_block : Bool → Package → Bool → Option (List ℕ) → Outcome K
    with_block debug p dry none = failed "cannot decode public key as PEM format"
    with_block debug p dry (some bytes) = with_key debug p dry (I.asn1_key bytes)

    unfoldable pub download : Bool → String → Package → Bool → Outcome K
    download debug key p dry =
        if key == "" then failed "empty public key" else with_block debug p dry (I.pem_decode key)

  -- The two goroutines. `held` is a progress that was read and is not yet published or dropped.
  pub record Running : Type 0 where
    pub to_send : List ℕ
    pub failure : Option String
    pub held : Option ℕ
    pub previous : ℕ
    pub ended : Bool
    pub published : List UpdateMessage

  module _ (p : Package) where
    unfoldable pub running : List ℕ → Option String → Running
    running progress failure = record {
      to_send = progress;
      failure = failure;
      held = none;
      previous = F.zero_bits;
      ended = false;
      published = [];
    }

    -- `pgChan <- pg` meets `pg := <-pgChan`.
    abbrev pub sends : List ℕ → Option ℕ → Running → Running
    sends (pg ∷ pgs) none r = record r { to_send = pgs; held = some pg }
    sends _ _ r = r

    -- The rest of the case of the progress.
    abbrev pub takes : Option ℕ → Running → Running
    takes none r = r
    takes (some pg) r =
        if F.exceeds pg r.previous
        then record r {
          held = none;
          previous = pg;
          published = r.published ++ (apply_status "downloading" p (F.single pg) "" ∷ []);
        }
        else record r { held = none }

    -- The last message: that of `publishError` or of the deferred function.
    abbrev pub last_status : Option String → UpdateMessage
    last_status none = apply_status "done" p (F.single F.one_bits) ""
    last_status (some e) = apply_status "error" p (F.single F.zero_bits) e

    abbrev pub finishes : List ℕ → Bool → Running → Running
    finishes [] false r = record r {
      ended = true;
      published = r.published ++ (last_status r.failure ∷ []);
    }
    finishes _ _ r = r

    -- An action that cannot be taken leaves everything as it is.
    unfoldable pub act : Action → Running → Running
    act send r = sends r.to_send r.held r
    act take r = takes r.held r
    act finish r = finishes r.to_send r.ended r

    unfoldable pub act_all : List Action → Running → Running
    act_all [] r = r
    act_all (a ∷ as') r = act_all as' (act a r)

  -- `ApplyUpdate`, in one interleaving.
  unfoldable pub apply_update {κ} :
      {K B : Type κ} → Host → Installer K B → Bool → String → Package → Bool → List Action → Running
  apply_update H I debug key p dry actions =
      let o = download H I debug key p dry in act_all p actions (running p o.progress o.error)
