-- ===== src/Control/Updater/Verified.antt =====
-- control/updater.go: what is known of a binary that replaces the running one.
use cells_sync.Prelude.{
  ℕ, ◌≡◌, ◌≢◌, refl, sym, ap, arith, String, Bool, true, false, ◌||◌, Option, none, some, List, ◌⊎◌,
  inl, inr, ◌==◌, string_eq, nat_eq, nat_beq_iff, eq_iff, Bool-cases,
}
use cells_sync.Control.Updater.{Package, Host}
use cells_sync.Control.Updater.Download.{
  Doubles, Options, Installer, target_of, with_signature, with_checksum, with_body, with_key,
  with_block, download,
}

module _ {κ} (F : Doubles) {K B : Type κ} (H : Host) (I : Installer K B) (p : Package)
    (dry : Bool) where
  -- The checksum and the signature of the package are there and decode to those of the options, and
  -- the path of the target is that of the mode.
  abbrev pub IsSigned : Options K → Type 0
  IsSigned o =
      (p.binary_checksum ≢ "")
      × (p.binary_signature ≢ "")
      × (I.base64 p.binary_checksum ≡ inr o.checksum)
      × (I.base64 p.binary_signature ≡ inr o.signature)
      × (o.target_path ≡ target_of F H I dry)

  with_signature-applied :
      (key : K) (body : B) (checksum : List ℕ) (s : String ⊎ List ℕ) (o : Options K)
      → (with_signature F H I key body dry checksum s).applied ≡ some o
      → (s ≡ inr o.signature)
        × (o.checksum ≡ checksum)
        × (o.public_key ≡ key)
        × (o.target_path ≡ target_of F H I dry)
  with_signature-applied key body checksum (inl e) o h = cc
  with_signature-applied key body checksum (inr s) o h = ground arith

  with_checksum-applied :
      (key : K) (body : B) (s : String ⊎ List ℕ) (o : Options K)
      → (with_checksum F H I key p body dry s).applied ≡ some o
      → (s ≡ inr o.checksum)
        × (I.base64 p.binary_signature ≡ inr o.signature)
        × (o.public_key ≡ key)
        × (o.target_path ≡ target_of F H I dry)
  with_checksum-applied key body (inl e) o h = cc
  with_checksum-applied key body (inr s) o h =
      ground (arith, with_signature-applied key body s (I.base64 p.binary_signature) o h)

  with_body-applied :
      (key : K) (d : String ⊎ (ℕ × B)) (o : Options K)
      → (with_body F H I key p dry d).applied ≡ some o
      → ((body : B) × (d ≡ inr (200, body))) × (o.public_key ≡ key) × IsSigned o
  with_body-applied key (inl e) o h = cc
  with_body-applied key (inr (status, body)) o h = elim (Bool-cases (status == 200)) [
    | inl ok_ ↦ elim (Bool-cases (p.binary_checksum == "" || p.binary_signature == "")) [
      | inl missing ↦ ground (arith, h, ok_, missing)
      | inr there ↦
          let c =
            with_checksum-applied key body (I.base64 p.binary_checksum) o (rw (ok_, there) at h) in
          (
            (body, ap (λ n. inr (n, body)) ((nat_beq_iff status 200).0 ok_)),
            c.2,
            (
              ground (arith, there, eq_iff p.binary_checksum ""),
              ground (arith, there, eq_iff p.binary_signature ""),
              c.0,
              c.1,
              c.3,
            ),
          )
    ]
    | inr bad ↦ ground (arith, h, bad)
  ]

  with_key-applied :
      (debug : Bool) (k : String ⊎ K) (o : Options K)
      → (with_key F H I debug p dry k).applied ≡ some o
      → (debug ≡ false)
        × (k ≡ inr o.public_key)
        × ((body : B) × (I.download p.binary_url ≡ inr (200, body)))
        × IsSigned o
  with_key-applied debug (inl e) o h = cc
  with_key-applied true (inr key) o h = cc
  with_key-applied false (inr key) o h =
      let c = with_body-applied key (I.download p.binary_url) o h in
      (refl, ap (λ k. inr k) (sym c.1), c.0, c.2)

  with_block-applied :
      (debug : Bool) (bytes : Option (List ℕ)) (o : Options K)
      → (with_block F H I debug p dry bytes).applied ≡ some o
      → ((block : List ℕ) × (bytes ≡ some block) × (I.asn1_key block ≡ inr o.public_key))
        × (debug ≡ false)
        × ((body : B) × (I.download p.binary_url ≡ inr (200, body)))
        × IsSigned o
  with_block-applied debug none o h = cc
  with_block-applied debug (some bytes) o h =
      let c = with_key-applied debug (I.asn1_key bytes) o h in ((bytes, refl, c.1), c.0, c.2, c.3)

  -- A binary is installed only outside the debug mode, with the public key of the configuration, when
  -- it could be downloaded and the package has a checksum and a signature that can be decoded; these are
  -- what the installer verifies it with. A dry run installs it in the directory for temporary files.
  pub download-applied :
      (debug : Bool) (key : String) (o : Options K)
      → (download F H I debug key p dry).applied ≡ some o
      → ((block : List ℕ) × (I.pem_decode key ≡ some block) × (I.asn1_key block ≡ inr o.public_key))
        × (debug ≡ false)
        × ((body : B) × (I.download p.binary_url ≡ inr (200, body)))
        × IsSigned o
  unfolding download
  download-applied debug key o h = elim (Bool-cases (key == "")) [
    | inl e ↦ ground (arith, h, e)
    | inr e ↦ with_block-applied debug (I.pem_decode key) o (rw e at h)
  ]
