-- ===== src/Siem/Keys.antt =====
-- The keys of core/crypto_audit.py and siem_service.py: how a batch is signed and how its signature is
-- judged, with the RSA functions of Signatures. That bytes.hex and bytes.fromhex undo one another is
-- the interface `Hex`.
use sentinel_ai_v3_0_the_fin.Prelude.{
  String, ◌≡◌, Option, none, some, List, ◌++◌, arith, if◌then◌else◌,
}
use sentinel_ai_v3_0_the_fin.Signatures.{
  Rsa, Files, private_key_path, public_key_path, write, generate_keys,
}
use sentinel_ai_v3_0_the_fin.Siem.{
  Judged, genuine, invalid, unreadable, Signer, Trail, get_latest_root,
}
use sentinel_ai_v3_0_the_fin.Siem.Sequences.{
  flush_all, chained, NewAll, synced_batches_are_recorded,
}

-- `none` is the ValueError of bytes.fromhex.
pub record Hex : Type 0 where
  pub hex : String → String
  pub fromhex : String → Option String
  pub fromhex-hex : (bytes : String) → fromhex (hex bytes) ≡ some bytes

abbrev load : {K : Type 0} → (String → Option K) → Option String → Option K
load parse none = none
load parse (some pem) = parse pem

module _ (rsa : Rsa) (hx : Hex) where
  open rsa use {PrivateKey, PublicKey, public_key, sign, verify}

  -- `MerkleManager.__init__`: `none` is a missing or unreadable file.
  unfoldable pub load_private_key : Files → Option PrivateKey
  load_private_key files = load rsa.load_pem_private_key (files private_key_path)

  -- `PUBLIC_KEY` of the witness.
  unfoldable pub load_public_key : Files → Option PublicKey
  load_public_key files = load rsa.load_pem_public_key (files public_key_path)

  -- `MerkleManager.sign_hash`
  unfoldable pub sign_hash : PrivateKey → String → String
  sign_hash private_key payload = hx.hex (sign private_key payload)

  abbrev judge : PublicKey → String → Option String → Judged
  judge key root none = unreadable
  judge key root (some signature) = if verify key signature root then genuine else invalid

  -- The `try` round `PUBLIC_KEY.verify` in `/ingest`.
  unfoldable pub verify_root : PublicKey → String → String → Judged
  verify_root key signature root = judge key root (hx.fromhex signature)

  abbrev pub signer_of : (String → String) → String → PrivateKey → Signer
  signer_of sha256 timestamp key = record {
    sha256 = sha256;
    sign_hash = sign_hash key;
    timestamp = timestamp;
  }

  own_signatures :
      (key : PrivateKey) (root : String)
      → verify_root (public_key key) (sign_hash key root) root ≡ genuine
  unfolding verify_root sign_hash
  own_signatures key root = ground (arith, hx.fromhex-hex (sign key root), rsa.verify-sign key root)

  -- The keys that admin_signer.py generates are a pair for the audit trail: once they are written, the
  -- gateway and the witness both load theirs, and while the gateway's root is the witness's newest
  -- one, any number of batches with new hashes that are flushed one after another and answered are
  -- the next rows of the witness's table, in their order.
  pub generated_keys_record_batches :
      (fresh : PrivateKey) (files : Files) (sha256 : String → String) (timestamp : String)
      (roots : List String) (t : Trail)
      → let s = signer_of sha256 timestamp fresh in
        let verify = verify_root (public_key fresh) in
        t.prev_root ≡ get_latest_root t.rows
        → NewAll verify s t.rows t.prev_root roots
        → let files' = generate_keys rsa fresh files in
          let t' = flush_all verify s roots t in
          (load_private_key files' ≡ some fresh)
          × (load_public_key files' ≡ some (public_key fresh))
          × (t'.rows ≡ t.rows ++ chained verify s t.prev_root roots)
          × (t'.prev_root ≡ get_latest_root t'.rows)
  unfolding load_private_key load_public_key generate_keys write
  generated_keys_record_batches fresh files sha256 timestamp roots t synced new =
      let s = signer_of sha256 timestamp fresh in
      let kept =
        synced_batches_are_recorded (verify_root (public_key fresh)) s (own_signatures fresh) roots
          t synced new in
      (rsa.load_private-bytes fresh, rsa.load_public-bytes (public_key fresh), kept.0, kept.2)
