-- ===== src/Signatures.antt =====
-- admin_signer.py: `sign_policy` and `generate_keys`; core/trust.py: `verify_policy_integrity`. The RSA
-- functions of the `cryptography` package are the parameter `Rsa`, with what its documentation promises
-- of them; the files are a function from paths to contents.
pub mod Integrity
mod Tests
use sentinel_ai_v3_0_the_fin.Prelude.{
  String, ◌≡◌, Bool, true, false, not, ◌||◌, Option, none, some, ◌==◌, if◌then◌else◌, is_some,
}

-- A key that does not parse is a ValueError: `none`.
pub record Rsa : Type 1 where
  pub PrivateKey : Type 0
  pub PublicKey : Type 0
  pub public_key : PrivateKey → PublicKey
  pub private_bytes : PrivateKey → String
  pub public_bytes : PublicKey → String
  pub load_pem_private_key : String → Option PrivateKey
  pub load_pem_public_key : String → Option PublicKey
  pub sign : PrivateKey → String → String
  pub verify : PublicKey → String → String → Bool
  pub load_private-bytes : (k : PrivateKey) → load_pem_private_key (private_bytes k) ≡ some k
  pub load_public-bytes : (k : PublicKey) → load_pem_public_key (public_bytes k) ≡ some k
  pub verify-sign : (k : PrivateKey) (m : String) → verify (public_key k) (sign k m) m ≡ true

abbrev pub Files : Type 0
Files = String → Option String

abbrev pub policy_path : String
policy_path = "core/policies.yaml"

abbrev pub sig_path : String
sig_path = "core/policies.sig"

abbrev pub private_key_path : String
private_key_path = "private.pem"

abbrev pub public_key_path : String
public_key_path = "core/public.pem"

unfoldable pub write : String → String → Files → Files
write path contents files p = if p == path then some contents else files p

-- How `sign_policy` may end.
pub data Signed : Type 0 where
  signed : Signed
  no_policy_file : Signed  -- FileNotFoundError
  bad_private_key : Signed  -- ValueError

-- How `verify_policy_integrity` may end.
pub data Verified : Type 0 where
  genuine : String → Verified  -- the hash for the audit
  missing_files : Verified  -- SecurityTamperingException
  tampering : Verified  -- SecurityTamperingException
  bad_public_key : Verified  -- ValueError

module _ (rsa : Rsa) where
  open rsa use {
    PrivateKey, PublicKey, public_key, private_bytes, public_bytes, load_pem_private_key,
    load_pem_public_key, sign, verify,
  }

  -- `fresh` is the key that `rsa.generate_private_key` draws.
  unfoldable pub generate_keys : PrivateKey → Files → Files
  unfolding write
  generate_keys fresh files =
      write public_key_path (public_bytes (public_key fresh))
        (write private_key_path (private_bytes fresh) files)

  abbrev sign_with : Option PrivateKey → Option String → Files → Signed × Files
  sign_with none payload files = (bad_private_key, files)
  sign_with (some key) none files = (no_policy_file, files)
  sign_with (some key) (some payload) files = (signed, write sig_path (sign key payload) files)

  abbrev load_private : Option String → Option PrivateKey
  load_private none = none
  load_private (some pem) = load_pem_private_key pem

  -- From the test of the private key on.
  abbrev sign_files : Files → Signed × Files
  sign_files files = sign_with (load_private (files private_key_path)) (files policy_path) files

  unfoldable pub sign_policy : PrivateKey → Files → Signed × Files
  unfolding generate_keys
  sign_policy fresh files =
      if not (is_some (files private_key_path))
      then sign_files (generate_keys fresh files)
      else sign_files files

  -- `sha256` is hashlib.sha256(payload).hexdigest().
  abbrev pub check_signature : (String → String) → Option PublicKey → String → String → Verified
  check_signature sha256 none payload signature = bad_public_key
  check_signature sha256 (some key) payload signature =
      if verify key signature payload then genuine (sha256 payload) else tampering

  abbrev pub check_files :
      (String → String) → Option String → Option String → Option String → Verified
  check_files sha256 (some payload) (some signature) (some pem) =
      check_signature sha256 (load_pem_public_key pem) payload signature
  check_files sha256 none signature pem = missing_files
  check_files sha256 (some payload) none pem = missing_files
  check_files sha256 (some payload) (some signature) none = missing_files

  unfoldable pub verify_policy_integrity : (String → String) → Files → Verified
  verify_policy_integrity sha256 files =
      check_files sha256 (files policy_path) (files sig_path) (files public_key_path)
