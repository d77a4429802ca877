-- ===== src/Signatures/Integrity.antt =====
-- What a signed policy is worth.
use sentinel_ai_v3_0_the_fin.Prelude.{
  String, ◌≡◌, ◌↔◌, ◌⊎◌, inl, inr, refl, sym, ap, ◌∙◌, true, Option, none, some, arith, Bool-cases,
  Option-cases,
}
use sentinel_ai_v3_0_the_fin.Signatures.{
  Rsa, Files, policy_path, sig_path, private_key_path, public_key_path, write, signed, check_files,
  check_signature, genuine, sign_policy, verify_policy_integrity,
}

module _ (rsa : Rsa) (sha256 : String → String) where
  -- Files on which `sign_policy` can succeed: there is a policy; and there is no private key yet, or
  -- there is one that belongs to the public key.
  pub record CanSign (files : Files) (payload : String) : Type 0 where
    pub policy : files policy_path ≡ some payload
    pub keys :
        (files private_key_path ≡ none)
        ⊎ ((key : rsa.PrivateKey) × (files private_key_path ≡ some (rsa.private_bytes key))
            × (files public_key_path ≡ some (rsa.public_bytes (rsa.public_key key))))

  -- A policy that was signed verifies: after `sign_policy` the gateway's check returns the hash of the
  -- policy, and the policy's file is as it was. A private key that is there must belong to the public
  -- key that the gateway has.
  pub sign-verify :
      (fresh : rsa.PrivateKey) (files : Files) (payload : String)
      → CanSign files payload
      → let r = sign_policy rsa fresh files in
        (r.0 ≡ signed)
        × (r.1 policy_path ≡ some payload)
        × (verify_policy_integrity rsa sha256 r.1 ≡ genuine (sha256 payload))
  unfolding sign_policy verify_policy_integrity write
  sign-verify fresh files payload h = elim h.keys [
    | inl no_key ↦ ground (
      arith,
      h.policy,
      no_key,
      rsa.load_private-bytes fresh,
      rsa.load_public-bytes (rsa.public_key fresh),
      rsa.verify-sign fresh payload,
    )
    | inr (key, p, q) ↦ ground (
      arith,
      h.policy,
      p,
      q,
      rsa.load_private-bytes key,
      rsa.load_public-bytes (rsa.public_key key),
      rsa.verify-sign key payload,
    )
  ]

  -- What the gateway's check has read if it returns a hash.
  pub record IsGenuine (files : Files) (hash : String) : Type 0 where
    pub payload : String
    pub signature : String
    pub pem : String
    pub key : rsa.PublicKey
    pub policy_file : files policy_path ≡ some payload
    pub sig_file : files sig_path ≡ some signature
    pub key_file : files public_key_path ≡ some pem
    pub loaded : rsa.load_pem_public_key pem ≡ some key
    pub valid : rsa.verify key signature payload ≡ true
    pub hashed : hash ≡ sha256 payload

  genuine_of_files :
      (files : Files) (policy signature pem : Option String) (hash : String)
      → files policy_path ≡ policy
      → files sig_path ≡ signature
      → files public_key_path ≡ pem
      → check_files rsa sha256 policy signature pem ≡ genuine hash
      → IsGenuine files hash
  genuine_of_files files (some m) (some s) (some pem) hash p q r e =
      elim (Option-cases (rsa.load_pem_public_key pem)) [
        | inl bad ↦ cc (e, ap (λ k. check_signature rsa sha256 k m s) bad)
        | inr (key, l) ↦
            let e' = sym (ap (λ k. check_signature rsa sha256 k m s) l) ∙ e in
            elim (Bool-cases (rsa.verify key s m)) [
              | inl v ↦ record {
                payload = m;
                signature = s;
                pem = pem;
                key = key;
                policy_file = p;
                sig_file = q;
                key_file = r;
                loaded = l;
                valid = v;
                hashed = ground (arith, e', v);
              }
              | inr v ↦ ground (arith, e', v)
            ]
      ]
  genuine_of_files files none signature pem hash p q r e = cc e
  genuine_of_files files (some m) none pem hash p q r e = cc e
  genuine_of_files files (some m) (some s) none hash p q r e = cc e

  -- The gateway's check returns a hash exactly for files that are all there, with a key that parses
  -- and a signature that this key accepts for the policy whose hash it is.
  pub genuine_iff :
      (files : Files) (hash : String)
      → (verify_policy_integrity rsa sha256 files ≡ genuine hash) ↔ IsGenuine files hash
  unfolding verify_policy_integrity
  genuine_iff files hash = (
    λ e.
        genuine_of_files files (files policy_path) (files sig_path) (files public_key_path) hash
          refl refl refl e,
    λ h. ground (arith, h.policy_file, h.sig_file, h.key_file, h.loaded, h.valid, h.hashed),
  )
