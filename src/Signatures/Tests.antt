-- ===== src/Signatures/Tests.antt =====
-- A toy scheme: a key is a text, and a signature is the key before the text.
use Prim.Native.String.{◌++◌}
use sentinel_ai_v3_0_the_fin.Prelude.{
  String, ◌≡◌, inl, refl, none, some, ◌==◌, eq_refl, if◌then◌else◌,
}
use sentinel_ai_v3_0_the_fin.Signatures.{
  Rsa, Files, policy_path, write, signed, genuine, tampering, sign_policy, verify_policy_integrity,
}
use sentinel_ai_v3_0_the_fin.Signatures.Integrity.{sign-verify}

abbrev toy : Rsa
toy = record {
  PrivateKey = String;
  PublicKey = String;
  public_key = λ k. k;
  private_bytes = λ k. k;
  public_bytes = λ k. k;
  load_pem_private_key = some;
  load_pem_public_key = some;
  sign = λ k m. k ++ m;
  verify = λ k s m. s == (k ++ m);
  load_private-bytes = λ k. refl;
  load_public-bytes = λ k. refl;
  verify-sign = λ k m. eq_refl (k ++ m);
}

abbrev one_policy : Files
one_policy p = if p == policy_path then some "actions: {}" else none

abbrev digest : String → String
digest s = s

sign-verify_example :
    let r = sign_policy toy "k1" one_policy in
    (r.0 ≡ signed)
    × (r.1 policy_path ≡ some "actions: {}")
    × (verify_policy_integrity toy digest r.1 ≡ genuine "actions: {}")
sign-verify_example =
    sign-verify toy digest "k1" one_policy "actions: {}" (record { policy = refl; keys = inl refl })

altered_after_signing :
    verify_policy_integrity toy digest
      (write policy_path "actions: all" (sign_policy toy "k1" one_policy).1)
    ≡ tampering
unfolding verify_policy_integrity sign_policy write
altered_after_signing = refl
