-- ===== src/AuditTrail/Tests.antt =====
-- Six audits and a tick, in two batches.
use Prim.Native.String.{◌++◌}
use sentinel_ai_v3_0_the_fin.Prelude.{String, ◌≡◌, refl, none, some, List, [], ◌∷◌, ◌==◌, eq_refl}
use sentinel_ai_v3_0_the_fin.AuditBuffer.{
  AuditBuffer, empty_buffer, Operation, audit, tick, append_event, flush_rest,
}
use sentinel_ai_v3_0_the_fin.AuditBuffer.Events.{then_run}
use sentinel_ai_v3_0_the_fin.Merkle.{build_merkle_root, root_within, new_level}
use sentinel_ai_v3_0_the_fin.Signatures.{Rsa, generate_keys}
use sentinel_ai_v3_0_the_fin.Siem.{payload_of}
use sentinel_ai_v3_0_the_fin.Siem.Sequences.{flush_all}
use sentinel_ai_v3_0_the_fin.Siem.Keys.{Hex, load_private_key, load_public_key}
use sentinel_ai_v3_0_the_fin.AuditTrail.{
  roots_of, first_trail, gateway, witness, Accounts, events-Accounts,
}

-- A key is a text, and a signature is the key before the text.
abbrev toy : Rsa
toy = record {
  PrivateKey = String;
  PublicKey = String;
  public_key = λ k. k;
  private_bytes = λ k. k;
  public_bytes = λ k. k;
  load_pem_private_key = some;
  load_pem_public_key = some;
  sign = λ k m. k ++ m;
  verify = λ k s m. s == (k ++ m);
  load_private-bytes = λ k. refl;
  load_public-bytes = λ k. refl;
  verify-sign = λ k m. eq_refl (k ++ m);
}

abbrev plain : Hex
plain = record { hex = λ s. s; fromhex = some; fromhex-hex = λ s. refl }

abbrev digest : String → String
digest s = "(" ++ (s ++ ")")

abbrev traffic : List Operation
traffic =
    audit "a" ∷ audit "b" ∷ audit "c" ∷ audit "d" ∷ audit "e" ∷ audit "f" ∷ tick ∷ audit "g" ∷ []

abbrev buffer : AuditBuffer
buffer = record {
  events = "g" ∷ [];
  batches = ("a" ∷ "b" ∷ "c" ∷ "d" ∷ "e" ∷ []) ∷ ("f" ∷ []) ∷ [];
}

abbrev roots : List String
roots = "(((ab)(cd))((ee)(ee)))" ∷ "f" ∷ []

two_batches : then_run traffic (some empty_buffer) ≡ some buffer
unfolding append_event flush_rest
two_batches = refl

their_roots : roots_of digest buffer.batches ≡ some roots
unfolding roots_of build_merkle_root root_within new_level
their_roots = refl

events-Accounts_example :
    let files = generate_keys toy "key" (λ p. none) in
    (load_private_key toy plain files ≡ some "key")
    × (load_public_key toy plain files ≡ some "key")
    × Accounts toy plain "key" digest "now" traffic buffer (
        flush_all
          (witness toy plain "key" digest "now")
          (gateway toy plain "key" digest "now")
          roots
          first_trail)
unfolding payload_of
events-Accounts_example =
    events-Accounts toy plain "key" digest "now" (λ p. none) traffic buffer roots two_batches
      their_roots (refl, (refl, tt))
