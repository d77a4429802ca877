-- ===== src/AuditChain/Tests.antt =====
-- The audit chain on concrete ledgers.
use Prim.Native.String.{count}
use Prim.Native.String.count as Count
use sentinel_ai_v3_0_the_fin.Prelude.{
  ℕ, zero, suc, String, ◌≡◌, refl, ap, ◌⊎◌, ◌↔◌, List, [], ◌∷◌, map, false,
}
use sentinel_ai_v3_0_the_fin.Database.{AuditRow}
use sentinel_ai_v3_0_the_fin.Database.Connection.{Runtime}
use sentinel_ai_v3_0_the_fin.AuditChain.{genesis_hash, data_to_hash, intact, verify_audit_chain}
use sentinel_ai_v3_0_the_fin.AuditChain.Chain.{IsChain, row_data, verify_audit_chain_iff}
use sentinel_ai_v3_0_the_fin.AuditChain.Tampering.{LedgersCollide, newest_hash_fixes_ledger}

-- A toy digest of 64 characters: what follows the previous hash, cut or filled up.
skip : ℕ → String → String
skip zero s = s
skip (suc n) String.[] = ""
skip (suc n) (String.◌∷◌ c s) = skip n s

pad : ℕ → String → String
pad zero s = ""
pad (suc n) String.[] = String.◌∷◌ "0" (pad n "")
pad (suc n) (String.◌∷◌ c s) = String.◌∷◌ c (pad n s)

abbrev digest : String → String
digest s = pad 64 (skip 65 s)

count-pad : (n : ℕ) (s : String) → count (pad n s) ≡ n
unfolding pad
count-pad zero s = refl
count-pad (suc n) String.[] = simp Count.cons (ap suc (count-pad n ""))
count-pad (suc n) (String.◌∷◌ c s) = simp Count.cons (ap suc (count-pad n s))

abbrev row : ℕ → String → String → String → AuditRow
row n payload prev current = record {
  seq_id = n;
  tx_id = "t";
  action = "A";
  payload = payload;
  prev_hash = prev;
  current_hash = current;
}

abbrev first_hash : String
first_hash = "t|A|x|y000000000000000000000000000000000000000000000000000000000"

abbrev second_hash : String
second_hash = "t|A|z00000000000000000000000000000000000000000000000000000000000"

abbrev first : AuditRow
first = row 1 "x|y" genesis_hash first_hash

abbrev second : AuditRow
second = row 2 "z" first_hash second_hash

abbrev ledger : List AuditRow
ledger = first ∷ second ∷ []

ledger_intact : verify_audit_chain digest ledger ≡ intact
unfolding verify_audit_chain data_to_hash pad skip
ledger_intact = refl

prefix_intact : verify_audit_chain digest (first ∷ []) ≡ intact
unfolding verify_audit_chain data_to_hash pad skip
prefix_intact = refl

abbrev runtime : Runtime
runtime = record {
  sha256 = digest;
  dumps = λ _. "{}";
  dumps_sorted = λ _. "{}";
  uuid4 = λ _. "u";
  fails = λ _. false;
  others = λ db. db;
}

verify_audit_chain_iff_example :
    (verify_audit_chain digest ledger ≡ intact)
    ↔ ((ledger ≡ [] → ⊥) × IsChain digest genesis_hash ledger)
verify_audit_chain_iff_example = verify_audit_chain_iff digest ledger

-- A payload that the toy digest does not tell from the last one.
abbrev other_ledger : List AuditRow
other_ledger = first ∷ row 2 "z0" first_hash second_hash ∷ []

other_ledger_intact : verify_audit_chain digest other_ledger ≡ intact
unfolding verify_audit_chain data_to_hash pad skip
other_ledger_intact = refl

newest_hash_fixes_ledger_example :
    (map row_data ledger ≡ map row_data other_ledger) ⊎ LedgersCollide digest ledger other_ledger
newest_hash_fixes_ledger_example =
    newest_hash_fixes_ledger digest (λ x. count-pad 64 (skip 65 x)) ledger other_ledger
      ledger_intact other_ledger_intact refl refl
