-- ===== src/AuditBuffer.antt =====
-- core/app/stages.py: `AUDIT_BUFFER`, which `ForensicAuditStage` fills and `periodic_flush` empties,
-- both under `AUDIT_LOCK`, so that each of their bodies is one step.
pub mod Events
mod Tests
use sentinel_ai_v3_0_the_fin.Prelude.{
  ℕ, String, Bool, Option, none, some, List, [], ◌∷◌, ◌++◌, length, leb, if◌then◌else◌,
}

-- The buffer, and the batches for which a task of `flush_batch` has been created.
pub record AuditBuffer : Type 0 where
  pub events : List String
  pub batches : List (List String)

abbrev pub max_buffer_size : ℕ
max_buffer_size = 10000

abbrev pub flush_threshold : ℕ
flush_threshold = 5

abbrev pub empty_buffer : AuditBuffer
empty_buffer = record { events = []; batches = [] }

-- `batch = list(AUDIT_BUFFER); AUDIT_BUFFER.clear(); create_task(flush_batch(batch))`
abbrev pub hand_over : AuditBuffer → AuditBuffer
hand_over b = record { events = []; batches = b.batches ++ b.events ∷ [] }

-- The body of `ForensicAuditStage.process` under the lock; `none` is its RuntimeError.
unfoldable pub append_event : String → AuditBuffer → Option AuditBuffer
append_event event_hash b =
    if leb max_buffer_size (length b.events)
    then none
    else (let b' : AuditBuffer = record b { events = b.events ++ event_hash ∷ [] } in
        if leb flush_threshold (length b'.events) then some (hand_over b') else some b')

-- The body of `periodic_flush` under the lock.
unfoldable pub flush_rest : AuditBuffer → AuditBuffer
flush_rest b = elim b.events [ [] ↦ b | _ ∷ _ ↦ hand_over b ]

-- The stage and the timer, as they take the lock one after another.
pub data Operation : Type 0 where
  audit : String → Operation
  tick : Operation

abbrev pub perform : Operation → AuditBuffer → Option AuditBuffer
perform (audit event_hash) b = append_event event_hash b
perform tick b = some (flush_rest b)
