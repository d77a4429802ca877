-- ===== src/AuditBuffer/Tests.antt =====
-- Six audits and a tick.
use sentinel_ai_v3_0_the_fin.Prelude.{◌≡◌, refl, some, List, [], ◌∷◌}
use sentinel_ai_v3_0_the_fin.AuditBuffer.{
  empty_buffer, append_event, flush_rest, Operation, audit, tick,
}
use sentinel_ai_v3_0_the_fin.AuditBuffer.Events.{then_run, Delivers, operations-Delivers}

abbrev traffic : List Operation
traffic = audit "a" ∷ audit "b" ∷ audit "c" ∷ audit "d" ∷ audit "e" ∷ audit "f" ∷ tick ∷ tick ∷ []

two_batches :
    then_run traffic (some empty_buffer)
    ≡ some (record { events = []; batches = ("a" ∷ "b" ∷ "c" ∷ "d" ∷ "e" ∷ []) ∷ ("f" ∷ []) ∷ [] })
unfolding append_event flush_rest
two_batches = refl

operations-Delivers_example : Delivers [] traffic empty_buffer
operations-Delivers_example = operations-Delivers traffic
