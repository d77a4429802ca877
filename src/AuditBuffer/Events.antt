-- ===== src/AuditBuffer/Events.antt =====
-- No event is lost, repeated or refused.
use mathlib.Core.List.{append_assoc, append-nil}
use sentinel_ai_v3_0_the_fin.Prelude.{
  ℕ, ◌<◌, String, ◌≡◌, refl, sym, ap, ◌∙◌, subst, false, Option, none, some, List, [], ◌∷◌, ◌++◌,
  length, leb, arith, Bool-cases, inl, inr,
}
use sentinel_ai_v3_0_the_fin.AuditBuffer.{
  AuditBuffer, empty_buffer, flush_threshold, max_buffer_size, hand_over, append_event, flush_rest,
  Operation, audit, tick, perform,
}

abbrev pub joined : List (List String) → List String
joined [] = []
joined (b ∷ bs) = b ++ joined bs

-- All events that the buffer has taken, in their order.
abbrev pub taken : AuditBuffer → List String
taken b = joined b.batches ++ b.events

abbrev pub audited : Operation → List String
audited (audit event_hash) = event_hash ∷ []
audited tick = []

joined-append : (bs : List (List String)) (b : List String) → joined (bs ++ b ∷ []) ≡ joined bs ++ b
joined-append [] b = append-nil b
joined-append (x ∷ bs) b =
    ap (λ z. x ++ z) (joined-append bs b) ∙ sym (append_assoc x (joined bs) b)

taken-hand_over : (b : AuditBuffer) → taken (hand_over b) ≡ taken b
taken-hand_over b =
    append-nil (joined (b.batches ++ b.events ∷ [])) ∙ joined-append b.batches b.events

-- The invariant of the buffer after the events `all`.
pub record Holds (all : List String) (b : AuditBuffer) : Type 0 where
  pub kept : taken b ≡ all
  pub short : length b.events < flush_threshold

-- An operation on a buffer that holds some events.
pub record Performs (all : List String) (o : Operation) (b : AuditBuffer) : Type 0 where
  pub result : AuditBuffer
  pub succeeds : perform o b ≡ some result
  pub holds : Holds (all ++ audited o) result

not_full : (n : ℕ) → n < flush_threshold → leb max_buffer_size n ≡ false
not_full n h = ground arith

pub append_event-Performs :
    (all : List String) (h : String) (b : AuditBuffer) → Holds all b → Performs all (audit h) b
unfolding append_event
append_event-Performs all h b inv =
    let b' : AuditBuffer = record b { events = b.events ++ h ∷ [] } in
    let kept : taken b' ≡ all ++ h ∷ [] =
      sym (append_assoc (joined b.batches) b.events (h ∷ [])) ∙ ap (λ z. z ++ h ∷ []) inv.kept in
    let room = not_full (length b.events) inv.short in
    elim (Bool-cases (leb flush_threshold (length b'.events))) [
      | inl q ↦ record {
        result = hand_over b';
        succeeds = rw room (rw q refl);
        holds = record { kept = taken-hand_over b' ∙ kept; short = omega arith };
      }
      | inr q ↦ record {
        result = b';
        succeeds = rw room (rw q refl);
        holds = record { kept = kept; short = ground (arith, q) };
      }
    ]

tick-Performs : (all : List String) (b : AuditBuffer) → Holds all b → Performs all tick b
unfolding flush_rest
tick-Performs all b inv = ticked b.events b.batches inv
  where
    ticked :
        (es : List String) (bs : List (List String))
        → Holds all (record { events = es; batches = bs })
        → Performs all tick (record { events = es; batches = bs })
    ticked [] bs h = record {
      result = record { events = []; batches = bs };
      succeeds = refl;
      holds = record { kept = h.kept ∙ sym (append-nil all); short = omega arith };
    }
    ticked (e ∷ es) bs h = record {
      result = hand_over (record { events = e ∷ es; batches = bs });
      succeeds = refl;
      holds = record {
        kept =
            taken-hand_over (record { events = e ∷ es; batches = bs })
            ∙ h.kept
            ∙ sym (append-nil all);
        short = omega arith;
      };
    }

operation-Performs :
    (all : List String) (o : Operation) (b : AuditBuffer) → Holds all b → Performs all o b
operation-Performs all (audit h) b inv = append_event-Performs all h b inv
operation-Performs all tick b inv = tick-Performs all b inv

abbrev pub then_run : List Operation → Option AuditBuffer → Option AuditBuffer
then_run os none = none
then_run [] (some b) = some b
then_run (o ∷ os) (some b) = then_run os (perform o b)

abbrev pub all_audited : List Operation → List String
all_audited [] = []
all_audited (o ∷ os) = audited o ++ all_audited os

-- The events of the operations, all of them, in their order, less than five of them unsent.
pub record Delivers (before : List String) (os : List Operation) (b : AuditBuffer) : Type 0 where
  pub result : AuditBuffer
  pub succeeds : then_run os (some b) ≡ some result
  pub holds : Holds (before ++ all_audited os) result

run-Delivers :
    (before : List String) (os : List Operation) (b : AuditBuffer)
    → Holds before b
    → Delivers before os b
run-Delivers before [] b h = record {
  result = b;
  succeeds = refl;
  holds = subst (λ z. Holds z b) (sym (append-nil before)) h;
}
run-Delivers before (o ∷ os) b h =
    let first = operation-Performs before o b h in
    let rest = run-Delivers (before ++ audited o) os first.result first.holds in
    record {
      result = rest.result;
      succeeds = ap (then_run os) first.succeeds ∙ rest.succeeds;
      holds =
          subst (λ z. Holds z rest.result) (append_assoc before (audited o) (all_audited os))
            rest.holds;
    }

-- Whatever audits and ticks of the timer follow one another, no audit finds the buffer full, and the
-- batches that were handed over, followed by the less than five events that wait, are the audited
-- events in their order, each once.
pub operations-Delivers : (os : List Operation) → Delivers [] os empty_buffer
operations-Delivers os =
    run-Delivers [] os empty_buffer (record { kept = refl; short = omega arith })
