-- ===== src/OpaClient/Tasks.antt =====
-- The client under interleaved requests and breaker tasks.
use sentinel_ai_v3_0_the_fin.Prelude.{ℕ, ◌+◌, ◌-◌, ◌<◌, ◌≡◌, refl, true, false, arith}
use sentinel_ai_v3_0_the_fin.OpaClient.{
  Reply, OpaClient, on_reply, on_failure, trip_start, trip_end, new_client,
}

-- The client, and the requests that wait for their reply: they have seen the breaker closed.
pub record System : Type 0 where
  pub client : OpaClient
  pub in_flight : ℕ

pub data Step (s : System) : System → Type 0 where
  send : s.client.is_open ≡ false → Step s (record s { in_flight = s.in_flight + 1 })
  receive :
      (r : Reply)
      → 0 < s.in_flight
      → Step s (record { client = (on_reply r s.client).0; in_flight = s.in_flight - 1 })
  start : 0 < s.client.scheduled → Step s (record s { client = trip_start s.client })
  wake : 0 < s.client.sleeping → Step s (record s { client = trip_end s.client })

pub data Reach : System → Type 0 where
  initial : Reach (record { client = new_client; in_flight = 0 })
  next : {s t : System} → Reach s → Step s t → Reach t

-- An open breaker has a task that will close it.
abbrev IsGuarded : System → Type 0
IsGuarded s = s.client.is_open ≡ true → 0 < s.client.sleeping

Step-IsGuarded : {s t : System} → Step s t → IsGuarded s → IsGuarded t
unfolding on_reply on_failure trip_start trip_end
Step-IsGuarded (send c) h = h
Step-IsGuarded (receive r p) h = ground arith
Step-IsGuarded (start p) h = ground arith
Step-IsGuarded (wake p) h = ground arith

Reach-IsGuarded : {s : System} → Reach s → IsGuarded s
Reach-IsGuarded initial = ground arith
Reach-IsGuarded (next r st) = Step-IsGuarded st (Reach-IsGuarded r)

-- However requests and breaker tasks interleave, the breaker is never stuck open: in every reachable
-- state in which it is open, a task is waiting whose end is a possible step, and that step closes the
-- breaker and clears the count of failures.
pub breaker_recovers :
    {s : System}
    → Reach s
    → s.client.is_open ≡ true
    → (t : System) × Step s t × (t.client.is_open ≡ false) × (t.client.failure_count ≡ 0)
unfolding trip_end
breaker_recovers {s} r o =
    (record s { client = trip_end s.client }, wake (Reach-IsGuarded r o), refl, refl)
