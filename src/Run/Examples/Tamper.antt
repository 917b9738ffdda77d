-- ===== src/Run/Examples/Tamper.antt =====
-- A short run, and its events without their own digests.
use model_lib.Prelude.{[], ◌∷◌, ◌≡◌, ◌⊎◌, refl, arith}
use model_lib.Run.Event.{RunEvent}
use model_lib.Run.Encoding.{preimage}
use model_lib.Run.Encoding.Payloads.Kinds.{IsKindInRange}
use model_lib.Run.Encoding.Framing.{IsInRange, IsSameEvent, preimage-IsSameEvent}
use model_lib.Run.Streams.Tamper.{SomeCollide, IsEventInRange, reduce_all-injective}
use model_lib.Run.Examples.{toy, run, first, second, stopped_accepted}

abbrev unsigned : RunEvent
unsigned = record second { event_digest = [] }

first-IsInRange : IsInRange first
unfolding run
first-IsInRange = record {
  schema_version = omega arith;
  sequence = omega arith;
  timestamp_millis = omega arith;
  run_id = omega arith;
  event_id = omega arith;
  previous_event_digest = omega arith;
}

second-IsInRange : IsInRange second
unfolding run
second-IsInRange = record {
  schema_version = omega arith;
  sequence = omega arith;
  timestamp_millis = omega arith;
  run_id = omega arith;
  event_id = omega arith;
  previous_event_digest = omega arith;
}

unsigned-IsInRange : IsInRange unsigned
unsigned-IsInRange = record {
  schema_version = second-IsInRange.schema_version;
  sequence = second-IsInRange.sequence;
  timestamp_millis = second-IsInRange.timestamp_millis;
  run_id = second-IsInRange.run_id;
  event_id = second-IsInRange.event_id;
  previous_event_digest = second-IsInRange.previous_event_digest;
}

same_bytes : preimage second ≡ preimage unsigned
unfolding run
same_bytes = refl

preimage-IsSameEvent_example : IsSameEvent second unsigned
preimage-IsSameEvent_example =
    preimage-IsSameEvent second unsigned second-IsInRange unsigned-IsInRange same_bytes

first-IsKindInRange : IsKindInRange first.kind
unfolding run
first-IsKindInRange = (
  record {
    gates = (omega arith, ((omega arith, tt), tt));
    policies = (omega arith, (((omega arith, omega arith), (omega arith, (tt, tt))), tt));
    sandboxes = (omega arith, ((tt, omega arith), tt));
    agent = tt;
    runner_environment = omega arith;
    candidate_state = tt;
  },
  (omega arith, omega arith),
)

second-IsKindInRange : IsKindInRange second.kind
second-IsKindInRange = tt

first-IsEventInRange : IsEventInRange first
first-IsEventInRange = (first-IsInRange, first-IsKindInRange)

second-IsEventInRange : IsEventInRange second
second-IsEventInRange = (second-IsInRange, second-IsKindInRange)

reduce_all-injective_example :
    SomeCollide toy (first ∷ second ∷ []) (first ∷ second ∷ [])
    ⊎ (first ∷ second ∷ [] ≡ first ∷ second ∷ [])
reduce_all-injective_example =
    reduce_all-injective toy (first ∷ second ∷ []) (first ∷ second ∷ []) stopped_accepted
      stopped_accepted refl (first-IsEventInRange, (second-IsEventInRange, tt))
      (first-IsEventInRange, (second-IsEventInRange, tt)) refl
