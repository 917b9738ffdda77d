-- ===== src/Run/Encoding/Payloads/Outcomes.antt =====
-- The framing of the agent's outcome can be read back (crates/o7-run/src/event.rs,
-- `fold_agent_outcome`).
use model_lib.Prelude.{ℕ, ◌^◌, ◌<◌, [], ◌∷◌, ◌++◌, Bytes, ◌≡◌, refl, sym, ap, ◌∙◌, arith}
use model_lib.Run.Event.{AgentOutcome}
use model_lib.Run.Encoding.{le_bytes, frame, fold_agent_outcome}
use model_lib.Run.Encoding.Framing.{head_of, tail_of}
use model_lib.Run.Encoding.Tells.{Tells, implies, nothing, IsShort, text, word}

-- Exit codes and signals are 32 bits.
abbrev pub IsOutcomeInRange : AgentOutcome → Type 0
IsOutcomeInRange (AgentOutcome.exited_normally code) = code < 2 ^ 32
IsOutcomeInRange (AgentOutcome.exited_by_signal signal) = signal < 2 ^ 32
IsOutcomeInRange AgentOutcome.cancelled_gracefully = Unit
IsOutcomeInRange AgentOutcome.cancelled_forcefully = Unit
IsOutcomeInRange (AgentOutcome.failed_to_start reason) = IsShort reason
IsOutcomeInRange (AgentOutcome.boundary_failure reason) = IsShort reason
IsOutcomeInRange (AgentOutcome.observation_failure reason) = IsShort reason
IsOutcomeInRange (AgentOutcome.output_failure reason) = IsShort reason
IsOutcomeInRange (AgentOutcome.cleanup_failure reason) = IsShort reason

abbrev outcome_tag : AgentOutcome → ℕ
outcome_tag (AgentOutcome.exited_normally code) = 1
outcome_tag (AgentOutcome.exited_by_signal signal) = 2
outcome_tag AgentOutcome.cancelled_gracefully = 3
outcome_tag AgentOutcome.cancelled_forcefully = 4
outcome_tag (AgentOutcome.failed_to_start reason) = 5
outcome_tag (AgentOutcome.boundary_failure reason) = 6
outcome_tag (AgentOutcome.observation_failure reason) = 7
outcome_tag (AgentOutcome.output_failure reason) = 8
outcome_tag (AgentOutcome.cleanup_failure reason) = 9

abbrev outcome_fields : AgentOutcome → Bytes
outcome_fields (AgentOutcome.exited_normally code) = frame (le_bytes 4 code)
outcome_fields (AgentOutcome.exited_by_signal signal) = frame (le_bytes 4 signal)
outcome_fields AgentOutcome.cancelled_gracefully = []
outcome_fields AgentOutcome.cancelled_forcefully = []
outcome_fields (AgentOutcome.failed_to_start reason) = frame reason
outcome_fields (AgentOutcome.boundary_failure reason) = frame reason
outcome_fields (AgentOutcome.observation_failure reason) = frame reason
outcome_fields (AgentOutcome.output_failure reason) = frame reason
outcome_fields (AgentOutcome.cleanup_failure reason) = frame reason

outcome_parts : (o : AgentOutcome) → fold_agent_outcome o ≡ outcome_tag o ∷ outcome_fields o
unfolding fold_agent_outcome
outcome_parts o = ground arith

outcome_same_tag :
    (a b : AgentOutcome)
    → IsOutcomeInRange a
    → IsOutcomeInRange b
    → outcome_tag a ≡ outcome_tag b
    → Tells (outcome_fields a) (outcome_fields b) (a ≡ b)
outcome_same_tag (AgentOutcome.exited_normally x) (AgentOutcome.exited_normally y) p q t =
    implies (ap AgentOutcome.exited_normally) (word p q)
outcome_same_tag (AgentOutcome.exited_by_signal x) (AgentOutcome.exited_by_signal y) p q t =
    implies (ap AgentOutcome.exited_by_signal) (word p q)
outcome_same_tag AgentOutcome.cancelled_gracefully AgentOutcome.cancelled_gracefully p q t =
    implies (λ e. refl) nothing
outcome_same_tag AgentOutcome.cancelled_forcefully AgentOutcome.cancelled_forcefully p q t =
    implies (λ e. refl) nothing
outcome_same_tag (AgentOutcome.failed_to_start x) (AgentOutcome.failed_to_start y) p q t =
    implies (ap AgentOutcome.failed_to_start) (text p q)
outcome_same_tag (AgentOutcome.boundary_failure x) (AgentOutcome.boundary_failure y) p q t =
    implies (ap AgentOutcome.boundary_failure) (text p q)
outcome_same_tag (AgentOutcome.observation_failure x) (AgentOutcome.observation_failure y) p q t =
    implies (ap AgentOutcome.observation_failure) (text p q)
outcome_same_tag (AgentOutcome.output_failure x) (AgentOutcome.output_failure y) p q t =
    implies (ap AgentOutcome.output_failure) (text p q)
outcome_same_tag (AgentOutcome.cleanup_failure x) (AgentOutcome.cleanup_failure y) p q t =
    implies (ap AgentOutcome.cleanup_failure) (text p q)
outcome_same_tag _ _ p q t = absurd (omega arith)

pub agent_outcome :
    (a b : AgentOutcome)
    → IsOutcomeInRange a
    → IsOutcomeInRange b
    → Tells (fold_agent_outcome a) (fold_agent_outcome b) (a ≡ b)
agent_outcome a b p q = record {
  read = λ r s h.
      let parts =
        sym (ap (λ x. x ++ r) (outcome_parts a)) ∙ h ∙ ap (λ x. x ++ s) (outcome_parts b) in
      (outcome_same_tag a b p q (head_of parts)).read r s (tail_of parts);
}
