-- ===== src/Run/Encoding/Payloads/Contracts.antt =====
-- The framing of the contract of a run can be read back (crates/o7-run/src/event.rs,
-- `fold_contract` and what it calls).
use model_lib.Prelude.{◌^◌, ◌<◌, Option, none, some, All, ◌≡◌, refl, ap, arith}
use model_lib.Run.Contract.{
  SandboxRequirement, GateRequirement, GateObligation, PolicyRequirement, PolicyObligation,
  AgentObligation, CandidatePatchKind, CandidateStateContractV1, RunContract,
}
use model_lib.Run.Encoding.{
  gate_requirement_tag, policy_requirement_tag, fold_protected_subject, fold_agent_obligation,
  fold_candidate_state_contract, fold_optional_candidate_state_contract, fold_gate_obligation,
  fold_policy_obligation, fold_sandbox_requirement, fold_contract,
}
use model_lib.Run.Encoding.Tells.{
  Tells, implies, then, byte_then, apart, byte, IsShort, text, word, long, list,
}
use model_lib.Run.Encoding.Payloads.{
  IsShortArtifact, artifact, IsShortApplicability, applicability, IsShortSubject, subject,
  IsShortProtected, protected_subject,
}

abbrev pub IsShortAgent : AgentObligation → Type 0
IsShortAgent AgentObligation.required = Unit
IsShortAgent (AgentObligation.not_used reason) = IsShort reason

agent_obligation :
    (a b : AgentObligation)
    → IsShortAgent a
    → IsShortAgent b
    → Tells (fold_agent_obligation a) (fold_agent_obligation b) (a ≡ b)
unfolding fold_agent_obligation
agent_obligation AgentObligation.required AgentObligation.required p q = implies (λ e. refl) byte
agent_obligation AgentObligation.required (AgentObligation.not_used y) p q = apart (λ e. cc)
agent_obligation (AgentObligation.not_used x) AgentObligation.required p q = apart (λ e. cc)
agent_obligation (AgentObligation.not_used x) (AgentObligation.not_used y) p q =
    implies (λ (e, f). ap AgentObligation.not_used f) (byte_then (text p q))

-- `schema` is a u32, `dev` and `ino` are u64.
pub record IsCandidateInRange (c : CandidateStateContractV1) : Type 0 where
  pub schema : c.schema < 2 ^ 32
  pub conversation_id : IsShort c.conversation_id
  pub git_common_dir : IsShort c.repository_id.git_common_dir
  pub dev : c.repository_id.dev < 2 ^ 64
  pub ino : c.repository_id.ino < 2 ^ 64
  pub base_commit : IsShort c.base_commit

patch_kind : (a b : CandidatePatchKind) → a ≡ b
patch_kind CandidatePatchKind.git_binary_cumulative_patch_v1
      CandidatePatchKind.git_binary_cumulative_patch_v1 =
    refl

candidate_eq :
    (a b : CandidateStateContractV1)
    → a.schema ≡ b.schema
    → a.conversation_id ≡ b.conversation_id
    → a.repository_id.git_common_dir ≡ b.repository_id.git_common_dir
    → a.repository_id.dev ≡ b.repository_id.dev
    → a.repository_id.ino ≡ b.repository_id.ino
    → a.base_commit ≡ b.base_commit
    → a ≡ b
candidate_eq a b s c g d i m = let k = patch_kind a.patch_kind b.patch_kind in cc

candidate :
    (a b : CandidateStateContractV1)
    → IsCandidateInRange a
    → IsCandidateInRange b
    → Tells (fold_candidate_state_contract a) (fold_candidate_state_contract b) (a ≡ b)
unfolding fold_candidate_state_contract
candidate a b p q =
    implies (λ (s, (c, (g, (d, (i, (m, k)))))). candidate_eq a b s c g d i m)
      (then (word p.schema q.schema) (
        then (text p.conversation_id q.conversation_id) (
          then (text p.git_common_dir q.git_common_dir) (
            then (long p.dev q.dev)
              (then (long p.ino q.ino) (then (text p.base_commit q.base_commit) byte))))))

abbrev pub IsOptionalCandidateInRange : Option CandidateStateContractV1 → Type 0
IsOptionalCandidateInRange none = Unit
IsOptionalCandidateInRange (some c) = IsCandidateInRange c

optional_candidate :
    (a b : Option CandidateStateContractV1)
    → IsOptionalCandidateInRange a
    → IsOptionalCandidateInRange b
    → Tells
        (fold_optional_candidate_state_contract a)
        (fold_optional_candidate_state_contract b)
        (a ≡ b)
unfolding fold_optional_candidate_state_contract
optional_candidate none none p q = implies (λ e. refl) byte
optional_candidate none (some b) p q = apart (λ e. cc)
optional_candidate (some a) none p q = apart (λ e. cc)
optional_candidate (some a) (some b) p q =
    implies (λ (e, x). ap some x) (byte_then (candidate a b p q))

abbrev pub IsShortGate : GateObligation → Type 0
IsShortGate o = IsShort o.gate × IsShortApplicability o.applicability

gate_requirement : (a b : GateRequirement) → gate_requirement_tag a ≡ gate_requirement_tag b → a ≡ b
unfolding gate_requirement_tag
gate_requirement a b h = ground arith

gate_eq :
    (a b : GateObligation)
    → a.gate ≡ b.gate
    → a.requirement ≡ b.requirement
    → a.applicability ≡ b.applicability
    → a ≡ b
gate_eq a b g r x = cc

gate_obligation :
    (a b : GateObligation)
    → IsShortGate a
    → IsShortGate b
    → Tells (fold_gate_obligation a) (fold_gate_obligation b) (a ≡ b)
unfolding fold_gate_obligation
gate_obligation a b p q =
    implies (λ (g, (r, x)). gate_eq a b g (gate_requirement _ _ r) x)
      (then (text p.0 q.0) (byte_then (applicability a.applicability b.applicability p.1 q.1)))

abbrev pub IsShortPolicy : PolicyObligation → Type 0
IsShortPolicy o = IsShortArtifact o.policy × (IsShort o.protects × All IsShortProtected o.protects)

policy_requirement :
    (a b : PolicyRequirement) → policy_requirement_tag a ≡ policy_requirement_tag b → a ≡ b
unfolding policy_requirement_tag
policy_requirement a b h = ground arith

policy_eq :
    (a b : PolicyObligation)
    → a.policy ≡ b.policy
    → a.requirement ≡ b.requirement
    → a.protects ≡ b.protects
    → a ≡ b
policy_eq a b g r x = cc

policy_obligation :
    (a b : PolicyObligation)
    → IsShortPolicy a
    → IsShortPolicy b
    → Tells (fold_policy_obligation a) (fold_policy_obligation b) (a ≡ b)
unfolding fold_policy_obligation
policy_obligation a b p q =
    implies (λ (g, (r, x)). policy_eq a b g (policy_requirement _ _ r) x)
      (then (artifact a.policy b.policy p.0 q.0) (
        byte_then (
          list fold_protected_subject IsShortProtected protected_subject a.protects b.protects p.1
            q.1)))

abbrev pub IsShortSandbox : SandboxRequirement → Type 0
IsShortSandbox r = IsShortSubject r.subject × IsShort r.policy_digest

sandbox_eq :
    (a b : SandboxRequirement) → a.subject ≡ b.subject → a.policy_digest ≡ b.policy_digest → a ≡ b
sandbox_eq a b s d = cc

sandbox_requirement :
    (a b : SandboxRequirement)
    → IsShortSandbox a
    → IsShortSandbox b
    → Tells (fold_sandbox_requirement a) (fold_sandbox_requirement b) (a ≡ b)
unfolding fold_sandbox_requirement
sandbox_requirement a b p q =
    implies (λ (s, d). sandbox_eq a b s d)
      (then (subject a.subject b.subject p.0 q.0) (text p.1 q.1))

-- The lengths and the integers of a contract are in the ranges of their types.
pub record IsContractInRange (c : RunContract) : Type 0 where
  pub gates : IsShort c.gate_obligations × All IsShortGate c.gate_obligations
  pub policies : IsShort c.policy_obligations × All IsShortPolicy c.policy_obligations
  pub sandboxes : IsShort c.sandbox_requirements × All IsShortSandbox c.sandbox_requirements
  pub agent : IsShortAgent c.agent
  pub runner_environment : IsShort c.runner_environment
  pub candidate_state : IsOptionalCandidateInRange c.candidate_state

contract_eq :
    (a b : RunContract)
    → a.gate_obligations ≡ b.gate_obligations
    → a.policy_obligations ≡ b.policy_obligations
    → a.sandbox_requirements ≡ b.sandbox_requirements
    → a.agent ≡ b.agent
    → a.runner_environment ≡ b.runner_environment
    → a.candidate_state ≡ b.candidate_state
    → a ≡ b
contract_eq a b g p s x r c = cc

pub contract :
    (a b : RunContract)
    → IsContractInRange a
    → IsContractInRange b
    → Tells (fold_contract a) (fold_contract b) (a ≡ b)
unfolding fold_contract
contract a b p q =
    implies (λ (g, (o, (s, (x, (r, c))))). contract_eq a b g o s x r c)
      (then
        (list fold_gate_obligation IsShortGate gate_obligation a.gate_obligations b.gate_obligations
          p.gates q.gates)
        (then
          (list fold_policy_obligation IsShortPolicy policy_obligation a.policy_obligations
            b.policy_obligations p.policies q.policies)
          (then
            (list fold_sandbox_requirement IsShortSandbox sandbox_requirement a.sandbox_requirements
              b.sandbox_requirements p.sandboxes q.sandboxes)
            (then (agent_obligation a.agent b.agent p.agent q.agent) (
              then (text p.runner_environment q.runner_environment) (
                optional_candidate a.candidate_state b.candidate_state p.candidate_state
                  q.candidate_state))))))
