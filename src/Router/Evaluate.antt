-- ===== src/Router/Evaluate.antt =====
-- services/opportunity-router/src/opportunity_router/core.py: the decision on one candidate
pub mod FailClosed
use roboinvest.Router.Decision.{decision, before, contains, all_of, Verdict}
use roboinvest.Prelude.{
  Bool, true, false, not, ◌||◌, Option, none, some, List, [], ◌∷◌, ◌++◌, String, str_eq,
  if◌then◌else◌, is_some, is_empty,
}
use roboinvest.Router.Integrity.{Codec}
use roboinvest.Router.Models.{
  no_admitted_playbooks, duplicate_candidate, portfolio_unknown, portfolio_fail,
  evidence_cutoff_after_decision, policy_expired, policy_not_effective, execution_unknown,
  candidate_expired, candidate_not_in_population, execution_fail, context_unknown,
  playbook_hash_mismatch, context_fail, population_hash_mismatch, mechanism_unknown,
  intake_contract_hash_mismatch, mechanism_fail, ambiguous_playbook, administrative_terminal,
  intake_version_mismatch, policy_hash_mismatch, playbook_not_admitted, no_playbook_match,
  evidence_unknown, policy_evaluable, economic_only_not_executable, evidence_fail, GateState,
  GateResults, pass, fail, unknown, DecisionKind, ReasonCode, all_gates_pass, CounterfactualClass,
  PlaybookRegistration, RouterPolicy, PopulationSnapshot, CandidateEvaluation, RouterDecision,
  playbook_by_id,
}
use roboinvest.Router.Bindings.{verify_policy, verify_intake, verify_playbook, verify_population}

abbrev pub is_pass : GateState → Bool
is_pass pass = true
is_pass _ = false

abbrev pub is_unknown : GateState → Bool
is_unknown unknown = true
is_unknown _ = false

-- one row of the mapping of gate states to reasons
abbrev pub gate_reason : GateState → ReasonCode → ReasonCode → List ReasonCode
gate_reason pass failed missing = []
gate_reason fail failed missing = failed ∷ []
gate_reason unknown failed missing = missing ∷ []

unfoldable pub gate_reasons : GateResults → List ReasonCode
gate_reasons g =
    gate_reason g.evidence evidence_fail evidence_unknown
    ++ (gate_reason g.mechanism mechanism_fail mechanism_unknown
        ++ (gate_reason g.context context_fail context_unknown
            ++ (gate_reason g.execution execution_fail execution_unknown
                ++ gate_reason g.portfolio_precheck portfolio_fail portfolio_unknown)))

unfoldable pub gate_counterfactual_class : GateResults → CounterfactualClass
gate_counterfactual_class g =
    if is_unknown g.evidence
      || is_unknown g.mechanism
      || is_unknown g.context
      || is_unknown g.execution
      || is_unknown g.portfolio_precheck
    then economic_only_not_executable
    else if not (is_pass g.execution) || not (is_pass g.portfolio_precheck)
    then economic_only_not_executable
    else policy_evaluable

abbrev refuse : DecisionKind → ReasonCode → CounterfactualClass → Verdict
refuse kind reason class = record {
  playbook = none;
  decision = kind;
  reasons = reason ∷ [];
  counterfactual_class = class;
}

-- the verdict of an admitted and enabled playbook: the gates decide
unfoldable pub gate_verdict : PlaybookRegistration → GateResults → Verdict
unfolding gate_reasons gate_counterfactual_class
gate_verdict playbook gates =
    if not (is_empty (gate_reasons gates))
    then record {
      playbook = some playbook;
      decision = DecisionKind.no_trade;
      reasons = gate_reasons gates;
      counterfactual_class = gate_counterfactual_class gates;
    }
    else record {
      playbook = some playbook;
      decision = DecisionKind.enter_shadow;
      reasons = all_gates_pass ∷ [];
      counterfactual_class = policy_evaluable;
    }

unfoldable pub playbook_verdict : Option PlaybookRegistration → GateResults → Verdict
unfolding gate_verdict
playbook_verdict none gates = refuse DecisionKind.no_trade playbook_not_admitted policy_evaluable
playbook_verdict (some playbook) gates =
    if not playbook.enabled
    then record {
      playbook = some playbook;
      decision = DecisionKind.no_trade;
      reasons = ReasonCode.playbook_disabled ∷ [];
      counterfactual_class = administrative_terminal;
    }
    else gate_verdict playbook gates

-- the tests of the matched playbooks
unfoldable pub match_verdict : List PlaybookRegistration → List String → GateResults → Verdict
unfolding playbook_verdict
match_verdict playbooks [] gates = refuse DecisionKind.no_trade no_playbook_match policy_evaluable
match_verdict playbooks (id ∷ []) gates = playbook_verdict (playbook_by_id id playbooks) gates
match_verdict playbooks (id ∷ other ∷ ids) gates =
    refuse DecisionKind.no_trade ambiguous_playbook policy_evaluable

-- the tests of the candidate against the population and the clock
unfoldable pub candidate_verdict :
    Codec → RouterPolicy → PopulationSnapshot → CandidateEvaluation → Verdict
unfolding match_verdict
candidate_verdict codec policy population c =
    if not (str_eq c.candidate_intake_version policy.candidate_intake.version)
      || not (str_eq population.intake_version policy.candidate_intake.version)
    then refuse DecisionKind.no_trade intake_version_mismatch administrative_terminal
    else if not (str_eq population.intake_contract_sha256 policy.candidate_intake.declared_sha256)
    then refuse DecisionKind.no_trade intake_contract_hash_mismatch administrative_terminal
    else if not (verify_population codec population)
        || not (str_eq c.upstream_population_hash population.declared_sha256)
    then refuse DecisionKind.no_trade population_hash_mismatch administrative_terminal
    else if not (contains c.candidate_id population.candidate_ids)
        || not (contains c.instrument population.eligible_instruments)
    then refuse DecisionKind.no_trade candidate_not_in_population administrative_terminal
    else if before c.valid_until c.decision_at
    then refuse DecisionKind.expired candidate_expired administrative_terminal
    else if before c.decision_at c.evidence_cutoff_at
    then refuse DecisionKind.no_trade evidence_cutoff_after_decision administrative_terminal
    else if is_some c.duplicate_of_candidate_id
    then refuse DecisionKind.duplicate duplicate_candidate administrative_terminal
    else match_verdict policy.playbooks c.matched_playbook_ids c.gates

-- the tests of the policy, and then what follows them
unfoldable pub policy_verdict : Codec → RouterPolicy → CandidateEvaluation → Verdict → Verdict
policy_verdict codec policy c next =
    if not (verify_policy codec policy)
    then refuse DecisionKind.policy_disabled policy_hash_mismatch administrative_terminal
    else if not (verify_intake codec policy.candidate_intake)
    then refuse DecisionKind.policy_disabled intake_contract_hash_mismatch administrative_terminal
    else if not (all_of (verify_playbook codec) policy.playbooks)
    then refuse DecisionKind.policy_disabled playbook_hash_mismatch administrative_terminal
    else if not policy.enabled
    then refuse DecisionKind.policy_disabled ReasonCode.policy_disabled administrative_terminal
    else if before c.decision_at policy.effective_at
    then refuse DecisionKind.policy_disabled policy_not_effective administrative_terminal
    else if not (before c.decision_at policy.expires_at)
    then refuse DecisionKind.policy_disabled policy_expired administrative_terminal
    else if is_empty policy.playbooks
    then refuse DecisionKind.policy_disabled no_admitted_playbooks administrative_terminal
    else next

unfoldable pub verdict : Codec → RouterPolicy → PopulationSnapshot → CandidateEvaluation → Verdict
unfolding policy_verdict candidate_verdict
verdict codec policy population c =
    policy_verdict codec policy c (candidate_verdict codec policy population c)

unfoldable pub evaluate_candidate :
    Codec → RouterPolicy → PopulationSnapshot → CandidateEvaluation → RouterDecision
unfolding verdict decision
evaluate_candidate codec policy population candidate =
    decision codec policy candidate (verdict codec policy population candidate)
