-- ===== src/Router/Models.antt =====
-- services/opportunity-router/src/opportunity_router/models.py
use roboinvest.Prelude.{ℕ, Bool, Option, none, some, List, [], ◌∷◌, String, str_eq, if◌then◌else◌}
use roboinvest.Decimal.{Decimal}
use roboinvest.Contracts.Time.{DateTime}

pub data GateState : Type 0 where
  pass fail unknown : GateState

pub data DecisionKind : Type 0 where
  enter_shadow no_trade expired duplicate policy_disabled : DecisionKind

pub data CounterfactualClass : Type 0 where
  policy_evaluable economic_only_not_executable administrative_terminal not_applicable :
      CounterfactualClass

pub data ReasonCode : Type 0 where
  all_gates_pass policy_disabled policy_not_effective policy_expired policy_hash_mismatch :
      ReasonCode
  playbook_hash_mismatch no_admitted_playbooks intake_contract_hash_mismatch : ReasonCode
  intake_version_mismatch population_hash_mismatch candidate_not_in_population : ReasonCode
  candidate_expired evidence_cutoff_after_decision duplicate_candidate no_playbook_match :
      ReasonCode
  ambiguous_playbook playbook_not_admitted playbook_disabled : ReasonCode
  evidence_fail evidence_unknown mechanism_fail mechanism_unknown context_fail : ReasonCode
  context_unknown execution_fail execution_unknown portfolio_fail portfolio_unknown : ReasonCode
  capacity_rule_missing capacity_priority_missing capacity_rejected : ReasonCode

pub record GateResults : Type 0 where
  pub evidence : GateState
  pub mechanism : GateState
  pub context : GateState
  pub execution : GateState
  pub portfolio_precheck : GateState

pub record CandidateIntakeRegistration : Type 0 where
  pub version : String
  pub contract_json : String
  pub declared_sha256 : String

pub record PlaybookRegistration : Type 0 where
  pub playbook_id : String
  pub version : String
  pub contract_json : String
  pub declared_sha256 : String
  pub enabled : Bool

pub record CapacityRule : Type 0 where
  pub rule_id : String
  pub version : String
  pub playbook_priority : List String
  pub same_instrument_limit : ℕ
  pub same_sector_limit : Option ℕ
  pub tie_breaker : String

pub record RouterPolicy : Type 0 where
  pub policy_id : String
  pub version : String
  pub effective_at : DateTime
  pub expires_at : DateTime
  pub candidate_intake : CandidateIntakeRegistration
  pub playbooks : List PlaybookRegistration
  pub max_entries : ℕ
  pub capacity_rule : Option CapacityRule
  pub enabled : Bool
  pub declared_sha256 : String

pub record PopulationSnapshot : Type 0 where
  pub intake_version : String
  pub intake_contract_sha256 : String
  pub session_id : String
  pub eligible_instruments : List String
  pub candidate_ids : List String
  pub declared_sha256 : String

-- `candidate_priority` is a whole number of either sign.
pub record CandidateEvaluation : Type 0 where
  pub candidate_id : String
  pub instrument : String
  pub sector : Option String
  pub decision_at : DateTime
  pub evidence_cutoff_at : DateTime
  pub valid_until : DateTime
  pub candidate_intake_version : String
  pub upstream_population_hash : String
  pub matched_playbook_ids : List String
  pub gates : GateResults
  pub candidate_priority : Decimal
  pub duplicate_of_candidate_id : Option String

pub record RouterDecision : Type 0 where
  pub decision_id : String
  pub decision_at : DateTime
  pub policy_id : String
  pub policy_version : String
  pub policy_sha256 : String
  pub playbook_id : Option String
  pub playbook_version : Option String
  pub playbook_contract_sha256 : Option String
  pub candidate_id : String
  pub candidate_intake_version : String
  pub candidate_intake_contract_sha256 : String
  pub upstream_population_hash : String
  pub instrument : String
  pub sector : Option String
  pub evidence_cutoff_at : DateTime
  pub valid_until : DateTime
  pub matched_playbook_ids : List String
  pub assignment_rule_version : String
  pub capacity_rule_id : Option String
  pub capacity_rule_version : Option String
  pub gates : GateResults
  pub decision : DecisionKind
  pub reason_codes : List ReasonCode
  pub counterfactual_class : CounterfactualClass
  pub candidate_priority : Decimal

unfoldable pub playbook_by_id : String → List PlaybookRegistration → Option PlaybookRegistration
playbook_by_id id [] = none
playbook_by_id id (p ∷ ps) =
    let rest = playbook_by_id id ps in if str_eq p.playbook_id id then some p else rest
