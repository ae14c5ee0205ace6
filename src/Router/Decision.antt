-- ===== src/Router/Decision.antt =====
-- services/opportunity-router/src/opportunity_router/core.py: the identity of a decision and its record
use roboinvest.Prelude.{
  zero, suc, ℕ, Bool, true, false, ◌&&◌, ◌||◌, Option, none, some, List, [], ◌∷◌, String, str_eq,
  ltb,
}
use roboinvest.Contracts.Time.{DateTime}
use roboinvest.Router.Integrity.{
  Json, Codec, text, object, member, close, text_or_null, canonical_sha256,
}
use roboinvest.Router.Models.{
  DecisionKind, ReasonCode, CounterfactualClass, PlaybookRegistration, RouterPolicy,
  CandidateEvaluation, RouterDecision, CapacityRule,
}

-- `datetime` comparison is that of the instants
abbrev pub before : DateTime → DateTime → Bool
before a b = ltb a.utc b.utc

-- `x in xs`
abbrev pub contains : String → List String → Bool
contains x [] = false
contains x (y ∷ ys) = str_eq x y || contains x ys

abbrev pub all_of {ℓ} : {A : Type ℓ} → (A → Bool) → List A → Bool
all_of test [] = true
all_of test (x ∷ xs) = test x && all_of test xs

abbrev pub playbook_text :
    (PlaybookRegistration → String) → Option PlaybookRegistration → Option String
playbook_text field none = none
playbook_text field (some p) = some (field p)

abbrev pub rule_text : (CapacityRule → String) → Option CapacityRule → Option String
rule_text field none = none
rule_text field (some r) = some (field r)

-- The identity of a decision, and `f"router-{...[:32]}"`; `shorten` takes the digits of a digest.
unfoldable pub identity :
    Codec → RouterPolicy → CandidateEvaluation → Option PlaybookRegistration → Json
identity codec policy candidate playbook = object (
    member "policy_id" (text policy.policy_id) (
      member "policy_version" (text policy.version) (
        member "candidate_id" (text candidate.candidate_id) (
          member "playbook_id" (text_or_null (playbook_text (λ p. p.playbook_id) playbook)) (
            member "playbook_version" (text_or_null (playbook_text (λ p. p.version) playbook)) (
              member "evidence_cutoff_at" (text (codec.isoformat candidate.evidence_cutoff_at))
                close))))))

abbrev pub first_chars : ℕ → String → String
first_chars zero s = String.[]
first_chars (suc n) String.[] = String.[]
first_chars (suc n) (String.◌∷◌ c s) = String.◌∷◌ c (first_chars n s)

abbrev pub prefixed : String → String → String
prefixed String.[] t = t
prefixed (String.◌∷◌ c s) t = String.◌∷◌ c (prefixed s t)

unfoldable pub decision_id :
    Codec → RouterPolicy → CandidateEvaluation → Option PlaybookRegistration → String
unfolding identity canonical_sha256
decision_id codec policy candidate playbook =
    prefixed "router-"
      (first_chars 32 (canonical_sha256 codec (identity codec policy candidate playbook)))

-- what `evaluate_candidate` gives to `_decision` beside the policy and the candidate
pub record Verdict : Type 0 where
  pub playbook : Option PlaybookRegistration
  pub decision : DecisionKind
  pub reasons : List ReasonCode
  pub counterfactual_class : CounterfactualClass

unfoldable pub decision : Codec → RouterPolicy → CandidateEvaluation → Verdict → RouterDecision
unfolding decision_id
decision codec policy candidate v = record {
  decision_id = decision_id codec policy candidate v.playbook;
  decision_at = candidate.decision_at;
  policy_id = policy.policy_id;
  policy_version = policy.version;
  policy_sha256 = policy.declared_sha256;
  playbook_id = playbook_text (λ p. p.playbook_id) v.playbook;
  playbook_version = playbook_text (λ p. p.version) v.playbook;
  playbook_contract_sha256 = playbook_text (λ p. p.declared_sha256) v.playbook;
  candidate_id = candidate.candidate_id;
  candidate_intake_version = candidate.candidate_intake_version;
  candidate_intake_contract_sha256 = policy.candidate_intake.declared_sha256;
  upstream_population_hash = candidate.upstream_population_hash;
  instrument = candidate.instrument;
  sector = candidate.sector;
  evidence_cutoff_at = candidate.evidence_cutoff_at;
  valid_until = candidate.valid_until;
  matched_playbook_ids = candidate.matched_playbook_ids;
  assignment_rule_version = policy.version;
  capacity_rule_id = rule_text (λ r. r.rule_id) policy.capacity_rule;
  capacity_rule_version = rule_text (λ r. r.version) policy.capacity_rule;
  gates = candidate.gates;
  decision = v.decision;
  reason_codes = v.reasons;
  counterfactual_class = v.counterfactual_class;
  candidate_priority = candidate.candidate_priority;
}
