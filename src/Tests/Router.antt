-- ===== src/Tests/Router.antt =====
-- Tests of services/opportunity-router.
use roboinvest.Decimal.{of_ℕ}
use roboinvest.Router.Capacity.Batch.{route_batch-keeps}
use roboinvest.Router.Capacity.Bound.{route_batch-capacity, DistinctIds}
use roboinvest.Router.Evaluate.FailClosed.{
  evaluate_candidate-enters_iff, GatesPass, Playable, InPopulation, PolicyInForce,
}
use roboinvest.Router.Capacity.{is_entry, route_batch}
use roboinvest.Router.Evaluate.{evaluate_candidate}
use roboinvest.Router.Integrity.{text, null, object, member, close, Json, Members, Codec}
use roboinvest.Prelude.{
  ◌+◌, ◌≤◌, ◌≡◌, ◌↔◌, refl, true, ◌&&◌, none, some, List, [], ◌∷◌, String, length, map, count_if,
  keep_if, str_eq, if◌then◌else◌,
}
use roboinvest.Tests.Samples.{morning, new_years_eve}
use roboinvest.Router.Models.{
  CandidateEvaluation, RouterPolicy, PlaybookRegistration, PopulationSnapshot, CapacityRule,
  CandidateIntakeRegistration, pass, DecisionKind,
}

-- A stand-in for JSON and SHA-256: the text of an object is that of its candidate id.
abbrev scalar_text : Json → String
scalar_text (text s) = s
scalar_text _ = "x"

abbrev text_of_members : Members → String
text_of_members close = "x"
text_of_members (member key value ms) =
    let rest = text_of_members ms in if str_eq key "candidate_id" then scalar_text value else rest

abbrev text_of : Json → String
text_of (object ms) = text_of_members ms
text_of _ = "x"

abbrev codec : Codec
codec = record { dumps = text_of; loads = λ s. some null; sha256 = λ s. s; isoformat = λ t. "t" }

abbrev intake : CandidateIntakeRegistration
intake = record { version = "i1"; contract_json = "x"; declared_sha256 = "x" }

abbrev playbook : PlaybookRegistration
playbook = record {
  playbook_id = "gap";
  version = "1";
  contract_json = "x";
  declared_sha256 = "x";
  enabled = true;
}

abbrev rule : CapacityRule
rule = record {
  rule_id = "r";
  version = "1";
  playbook_priority = "gap" ∷ [];
  same_instrument_limit = 1;
  same_sector_limit = none;
  tie_breaker = "CANDIDATE_ID_ASC";
}

abbrev policy : RouterPolicy
policy = record {
  policy_id = "p";
  version = "1";
  effective_at = morning new_years_eve;
  expires_at = morning (new_years_eve + 10);
  candidate_intake = intake;
  playbooks = playbook ∷ [];
  max_entries = 1;
  capacity_rule = some rule;
  enabled = true;
  declared_sha256 = "x";
}

abbrev population : PopulationSnapshot
population = record {
  intake_version = "i1";
  intake_contract_sha256 = "x";
  session_id = "s";
  eligible_instruments = "7203" ∷ "6758" ∷ [];
  candidate_ids = "c1" ∷ "c2" ∷ [];
  declared_sha256 = "x";
}

abbrev candidate : String → String → CandidateEvaluation
candidate id instrument = record {
  candidate_id = id;
  instrument = instrument;
  sector = none;
  decision_at = morning (new_years_eve + 1);
  evidence_cutoff_at = morning new_years_eve;
  valid_until = morning (new_years_eve + 2);
  candidate_intake_version = "i1";
  upstream_population_hash = "x";
  matched_playbook_ids = "gap" ∷ [];
  gates = record {
    evidence = pass;
    mechanism = pass;
    context = pass;
    execution = pass;
    portfolio_precheck = pass;
  };
  candidate_priority = of_ℕ 0;
  duplicate_of_candidate_id = none;
}

abbrev cohort : List CandidateEvaluation
cohort = candidate "c1" "7203" ∷ candidate "c2" "6758" ∷ []

enters :
    (evaluate_candidate codec policy population (candidate "c1" "7203")).decision
    ≡ DecisionKind.enter_shadow
unfolding evaluate_candidate roboinvest.Router.Bindings.verify_policy
    roboinvest.Router.Bindings.verify_intake roboinvest.Router.Bindings.verify_playbook
    roboinvest.Router.Bindings.verify_population roboinvest.Router.Models.playbook_by_id
enters = refl

one_enters : count_if is_entry (route_batch codec policy population cohort) ≡ 1
unfolding route_batch evaluate_candidate roboinvest.Router.Bindings.verify_policy
    roboinvest.Router.Bindings.verify_intake roboinvest.Router.Bindings.verify_playbook
    roboinvest.Router.Bindings.verify_population roboinvest.Router.Models.playbook_by_id
    roboinvest.Decimal.leb
one_enters = refl

-- The same candidate twice takes one place in the set of ids, and enters twice.
twice_enters :
    count_if is_entry
      (route_batch codec policy population (candidate "c1" "7203" ∷ candidate "c1" "7203" ∷ []))
    ≡ 2
unfolding route_batch evaluate_candidate roboinvest.Router.Bindings.verify_policy
    roboinvest.Router.Bindings.verify_intake roboinvest.Router.Bindings.verify_playbook
    roboinvest.Router.Bindings.verify_population roboinvest.Router.Models.playbook_by_id
    roboinvest.Decimal.leb
twice_enters = refl

evaluate_candidate-enters_iff_example :
    ((evaluate_candidate codec policy population (candidate "c1" "7203")).decision
      ≡ DecisionKind.enter_shadow)
    ↔ (PolicyInForce codec policy (candidate "c1" "7203")
        × InPopulation codec policy population (candidate "c1" "7203")
        × Playable policy.playbooks ("gap" ∷ [])
        × GatesPass (candidate "c1" "7203").gates)
evaluate_candidate-enters_iff_example =
    evaluate_candidate-enters_iff codec policy population (candidate "c1" "7203")

distinct : DistinctIds (keep_if is_entry (map (evaluate_candidate codec policy population) cohort))
unfolding evaluate_candidate roboinvest.Router.Bindings.verify_policy
    roboinvest.Router.Bindings.verify_intake roboinvest.Router.Bindings.verify_playbook
    roboinvest.Router.Bindings.verify_population roboinvest.Router.Models.playbook_by_id
    roboinvest.Decimal.leb
distinct = (refl, (refl, tt))

route_batch-capacity_example : count_if is_entry (route_batch codec policy population cohort) ≤ 1
route_batch-capacity_example = route_batch-capacity codec policy population cohort distinct

route_batch-keeps_example :
    (length (route_batch codec policy population cohort) ≡ 2)
    × (count_if
          (λ d. is_entry d && str_eq d.instrument "7203")
          (route_batch codec policy population cohort)
        ≤ count_if
            (λ d. is_entry d && str_eq d.instrument "7203")
            (map (evaluate_candidate codec policy population) cohort))
route_batch-keeps_example =
    route_batch-keeps codec policy population cohort (λ d. str_eq d.instrument "7203")
