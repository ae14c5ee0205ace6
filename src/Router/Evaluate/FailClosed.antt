-- ===== src/Router/Evaluate/FailClosed.antt =====
-- When core.py lets a candidate enter.
use roboinvest.Prelude.{
  refl, ◌≡◌, ◌↔◌, true, false, Option, none, some, List, [], ◌∷◌, String, str_eq, arith, is_empty,
}
use roboinvest.Router.Integrity.{Codec}
use roboinvest.Router.Models.{
  GateResults, pass, DecisionKind, PlaybookRegistration, RouterPolicy, PopulationSnapshot,
  CandidateEvaluation, playbook_by_id,
}
use roboinvest.Router.Bindings.{verify_policy, verify_intake, verify_playbook, verify_population}
use roboinvest.Router.Decision.{Verdict, before, contains, all_of}
use roboinvest.Router.Evaluate.{
  policy_verdict, gate_reasons, gate_verdict, playbook_verdict, match_verdict, candidate_verdict,
  evaluate_candidate,
}

pub record GatesPass (g : GateResults) : Type 0 where
  pub evidence : g.evidence ≡ pass
  pub mechanism : g.mechanism ≡ pass
  pub context : g.context ≡ pass
  pub execution : g.execution ≡ pass
  pub portfolio_precheck : g.portfolio_precheck ≡ pass

-- The only matched playbook, which is registered and enabled.
pub record Playable (playbooks : List PlaybookRegistration) (matched : List String) : Type 0 where
  pub id : String
  pub only : matched ≡ id ∷ []
  pub playbook : PlaybookRegistration
  pub found : playbook_by_id id playbooks ≡ some playbook
  pub enabled : playbook.enabled ≡ true

pub record PolicyInForce (codec : Codec) (policy : RouterPolicy) (c : CandidateEvaluation)
    : Type 0 where
  pub policy_intact : verify_policy codec policy ≡ true
  pub intake_intact : verify_intake codec policy.candidate_intake ≡ true
  pub playbooks_intact : all_of (verify_playbook codec) policy.playbooks ≡ true
  pub enabled : policy.enabled ≡ true
  pub effective : before c.decision_at policy.effective_at ≡ false
  pub unexpired : before c.decision_at policy.expires_at ≡ true

pub record InPopulation (codec : Codec) (policy : RouterPolicy) (population : PopulationSnapshot)
    (c : CandidateEvaluation) : Type 0 where
  pub candidate_version : str_eq c.candidate_intake_version policy.candidate_intake.version ≡ true
  pub population_version : str_eq population.intake_version policy.candidate_intake.version ≡ true
  pub contract :
      str_eq population.intake_contract_sha256 policy.candidate_intake.declared_sha256 ≡ true
  pub population_intact : verify_population codec population ≡ true
  pub population_hash : str_eq c.upstream_population_hash population.declared_sha256 ≡ true
  pub candidate_known : contains c.candidate_id population.candidate_ids ≡ true
  pub instrument_known : contains c.instrument population.eligible_instruments ≡ true
  pub unexpired : before c.valid_until c.decision_at ≡ false
  pub past_evidence : before c.decision_at c.evidence_cutoff_at ≡ false
  pub not_duplicate : c.duplicate_of_candidate_id ≡ none

abbrev Enters : DecisionKind → Type 0
Enters d = d ≡ DecisionKind.enter_shadow

gate_reasons-empty : (g : GateResults) → (is_empty (gate_reasons g) ≡ true) ↔ GatesPass g
unfolding gate_reasons
gate_reasons-empty g = ground arith

playbook_verdict-Enters :
    (found : Option PlaybookRegistration) (g : GateResults)
    → Enters (playbook_verdict found g).decision
      ↔ (((p : PlaybookRegistration) × (found ≡ some p) × (p.enabled ≡ true)) × GatesPass g)
unfolding playbook_verdict gate_verdict
playbook_verdict-Enters found g = ground (arith, gate_reasons-empty g)

match_verdict-Enters :
    (playbooks : List PlaybookRegistration) (matched : List String) (g : GateResults)
    → Enters (match_verdict playbooks matched g).decision
      ↔ (Playable playbooks matched × GatesPass g)
unfolding match_verdict
match_verdict-Enters playbooks [] g = ground arith
match_verdict-Enters playbooks (id ∷ []) g =
    ground (arith, playbook_verdict-Enters (playbook_by_id id playbooks) g)
match_verdict-Enters playbooks (id ∷ other ∷ ids) g = ground arith

module _ (codec : Codec) (policy : RouterPolicy) (population : PopulationSnapshot)
    (c : CandidateEvaluation) where
  candidate_verdict-Enters : Enters (candidate_verdict codec policy population c).decision ↔ (
      InPopulation codec policy population c
      × Playable policy.playbooks c.matched_playbook_ids
      × GatesPass c.gates)
  unfolding candidate_verdict
  candidate_verdict-Enters =
      ground (arith, match_verdict-Enters policy.playbooks c.matched_playbook_ids c.gates)

  policy_verdict-Enters :
      (next : Verdict)
      → Enters (policy_verdict codec policy c next).decision ↔ (
          PolicyInForce codec policy c × (is_empty policy.playbooks ≡ false) × Enters next.decision)
  unfolding policy_verdict
  policy_verdict-Enters next = ground arith

  Playable-registered :
      (playbooks : List PlaybookRegistration) (matched : List String)
      → Playable playbooks matched
      → is_empty playbooks ≡ false
  unfolding playbook_by_id
  Playable-registered [] matched p = absurd (cc (p.found))
  Playable-registered (q ∷ playbooks) matched p = refl

  -- A candidate enters exactly when the policy's hashes are intact and it is in force, the candidate
  -- belongs to the intact population and is neither stale nor a duplicate, its only matched playbook is
  -- registered and enabled, and all five gates pass.
  pub evaluate_candidate-enters_iff :
      ((evaluate_candidate codec policy population c).decision ≡ DecisionKind.enter_shadow) ↔ (
        PolicyInForce codec policy c
        × InPopulation codec policy population c
        × Playable policy.playbooks c.matched_playbook_ids
        × GatesPass c.gates)
  unfolding evaluate_candidate
  evaluate_candidate-enters_iff =
      let outer = policy_verdict-Enters (candidate_verdict codec policy population c) in
      let inner = candidate_verdict-Enters in
      (
        λ enters.
            let (force, registered, entered) = outer.0 enters in
            let (known, playable, passes) = inner.0 entered in (force, known, playable, passes),
        λ (force, known, playable, passes). outer.1 (
          force,
          Playable-registered policy.playbooks c.matched_playbook_ids playable,
          inner.1 (known, playable, passes),
        ),
      )
