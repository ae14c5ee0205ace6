-- ===== src/Router/Bindings.antt =====
-- services/opportunity-router/src/opportunity_router/models.py: what the hashes of a registration bind
use roboinvest.Router.Models.{
  CandidateIntakeRegistration, PlaybookRegistration, CapacityRule, RouterPolicy, PopulationSnapshot,
}
use roboinvest.Prelude.{ℕ, Bool, Option, none, some, List, [], ◌∷◌, String, str_eq}
use roboinvest.Router.Integrity.{
  Json, Items, null, boolean, number, text, array, object, end, item, close, member, Codec,
  canonical_sha256, verify_canonical_payload,
}

abbrev pub texts : List String → Items
texts [] = end
texts (s ∷ ss) = item (text s) (texts ss)

unfoldable pub verify_intake : Codec → CandidateIntakeRegistration → Bool
unfolding verify_canonical_payload
verify_intake codec intake =
    verify_canonical_payload codec intake.contract_json intake.declared_sha256

unfoldable pub intake_binding : CandidateIntakeRegistration → Json
intake_binding intake = object (
    member "version" (text intake.version)
      (member "declared_sha256" (text intake.declared_sha256) close))

unfoldable pub verify_playbook : Codec → PlaybookRegistration → Bool
unfolding verify_canonical_payload
verify_playbook codec playbook =
    verify_canonical_payload codec playbook.contract_json playbook.declared_sha256

unfoldable pub playbook_binding : PlaybookRegistration → Json
playbook_binding playbook = object (
    member "playbook_id" (text playbook.playbook_id) (
      member "version" (text playbook.version) (
        member "declared_sha256" (text playbook.declared_sha256)
          (member "enabled" (boolean playbook.enabled) close))))

unfoldable pub limit_or_null : Option ℕ → Json
limit_or_null none = null
limit_or_null (some n) = number n

unfoldable pub capacity_rule_dict : Option CapacityRule → Json
unfolding limit_or_null
capacity_rule_dict none = null
capacity_rule_dict (some rule) = object (
    member "rule_id" (text rule.rule_id) (
      member "version" (text rule.version) (
        member "playbook_priority" (array (texts rule.playbook_priority)) (
          member "same_instrument_limit" (number rule.same_instrument_limit) (
            member "same_sector_limit" (limit_or_null rule.same_sector_limit) (
              member "tie_breaker" (text rule.tie_breaker)
                (member "candidate_priority" (text "ASCENDING") close)))))))

unfoldable pub playbook_items : List PlaybookRegistration → Items
unfolding playbook_binding
playbook_items [] = end
playbook_items (p ∷ ps) = item (playbook_binding p) (playbook_items ps)

unfoldable pub policy_binding : Codec → RouterPolicy → Json
unfolding intake_binding capacity_rule_dict playbook_items
policy_binding codec policy = object (
    member "policy_id" (text policy.policy_id) (
      member "version" (text policy.version) (
        member "effective_at" (text (codec.isoformat policy.effective_at)) (
          member "expires_at" (text (codec.isoformat policy.expires_at)) (
            member "candidate_intake" (intake_binding policy.candidate_intake) (
              member "playbooks" (array (playbook_items policy.playbooks)) (
                member "max_entries" (number policy.max_entries) (
                  member "capacity_rule" (capacity_rule_dict policy.capacity_rule)
                    (member "enabled" (boolean policy.enabled) close)))))))))

unfoldable pub verify_policy : Codec → RouterPolicy → Bool
unfolding policy_binding canonical_sha256
verify_policy codec policy =
    str_eq (canonical_sha256 codec (policy_binding codec policy)) policy.declared_sha256

unfoldable pub population_binding : PopulationSnapshot → Json
population_binding population = object (
    member "intake_version" (text population.intake_version) (
      member "intake_contract_sha256" (text population.intake_contract_sha256) (
        member "session_id" (text population.session_id) (
          member "eligible_instruments" (array (texts population.eligible_instruments))
            (member "candidate_ids" (array (texts population.candidate_ids)) close)))))

unfoldable pub verify_population : Codec → PopulationSnapshot → Bool
unfolding population_binding canonical_sha256
verify_population codec population =
    str_eq (canonical_sha256 codec (population_binding population)) population.declared_sha256
