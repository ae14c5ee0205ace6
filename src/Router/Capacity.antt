-- ===== src/Router/Capacity.antt =====
-- services/opportunity-router/src/opportunity_router/core.py: `route_batch`
pub mod Bound
pub mod Batch
use roboinvest.Prelude.{
  ℕ, suc, Bool, true, false, not, ◌||◌, Option, none, some, List, [], ◌∷◌, String, str_eq,
  if◌then◌else◌, leb, length, is_some, keep_if, map, sort_by, str_leb,
}
use roboinvest.Decimal.{leb as leb_Decimal}
use roboinvest.Router.Integrity.{Codec}
use roboinvest.Router.Models.{
  DecisionKind, ReasonCode, CapacityRule, RouterPolicy, PopulationSnapshot, CandidateEvaluation,
  RouterDecision, policy_evaluable, capacity_rule_missing, capacity_priority_missing,
  capacity_rejected,
}
use roboinvest.Router.Decision.{contains, all_of}
use roboinvest.Router.Evaluate.{evaluate_candidate}

-- `decision.decision is DecisionKind.ENTER_SHADOW`
abbrev pub is_entry : RouterDecision → Bool
is_entry d = elim d.decision [ DecisionKind.enter_shadow ↦ true | _ ↦ false ]

unfoldable pub capacity_rejection : RouterDecision → ReasonCode → RouterDecision
capacity_rejection d reason = record d {
  decision = DecisionKind.no_trade;
  reason_codes = reason ∷ [];
  counterfactual_class = policy_evaluable;
}

-- the value that a dict by decision id has for an id: the last one given
unfoldable pub last_with : String → List RouterDecision → Option RouterDecision
last_with id [] = none
last_with id (d ∷ ds) = elim (last_with id ds) [
  | some e ↦ some e
  | none ↦ if str_eq d.decision_id id then some d else none
]

abbrev pub replaced : ReasonCode → RouterDecision → Option RouterDecision → RouterDecision
unfolding capacity_rejection
replaced reason d none = d
replaced reason d (some e) = capacity_rejection e reason

-- `rejected.get(decision.decision_id, decision)` for every decision
unfoldable pub reject_all :
    ReasonCode → List RouterDecision → List RouterDecision → List RouterDecision
unfolding replaced
reject_all reason eligible decisions =
    map (λ d. replaced reason d (last_with d.decision_id eligible)) decisions

-- `playbook_ranks` from a first rank on
unfoldable pub rank_of : String → List String → ℕ → Option ℕ
rank_of id [] rank = none
rank_of id (x ∷ xs) rank = elim (rank_of id xs (suc rank)) [
  | some r ↦ some r
  | none ↦ if str_eq x id then some rank else none
]

unfoldable pub playbook_rank : CapacityRule → Option String → Option ℕ
unfolding rank_of
playbook_rank rule none = none
playbook_rank rule (some id) = rank_of id rule.playbook_priority 0

abbrev pub rank_leb : Option ℕ → Option ℕ → Bool
rank_leb (some a) (some b) = leb a b
rank_leb none b = true
rank_leb (some a) none = false

-- the order by rank, priority and candidate id
unfoldable pub ranks_before : CapacityRule → RouterDecision → RouterDecision → Bool
unfolding playbook_rank
ranks_before rule a b =
    let ra = playbook_rank rule a.playbook_id in
    let rb = playbook_rank rule b.playbook_id in
    if not (rank_leb ra rb)
    then false
    else if not (rank_leb rb ra)
    then true
    else if not (leb_Decimal a.candidate_priority b.candidate_priority)
    then false
    else if not (leb_Decimal b.candidate_priority a.candidate_priority)
    then true
    else str_leb a.candidate_id b.candidate_id

-- `accepted_ids`, a set, and the two counters
pub record Slots : Type 0 where
  pub accepted_ids : List String
  pub instrument_counts : String → ℕ
  pub sector_counts : String → ℕ

abbrev pub bump : String → (String → ℕ) → String → ℕ
bump key counts other = if str_eq other key then suc (counts other) else counts other

abbrev pub bump_sector : Option String → (String → ℕ) → String → ℕ
bump_sector none counts = counts
bump_sector (some sector) counts = bump sector counts

abbrev pub add_id : String → List String → List String
add_id id ids = if contains id ids then ids else id ∷ ids

abbrev pub sector_full : Option ℕ → Option String → (String → ℕ) → Bool
sector_full (some limit) (some sector) counts = leb limit (counts sector)
sector_full _ _ counts = false

-- the body of the loop over the ordered decisions
unfoldable pub seat : ℕ → CapacityRule → Slots → RouterDecision → Slots
seat max_entries rule s d =
    if leb max_entries (length s.accepted_ids)
    then s
    else if leb rule.same_instrument_limit (s.instrument_counts d.instrument)
    then s
    else if sector_full rule.same_sector_limit d.sector s.sector_counts
    then s
    else record {
      accepted_ids = add_id d.decision_id s.accepted_ids;
      instrument_counts = bump d.instrument s.instrument_counts;
      sector_counts = bump_sector d.sector s.sector_counts;
    }

unfoldable pub seat_all : ℕ → CapacityRule → Slots → List RouterDecision → Slots
unfolding seat
seat_all max_entries rule s [] = s
seat_all max_entries rule s (d ∷ ds) = seat_all max_entries rule (seat max_entries rule s d) ds

abbrev pub no_slots : Slots
no_slots = record { accepted_ids = []; instrument_counts = λ i. 0; sector_counts = λ s. 0 }

-- the decisions that are not among the accepted are rejected
unfoldable pub keep_accepted : List String → List RouterDecision → List RouterDecision
unfolding capacity_rejection
keep_accepted accepted_ids decisions =
    map
      (λ d.
        if not (is_entry d) || contains d.decision_id accepted_ids
        then d
        else capacity_rejection d capacity_rejected)
      decisions

-- more eligible decisions than the policy allows
unfoldable pub resolve :
    ℕ → Option CapacityRule → List RouterDecision → List RouterDecision → List RouterDecision
unfolding reject_all seat_all keep_accepted ranks_before playbook_rank
resolve max_entries none eligible decisions = reject_all capacity_rule_missing eligible decisions
resolve max_entries (some rule) eligible decisions =
    if not (all_of (λ d. is_some (playbook_rank rule d.playbook_id)) eligible)
    then reject_all capacity_priority_missing eligible decisions
    else let ordered = sort_by (ranks_before rule) eligible in
      let slots = seat_all max_entries rule no_slots ordered in
      keep_accepted slots.accepted_ids decisions

-- `route_batch` behind the evaluation of its candidates; every branch sorts by decision id
unfoldable pub apply_capacity : RouterPolicy → List RouterDecision → List RouterDecision
unfolding resolve
apply_capacity policy decisions =
    let eligible = keep_if is_entry decisions in
    sort_by (λ a b. str_leb a.decision_id b.decision_id)
      (if leb (length eligible) policy.max_entries
        then decisions
        else resolve policy.max_entries policy.capacity_rule eligible decisions)

unfoldable pub route_batch :
    Codec → RouterPolicy → PopulationSnapshot → List CandidateEvaluation → List RouterDecision
unfolding apply_capacity
route_batch codec policy population candidates =
    apply_capacity policy (map (evaluate_candidate codec policy population) candidates)
