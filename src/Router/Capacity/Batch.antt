-- ===== src/Router/Capacity/Batch.antt =====
-- What `route_batch` keeps of the decisions that it evaluates.
use roboinvest.Prelude.{
  String, ◌≤◌, ◌≡◌, refl, Bool, true, ◌&&◌, Option, none, some, List, [], ◌∷◌, length, keep_if, map,
  sort_by, str_leb, count_if, count_if-sort_by, count_if-le, length-count_if, arith,
}
use roboinvest.Router.Integrity.{Codec}
use roboinvest.Router.Models.{
  ReasonCode, CapacityRule, RouterPolicy, PopulationSnapshot, CandidateEvaluation, RouterDecision,
  capacity_rule_missing, capacity_priority_missing,
}
use roboinvest.Router.Decision.{contains}
use roboinvest.Router.Evaluate.{evaluate_candidate}
use roboinvest.Router.Capacity.{
  is_entry, reject_all, seat_all, no_slots, keep_accepted, resolve, apply_capacity, route_batch,
  ranks_before,
}
use roboinvest.Router.Capacity.Bound.{keep_accepted-entries, keep_if-Covered, reject_all-entries}

length-map {ℓ κ} :
    {A : Type ℓ} {B : Type κ} (f : A → B) (xs : List A) → length (map f xs) ≡ length xs
length-map f [] = refl
length-map f (x ∷ xs) = omega (arith, length-map f xs)

length-sort_by {ℓ} :
    {A : Type ℓ} (leq : A → A → Bool) (xs : List A) → length (sort_by leq xs) ≡ length xs
length-sort_by leq xs = omega (
  arith,
  length-count_if (sort_by leq xs),
  count_if-sort_by (λ x. true) leq xs,
  length-count_if xs,
)

reject_all-length :
    (reason : ReasonCode) (eligible ds : List RouterDecision)
    → length (reject_all reason eligible ds) ≡ length ds
unfolding reject_all
reject_all-length reason eligible [] = refl
reject_all-length reason eligible (d ∷ ds) = omega (arith, reject_all-length reason eligible ds)

keep_accepted-length :
    (ids : List String) (ds : List RouterDecision) → length (keep_accepted ids ds) ≡ length ds
unfolding keep_accepted
keep_accepted-length ids [] = refl
keep_accepted-length ids (d ∷ ds) = omega (arith, keep_accepted-length ids ds)

module _ (policy : RouterPolicy) (ds : List RouterDecision) where
  abbrev eligible : List RouterDecision
  eligible = keep_if is_entry ds

  abbrev over : List RouterDecision
  over = resolve policy.max_entries policy.capacity_rule eligible ds

  resolve-length :
      (rule : Option CapacityRule)
      → length (resolve policy.max_entries rule eligible ds) ≡ length ds
  unfolding resolve
  resolve-length none = reject_all-length capacity_rule_missing eligible ds
  resolve-length (some rule) =
      let ordered = sort_by (ranks_before rule) eligible in
      let slots = seat_all policy.max_entries rule no_slots ordered in
      ground (
        arith,
        reject_all-length capacity_priority_missing eligible ds,
        keep_accepted-length slots.accepted_ids ds,
      )

  module _ (test : RouterDecision → Bool) where
    abbrev counted : RouterDecision → Bool
    counted d = is_entry d && test d

    reject_all-counted :
        (reason : ReasonCode) → count_if counted (reject_all reason eligible ds) ≡ 0
    reject_all-counted reason =
        let rejected = reject_all reason eligible ds in
        omega (
          arith,
          count_if-le counted is_entry rejected (λ d h. ground arith),
          reject_all-entries reason eligible ds (keep_if-Covered ds),
        )

    keep_accepted-counted :
        (ids : List String) → count_if counted (keep_accepted ids ds) ≤ count_if counted ds
    keep_accepted-counted ids = omega (
      arith,
      keep_accepted-entries test ids ds,
      count_if-le (λ d. is_entry d && (contains d.decision_id ids && test d)) counted ds
          (λ d h. ground arith),
    )

    resolve-counted :
        (rule : Option CapacityRule)
        → count_if counted (resolve policy.max_entries rule eligible ds) ≤ count_if counted ds
    unfolding resolve
    resolve-counted none = omega (arith, reject_all-counted capacity_rule_missing)
    resolve-counted (some rule) =
        let ordered = sort_by (ranks_before rule) eligible in
        let slots = seat_all policy.max_entries rule no_slots ordered in
        ground (
          arith,
          reject_all-counted capacity_priority_missing,
          keep_accepted-counted slots.accepted_ids,
        )

  apply_capacity-kept :
      (test : RouterDecision → Bool)
      → (length (apply_capacity policy ds) ≡ length ds)
        × (count_if (λ d. is_entry d && test d) (apply_capacity policy ds)
            ≤ count_if (λ d. is_entry d && test d) ds)
  unfolding apply_capacity
  apply_capacity-kept test =
      let by_id : RouterDecision → RouterDecision → Bool =
        λ a b. str_leb a.decision_id b.decision_id in
      ground (
        arith,
        count_if-sort_by (counted test) by_id ds,
        count_if-sort_by (counted test) by_id over,
        length-sort_by by_id ds,
        length-sort_by by_id over,
        resolve-length policy.capacity_rule,
        resolve-counted test policy.capacity_rule,
      )

-- `route_batch` returns one decision for each candidate, and it turns no candidate into an entry: of
-- the entries that pass any given test, it returns no more than were evaluated.
pub route_batch-keeps :
    (codec : Codec) (policy : RouterPolicy) (population : PopulationSnapshot)
    (candidates : List CandidateEvaluation) (test : RouterDecision → Bool)
    → let routed = route_batch codec policy population candidates in
      let evaluated = map (evaluate_candidate codec policy population) candidates in
      (length routed ≡ length candidates)
      × (count_if (λ d. is_entry d && test d) routed
          ≤ count_if (λ d. is_entry d && test d) evaluated)
unfolding route_batch
route_batch-keeps codec policy population candidates test =
    let evaluated = map (evaluate_candidate codec policy population) candidates in
    let (same, fewer) = apply_capacity-kept policy evaluated test in
    (omega (arith, same, length-map (evaluate_candidate codec policy population) candidates), fewer)
