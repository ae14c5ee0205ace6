-- ===== src/Router/Capacity/Bound.antt =====
-- How many candidates `route_batch` lets enter.
use roboinvest.Prelude.{
  ℕ, ◌≤◌, ◌≡◌, refl, subst, Bool, true, false, ◌&&◌, Option, none, some, List, [], ◌∷◌, String,
  str_eq, eq_iff, length, is_some, All, keep_if, map, sort_by, str_leb, count_if, count_if-sort_by,
  count_if-le, count_if-or, count_if-none, count_if-keep_if, arith, Bool-cases, inl, inr,
}
use roboinvest.Router.Integrity.{Codec}
use roboinvest.Router.Models.{
  ReasonCode, CapacityRule, RouterPolicy, PopulationSnapshot, CandidateEvaluation, RouterDecision,
  capacity_rule_missing, capacity_priority_missing,
}
use roboinvest.Router.Decision.{contains}
use roboinvest.Router.Evaluate.{evaluate_candidate}
use roboinvest.Router.Capacity.{
  is_entry, capacity_rejection, last_with, reject_all, Slots, seat, seat_all, no_slots,
  keep_accepted, resolve, apply_capacity, route_batch, ranks_before,
}

-- No two decisions have the same id.
abbrev pub DistinctIds : List RouterDecision → Type 0
DistinctIds [] = Unit
DistinctIds (d ∷ ds) = (count_if (λ e. str_eq e.decision_id d.decision_id) ds ≡ 0) × DistinctIds ds

one_each :
    (id : String) (ds : List RouterDecision)
    → DistinctIds ds
    → count_if (λ e. str_eq e.decision_id id) ds ≤ 1
one_each id [] h = omega arith
one_each id (d ∷ ds) h = elim (Bool-cases (str_eq d.decision_id id)) [
  | inl e ↦
      let same : d.decision_id ≡ id = ground (arith, eq_iff d.decision_id id) in
      let none_left : count_if (λ e. str_eq e.decision_id id) ds ≡ 0 = rw same at h.0 in
      rw e (omega (arith, none_left))
  | inr e ↦ rw e (omega (arith, one_each id ds h.1))
]

-- Of decisions with distinct ids, no more have their id in a list than the list is long.
count_contained :
    (ids : List String) (ds : List RouterDecision)
    → DistinctIds ds
    → count_if (λ e. contains e.decision_id ids) ds ≤ length ids
count_contained [] ds h = omega (arith, count_if-none (λ e. false) ds (λ e. refl))
count_contained (id ∷ ids) ds h = omega (
  arith,
  count_if-or (λ e. str_eq e.decision_id id) (λ e. contains e.decision_id ids) ds,
  one_each id ds h,
  count_contained ids ds h,
)

count_if-both :
    (p q : RouterDecision → Bool) (ds : List RouterDecision)
    → count_if (λ d. p d && q d) ds ≡ count_if q (keep_if p ds)
count_if-both p q [] = refl
count_if-both p q (d ∷ ds) = ground (arith, count_if-both p q ds)

-- the decisions that keep_accepted leaves as entries
pub keep_accepted-entries :
    (test : RouterDecision → Bool) (ids : List String) (ds : List RouterDecision)
    → count_if (λ d. is_entry d && test d) (keep_accepted ids ds)
      ≤ count_if (λ d. is_entry d && (contains d.decision_id ids && test d)) ds
unfolding keep_accepted capacity_rejection
keep_accepted-entries test ids [] = omega arith
keep_accepted-entries test ids (d ∷ ds) = ground (arith, keep_accepted-entries test ids ds)

-- Every entry has a decision of its id among the entries.
last_with-more :
    (id : String) (d : RouterDecision) (ds : List RouterDecision)
    → is_some (last_with id ds) ≡ true
    → is_some (last_with id (d ∷ ds)) ≡ true
unfolding last_with
last_with-more id d ds h = ground arith

last_with-head :
    (d : RouterDecision) (ds : List RouterDecision)
    → is_some (last_with d.decision_id (d ∷ ds)) ≡ true
unfolding last_with
last_with-head d ds = ground (arith, eq_iff d.decision_id d.decision_id)

abbrev pub Covered : List RouterDecision → List RouterDecision → Type 0
Covered eligible ds =
    All (λ d. is_entry d ≡ true → is_some (last_with d.decision_id eligible) ≡ true) ds

Covered-more :
    (d : RouterDecision) (eligible ds : List RouterDecision)
    → Covered eligible ds
    → Covered (d ∷ eligible) ds
Covered-more d eligible [] h = tt
Covered-more d eligible (e ∷ ds) h =
    (λ entry. last_with-more e.decision_id d eligible (h.0 entry), Covered-more d eligible ds h.1)

pub keep_if-Covered : (ds : List RouterDecision) → Covered (keep_if is_entry ds) ds
keep_if-Covered [] = tt
keep_if-Covered (d ∷ ds) =
    let rest = keep_if is_entry ds in
    elim (Bool-cases (is_entry d)) [
      | inl e ↦
          let kept : d ∷ rest ≡ keep_if is_entry (d ∷ ds) = rw e refl in
          subst (λ eligible. Covered eligible (d ∷ ds)) kept
            (λ _. last_with-head d rest, Covered-more d rest ds (keep_if-Covered ds))
      | inr e ↦
          let dropped : rest ≡ keep_if is_entry (d ∷ ds) = rw e refl in
          subst (λ eligible. Covered eligible (d ∷ ds)) dropped
            (λ entry. absurd (ground arith), keep_if-Covered ds)
    ]

pub reject_all-entries :
    (reason : ReasonCode) (eligible ds : List RouterDecision)
    → Covered eligible ds
    → count_if is_entry (reject_all reason eligible ds) ≡ 0
unfolding reject_all capacity_rejection
reject_all-entries reason eligible [] h = refl
reject_all-entries reason eligible (d ∷ ds) h =
    ground (arith, reject_all-entries reason eligible ds, h)

seat_all-length :
    (max_entries : ℕ) (rule : CapacityRule) (s : Slots) (ds : List RouterDecision)
    → length s.accepted_ids ≤ max_entries
    → length (seat_all max_entries rule s ds).accepted_ids ≤ max_entries
unfolding seat_all seat
seat_all-length max_entries rule s [] h = h
seat_all-length max_entries rule s (d ∷ ds) h =
    seat_all-length max_entries rule (seat max_entries rule s d) ds (ground arith)

module _ (policy : RouterPolicy) (ds : List RouterDecision) where
  abbrev eligible : List RouterDecision
  eligible = keep_if is_entry ds

  keep_accepted-le :
      (ids : List String)
      → DistinctIds eligible
      → count_if is_entry (keep_accepted ids ds) ≤ length ids
  keep_accepted-le ids distinct = omega (
    arith,
    count_if-le is_entry (λ d. is_entry d && true) (keep_accepted ids ds) (λ d h. ground arith),
    keep_accepted-entries (λ d. true) ids ds,
    count_if-le (λ d. is_entry d && (contains d.decision_id ids && true))
        (λ d. is_entry d && contains d.decision_id ids) ds (λ d h. ground arith),
    count_if-both is_entry (λ d. contains d.decision_id ids) ds,
    count_contained ids eligible distinct,
  )

  resolve-le :
      (rule : Option CapacityRule)
      → DistinctIds eligible
      → count_if is_entry (resolve policy.max_entries rule eligible ds) ≤ policy.max_entries
  unfolding resolve
  resolve-le none distinct =
      omega (arith, reject_all-entries capacity_rule_missing eligible ds (keep_if-Covered ds))
  resolve-le (some rule) distinct =
      let ordered = sort_by (ranks_before rule) eligible in
      let slots = seat_all policy.max_entries rule no_slots ordered in
      let seated = seat_all-length policy.max_entries rule no_slots ordered (omega arith) in
      ground (
        arith,
        reject_all-entries capacity_priority_missing eligible ds (keep_if-Covered ds),
        keep_accepted-le slots.accepted_ids distinct,
        seated,
      )

  apply_capacity-le :
      DistinctIds eligible → count_if is_entry (apply_capacity policy ds) ≤ policy.max_entries
  unfolding apply_capacity
  apply_capacity-le distinct =
      let by_id : RouterDecision → RouterDecision → Bool =
        λ a b. str_leb a.decision_id b.decision_id in
      let over = resolve policy.max_entries policy.capacity_rule eligible ds in
      ground (
        arith,
        count_if-sort_by is_entry by_id ds,
        count_if-sort_by is_entry by_id over,
        count_if-keep_if is_entry ds,
        resolve-le policy.capacity_rule distinct,
      )

-- A batch whose evaluated entries have distinct decision ids never lets more candidates enter than
-- the policy's `max_entries`, whatever the capacity rule.
pub route_batch-capacity :
    (codec : Codec) (policy : RouterPolicy) (population : PopulationSnapshot)
    (candidates : List CandidateEvaluation)
    → DistinctIds (keep_if is_entry (map (evaluate_candidate codec policy population) candidates))
    → count_if is_entry (route_batch codec policy population candidates) ≤ policy.max_entries
unfolding route_batch
route_batch-capacity codec policy population candidates distinct =
    apply_capacity-le policy (map (evaluate_candidate codec policy population) candidates) distinct
