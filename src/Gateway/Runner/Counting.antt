-- ===== src/Gateway/Runner/Counting.antt =====
-- services/gateway/src/gateway/streaming/runner.py: the counters of `run_once`.
use roboinvest.Prelude.{
  ◌≡◌, refl, sym, ap, ◌∙◌, ℕ, ◌+◌, Option, none, some, List, [], ◌∷◌, ◌++◌, map, Result, ok, raised,
  ok_inj, subst, inl, inr, ◌⊎◌, suc, String, Bool, true, false, if◌then◌else◌, length,
  length-append, arith,
}
use mathlib.Core.List.{append_assoc, append-nil}
use roboinvest.Contracts.Signal.{UnifiedTradeSignal}
use roboinvest.Gateway.Runner.Services.{Runner}
use roboinvest.Gateway.Runner.Handler.{State, Decision, Call, acknowledged}
use roboinvest.Gateway.Runner.Process.{process}
use roboinvest.Gateway.Runner.Batch.{
  PulledMessage, BatchStats, Progress, no_stats, parse_signal, count_decision, decide, and_then,
  handle_parsed, handle_message, handle_messages, after_acknowledge, acknowledge, run_once,
}

-- the messages that have been counted, each under one heading
abbrev pub accounted : BatchStats → ℕ
accounted stats =
    stats.parse_errors + stats.approved + stats.rejected + stats.duplicates_suppressed
    + stats.ambiguous

-- the headings of the messages
pub data Heading : Type 0 where
  unparsed suppressed unclear accepted turned_down : Heading

-- A message that is no signal has no decision. A suppressed duplicate is counted as that, whatever else
-- the decision says, and of the others one with an unclear result.
abbrev pub heading_of : Option Decision → Heading
heading_of none = unparsed
heading_of (some d) =
    if d.duplicate_suppressed
    then suppressed
    else if d.ambiguous
    then unclear
    else if d.approved
    then accepted
    else turned_down

abbrev pub same_heading : Heading → Heading → Bool
same_heading unparsed unparsed = true
same_heading suppressed suppressed = true
same_heading unclear unclear = true
same_heading accepted accepted = true
same_heading turned_down turned_down = true
same_heading _ _ = false

-- the counter of a heading
abbrev pub counter : Heading → BatchStats → ℕ
counter unparsed stats = stats.parse_errors
counter suppressed stats = stats.duplicates_suppressed
counter unclear stats = stats.ambiguous
counter accepted stats = stats.approved
counter turned_down stats = stats.rejected

abbrev pub occurrences : (Option Decision → Bool) → List (Option Decision) → ℕ
occurrences test [] = 0
occurrences test (d ∷ rest) = let n = occurrences test rest in if test d then n + 1 else n

abbrev pub is_under : Heading → Option Decision → Bool
is_under h d = same_heading h (heading_of d)

abbrev pub fired : Option Decision → Bool
fired none = false
fired (some d) = d.kill_switch_fired

-- what `_process` decides on a message, and then what follows in the state that it leaves
abbrev pub with_decision :
    Result Decision × State → (State → List (Option Decision)) → List (Option Decision)
with_decision (ok d, s) rest = some d ∷ rest s
with_decision (raised e, s) rest = []

abbrev pub decided_on :
    Runner
    → PulledMessage
    → State
    → Option UnifiedTradeSignal
    → (State → List (Option Decision))
    → List (Option Decision)
decided_on r m s none rest = none ∷ rest s
decided_on r m s (some signal) rest = with_decision (decide (process r m.services signal s)) rest

-- The decisions on the messages, in their order, up to an error; none for what is no signal.
unfoldable pub decisions : Runner → List PulledMessage → State → List (Option Decision)
decisions r [] s = []
decisions r (m ∷ messages) s =
    decided_on r m s (parse_signal r.codec m.payload) (decisions r messages)

abbrev pub ack_ids : List PulledMessage → List String
ack_ids = map (λ m. m.ack_id)

count_decision-accounted :
    (d : Decision) (stats : BatchStats)
    → (accounted (count_decision d stats) ≡ accounted stats + 1)
      × ((count_decision d stats).pulled ≡ stats.pulled)
unfolding count_decision
count_decision-accounted d stats = ground arith

count_decision-counter :
    (h : Heading) (d : Decision) (stats : BatchStats)
    → counter h (count_decision d stats) ≡ counter h stats + occurrences (is_under h) (some d ∷ [])
unfolding count_decision
count_decision-counter unparsed d stats = ground arith
count_decision-counter suppressed d stats = ground arith
count_decision-counter unclear d stats = ground arith
count_decision-counter accepted d stats = ground arith
count_decision-counter turned_down d stats = ground arith

count_decision-fired :
    (d : Decision) (stats : BatchStats)
    → (count_decision d stats).kill_switch_triggered
      ≡ stats.kill_switch_triggered + occurrences fired (some d ∷ [])
unfolding count_decision
count_decision-fired d stats = ground arith

parse_error-counter :
    (h : Heading) (stats : BatchStats)
    → counter h (record stats { parse_errors = stats.parse_errors + 1 })
      ≡ counter h stats + occurrences (is_under h) (none ∷ [])
parse_error-counter unparsed stats = refl
parse_error-counter suppressed stats = omega arith
parse_error-counter unclear stats = omega arith
parse_error-counter accepted stats = omega arith
parse_error-counter turned_down stats = omega arith

occurrences-append :
    (test : Option Decision → Bool) (xs ys : List (Option Decision))
    → occurrences test (xs ++ ys) ≡ occurrences test xs + occurrences test ys
occurrences-append test [] ys = omega arith
occurrences-append test (x ∷ xs) ys = ground (arith, occurrences-append test xs ys)

and_then-eq-ok :
    {A B : Type 0} (o : Result A × State) (f : A → State → Result B × State) {b : B} {s : State}
    → and_then o f ≡ (ok b, s)
    → (a : A) × (s₁ : State) × (f a s₁ ≡ (ok b, s)) × (o ≡ (ok a, s₁))
and_then-eq-ok (ok a, s₁) f h = (a, s₁, h, refl)
and_then-eq-ok (raised e, s₁) f h = cc

-- Messages more are counted, by the decisions on them, and their ids appended.
record Counted (before after : Progress) (ids : List String) (ds : List (Option Decision))
    : Type 0 where
  more : accounted after.0 ≡ accounted before.0 + length ids
  under : (h : Heading) → counter h after.0 ≡ counter h before.0 + occurrences (is_under h) ds
  kills : after.0.kill_switch_triggered ≡ before.0.kill_switch_triggered + occurrences fired ds
  pulled : after.0.pulled ≡ before.0.pulled
  acks : after.1 ≡ before.1 ++ ids

Counted-trans :
    (a b c : Progress) (xs ys : List String) (ds es : List (Option Decision))
    → Counted a b xs ds
    → Counted b c ys es
    → Counted a c (xs ++ ys) (ds ++ es)
Counted-trans a b c xs ys ds es h k = record {
  more = omega (arith, h.more, k.more, length-append {0} xs ys);
  under = λ x. omega (arith, h.under x, k.under x, occurrences-append (is_under x) ds es);
  kills = omega (arith, h.kills, k.kills, occurrences-append fired ds es);
  pulled = k.pulled ∙ h.pulled;
  acks = k.acks ∙ (ap (λ l. l ++ ys) h.acks ∙ append_assoc a.1 xs ys);
}

handle_parsed-Counted :
    (r : Runner) (m : PulledMessage) (p : Progress) (s : State) (parsed : Option UnifiedTradeSignal)
    {p' : Progress} {s' : State}
    → handle_parsed r m p s parsed ≡ (ok p', s')
    → (d : Option Decision) × Counted p p' (m.ack_id ∷ []) (d ∷ [])
      × ((rest : State → List (Option Decision)) → decided_on r m s parsed rest ≡ d ∷ rest s')
unfolding handle_parsed
handle_parsed-Counted r m (stats, to_ack) s none {p'} {s'} h =
    let e = ok_inj (ap (λ (x : Result Progress × State). x.0) h) in
    let same = ap (λ (x : Result Progress × State). x.1) h in
    (
      none,
      subst (λ x. Counted (stats, to_ack) x (m.ack_id ∷ []) (none ∷ [])) e
          record {
            more = omega arith;
            under = λ x. parse_error-counter x stats;
            kills = omega arith;
            pulled = refl;
            acks = refl;
          },
      λ rest. ap (λ x. none ∷ rest x) same,
    )
handle_parsed-Counted r m (stats, to_ack) s (some signal) h =
    let (d, s₁, found, decided) =
      and_then-eq-ok (decide (process r m.services signal s))
        (λ d s'. (ok (count_decision d stats, to_ack ++ m.ack_id ∷ []), s')) h in
    let e = ok_inj (ap (λ (x : Result Progress × State). x.0) found) in
    let same = ap (λ (x : Result Progress × State). x.1) found in
    let (more, pulled) = count_decision-accounted d stats in
    (
      some d,
      subst (λ x. Counted (stats, to_ack) x (m.ack_id ∷ []) (some d ∷ [])) e
          record {
            more = more;
            under = λ x. count_decision-counter x d stats;
            kills = count_decision-fired d stats;
            pulled = pulled;
            acks = refl;
          },
      λ rest. ap (λ o. with_decision o rest) decided ∙ ap (λ x. some d ∷ rest x) same,
    )

handle_messages-Counted :
    (r : Runner) (messages : List PulledMessage) (p : Progress) (s : State) {p' : Progress}
    {s' : State}
    → handle_messages r messages p s ≡ (ok p', s')
    → Counted p p' (ack_ids messages) (decisions r messages s)
unfolding handle_messages handle_message decisions
handle_messages-Counted r [] p s h =
    let e = ok_inj (ap (λ (x : Result Progress × State). x.0) h) in
    subst (λ x. Counted p x [] []) e
      record {
        more = omega arith;
        under = λ x. omega arith;
        kills = omega arith;
        pulled = refl;
        acks = sym (append-nil p.1);
      }
handle_messages-Counted r (m ∷ rest) p s {p'} h =
    let (p₁, s₁, after, first) =
      and_then-eq-ok (handle_message r m p s) (handle_messages r rest) h in
    let (d, one, on_first) = handle_parsed-Counted r m p s (parse_signal r.codec m.payload) first in
    subst (Counted p p' (ack_ids (m ∷ rest))) (sym (on_first (decisions r rest))) (
      Counted-trans p p₁ p' (m.ack_id ∷ []) (ack_ids rest) (d ∷ []) (decisions r rest s₁) one
        (handle_messages-Counted r rest p₁ s₁ after))

-- the messages are acknowledged in one call, if there are any
abbrev pub Acknowledged : List String → State → Type 0
Acknowledged ids s = (ids ≡ []) ⊎ ((t : List Call) × (s.trace ≡ acknowledged ids ∷ t))

after_acknowledge-eq-ok :
    (stats : BatchStats) (ids : List String) (s : State) (reply : Result (Unit {0}))
    {stats' : BatchStats} {s' : State}
    → after_acknowledge stats ids s reply ≡ (ok stats', s')
    → (stats ≡ stats') × Acknowledged ids s'
unfolding after_acknowledge
after_acknowledge-eq-ok stats ids s (ok done) h = (
  ok_inj (ap (λ (x : Result BatchStats × State). x.0) h),
  inr (s.trace, sym (ap (λ (x : Result BatchStats × State). x.1.trace) h)),
)
after_acknowledge-eq-ok stats ids s (raised e) h = cc

acknowledge-eq-ok :
    (ack : List String → Result (Unit {0})) (stats : BatchStats) (ids : List String) (s : State)
    {stats' : BatchStats} {s' : State}
    → acknowledge ack stats ids s ≡ (ok stats', s')
    → (stats ≡ stats') × Acknowledged ids s'
unfolding acknowledge
acknowledge-eq-ok ack stats [] s h =
    (ok_inj (ap (λ (x : Result BatchStats × State). x.0) h), inl refl)
acknowledge-eq-ok ack stats (id ∷ ids) s h =
    after_acknowledge-eq-ok stats (id ∷ ids) s (ack (id ∷ ids)) h

length-ack_ids : (messages : List PulledMessage) → length (ack_ids messages) ≡ length messages
length-ack_ids [] = refl
length-ack_ids (m ∷ rest) = ap suc (length-ack_ids rest)

-- When `run_once` returns, each counter is the number of messages under its heading, a message that is no
-- signal, or a decision that is a suppressed duplicate, else unclear, else an approval, else a rejection;
-- the kill switch counter is the number of decisions that it fired in; the counters of the headings add up
-- to all pulled messages; and these have been acknowledged, in one call and in their order.
pub run_once-counts :
    (r : Runner) (ack : List String → Result (Unit {0})) (messages : List PulledMessage) (s : State)
    (stats : BatchStats) (s' : State) (h : Heading)
    → run_once r ack messages s ≡ (ok stats, s')
    → (counter h stats ≡ occurrences (is_under h) (decisions r messages s))
      × (stats.kill_switch_triggered ≡ occurrences fired (decisions r messages s))
      × (stats.pulled ≡ length messages)
      × (accounted stats ≡ length messages)
      × (stats.acked ≡ length messages)
      × Acknowledged (ack_ids messages) s'
unfolding run_once
run_once-counts r ack messages s stats s' h returns =
    let start : Progress = (record no_stats { pulled = length messages }, []) in
    let (p, s₁, acked, handled) =
      and_then-eq-ok (handle_messages r messages start s)
        (λ progress. acknowledge ack record (progress.0) { acked = length progress.1 } progress.1)
        returns in
    let c = handle_messages-Counted r messages start s handled in
    let (same, done) = acknowledge-eq-ok ack record (p.0) { acked = length p.1 } p.1 s₁ acked in
    (
      ap (counter h) (sym same) ∙ (acked_alone h p.0 (length p.1) ∙ (c.under h ∙ from_zero h _)),
      omega (arith, ap (λ (x : BatchStats). x.kill_switch_triggered) same, c.kills),
      ap (λ (x : BatchStats). x.pulled) (sym same) ∙ c.pulled,
      omega (arith, ap accounted same, c.more, length-ack_ids messages),
      ap (λ (x : BatchStats). x.acked) (sym same) ∙ (ap length c.acks ∙ length-ack_ids messages),
      subst (λ ids. Acknowledged ids s') c.acks done,
    )
  where
    acked_alone :
        (h : Heading) (stats : BatchStats) (n : ℕ)
        → counter h (record stats { acked = n }) ≡ counter h stats
    acked_alone unparsed stats n = refl
    acked_alone suppressed stats n = refl
    acked_alone unclear stats n = refl
    acked_alone accepted stats n = refl
    acked_alone turned_down stats n = refl

    from_zero :
        (h : Heading) (n : ℕ) → counter h (record no_stats { pulled = length messages }) + n ≡ n
    from_zero unparsed n = omega arith
    from_zero suppressed n = omega arith
    from_zero unclear n = omega arith
    from_zero accepted n = omega arith
    from_zero turned_down n = omega arith
