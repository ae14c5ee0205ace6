-- ===== src/Aggregator/Consensus/Picks.antt =====
-- Which signal of a side consensus.py takes.
use roboinvest.Prelude.{
  if◌then◌else◌, ap, subst, sym, sym, ◌≡◌, refl, Bool, true, false, some, List, [], ◌∷◌, All, arith,
  ◌⊎◌, inl, inr, Bool-cases,
}
use roboinvest.Decimal.{ltb, Le, le_refl, le_trans, le_of_lt}
use roboinvest.Contracts.Enums.{Action, same_action}
use roboinvest.Contracts.Signal.{StrategySignal}
use roboinvest.Aggregator.Consensus.{all_of, best_of, pick_dominant}

-- The pick is at least as confident as the others, one of them, and asks for what they all ask for.
abbrev pub Member : StrategySignal → List StrategySignal → Type 0
Member s [] = ⊥
Member s (t ∷ ts) = (s ≡ t) ⊎ Member s ts

pub record Dominates (s : StrategySignal) (ss : List StrategySignal) : Type 0 where
  pub one_of : Member s ss
  pub most_confident : All (λ t. Le t.confidence s.confidence) ss
  pub same_action : All (λ t. t.action ≡ s.action) ss

best_of-up :
    (best s : StrategySignal) (ss : List StrategySignal)
    → ltb best.confidence s.confidence ≡ true
    → best_of s ss ≡ best_of best (s ∷ ss)
unfolding best_of
best_of-up best s ss e = sym (ap (λ (b : Bool). best_of (if b then s else best) ss) e)

best_of-stay :
    (best s : StrategySignal) (ss : List StrategySignal)
    → ltb best.confidence s.confidence ≡ false
    → best_of best ss ≡ best_of best (s ∷ ss)
unfolding best_of
best_of-stay best s ss e = sym (ap (λ (b : Bool). best_of (if b then s else best) ss) e)

-- a signal that is at least as confident as the first and the others
abbrev Tops : StrategySignal → List StrategySignal → StrategySignal → Type 0
Tops best ss x = Le best.confidence x.confidence × All (λ t. Le t.confidence x.confidence) ss

best_of-Tops : (best : StrategySignal) (ss : List StrategySignal) → Tops best ss (best_of best ss)
unfolding best_of
best_of-Tops best [] = (le_refl best.confidence, tt)
best_of-Tops best (s ∷ ss) = elim (Bool-cases (ltb best.confidence s.confidence)) [
  | inl e ↦
      let (top, rest) = best_of-Tops s ss in
      let above =
        le_trans best.confidence s.confidence (best_of s ss).confidence
          (le_of_lt best.confidence s.confidence e) top in
      subst (Tops best (s ∷ ss)) (best_of-up best s ss e) (above, (top, rest))
  | inr e ↦
      let (top, rest) = best_of-Tops best ss in
      let below : Le s.confidence best.confidence = ground arith in
      let under = le_trans s.confidence best.confidence (best_of best ss).confidence below top in
      subst (Tops best (s ∷ ss)) (best_of-stay best s ss e) (top, (under, rest))
]

abbrev In : List StrategySignal → StrategySignal → Type 0
In ss x = Member x ss

best_of-Member :
    (best : StrategySignal) (ss : List StrategySignal) → Member (best_of best ss) (best ∷ ss)
unfolding best_of
best_of-Member best [] = inl refl
best_of-Member best (s ∷ ss) = elim (Bool-cases (ltb best.confidence s.confidence)) [
  | inl e ↦ subst (In (best ∷ s ∷ ss)) (best_of-up best s ss e) (inr (best_of-Member s ss))
  | inr e ↦
      let next = best_of-stay best s ss e in
      elim (best_of-Member best ss) [
        | inl top ↦ subst (In (best ∷ s ∷ ss)) next (inl top)
        | inr later ↦ subst (In (best ∷ s ∷ ss)) next (inr (inr later))
      ]
]

same_action-eq : (a b : Action) → same_action a b ≡ true → b ≡ a
same_action-eq a b h = ground arith

all_of-same :
    (a : Action) (ss : List StrategySignal)
    → all_of (λ t. same_action a t.action) ss ≡ true
    → All (λ t. t.action ≡ a) ss
all_of-same a [] h = tt
all_of-same a (s ∷ ss) h =
    (same_action-eq a s.action (ground arith), all_of-same a ss (ground arith))

-- whichever element is picked, all ask for what it does
Member-action :
    (a : Action) (s : StrategySignal) (ss : List StrategySignal)
    → All (λ t. t.action ≡ a) ss
    → Member s ss
    → s.action ≡ a
Member-action a s [] h m = absurd m
Member-action a s (t ∷ ts) h (inl e) = rw e h.0
Member-action a s (t ∷ ts) h (inr m) = Member-action a s ts h.1 m

-- The pick of a side is one of its signals and at least as confident as each of them, and all of them
-- ask for its action.
pub pick_dominant-Dominates :
    (ss : List StrategySignal) (s : StrategySignal) → pick_dominant ss ≡ some s → Dominates s ss
unfolding pick_dominant
pick_dominant-Dominates [] s h = absurd (ground arith)
pick_dominant-Dominates (t ∷ ts) s h =
    let picked : best_of t ts ≡ s = ground arith in
    let agree : All (λ x. x.action ≡ t.action) (t ∷ ts) =
      (refl, all_of-same t.action ts (ground arith)) in
    let best = best_of-Member t ts in
    let top = best_of-Tops t ts in
    let same : t.action ≡ (best_of t ts).action =
      sym (Member-action t.action (best_of t ts) (t ∷ ts) agree best) in
    subst (λ x. Dominates x (t ∷ ts)) picked
      (record {
        one_of = best;
        most_confident = top;
        same_action = subst (λ a. All (λ x. x.action ≡ a) (t ∷ ts)) same agree;
      })
