-- ===== src/Gateway/Runner/Deadlines.antt =====
-- services/gateway/src/gateway/streaming/runner.py: the dictionary of cooldowns.
use roboinvest.Prelude.{
  ◌≡◌, refl, subst, ℕ, ◌<◌, Bool, true, false, some, [], ◌∷◌, str_eq, eq_iff, arith, ◌&&◌,
}
use roboinvest.Contracts.Enums.{TradeMode, Action, same_action}
use roboinvest.Gateway.Runner.Handler.{PendingKey, Deadlines}
use roboinvest.Gateway.Runner.Gates.{same_key, same_mode, prune, deadline_of, set_deadline}

same_action_lem : (a b : Action) → same_action a b ≡ true → a ≡ b
same_action_lem Action.buy Action.buy h = refl
same_action_lem Action.buy Action.sell h = cc
same_action_lem Action.buy Action.hold h = cc
same_action_lem Action.sell Action.buy h = cc
same_action_lem Action.sell Action.sell h = refl
same_action_lem Action.sell Action.hold h = cc
same_action_lem Action.hold Action.buy h = cc
same_action_lem Action.hold Action.sell h = cc
same_action_lem Action.hold Action.hold h = refl

same_mode_lem : (a b : TradeMode) → same_mode a b ≡ true → a ≡ b
same_mode_lem TradeMode.live TradeMode.live h = refl
same_mode_lem TradeMode.live TradeMode.paper h = cc
same_mode_lem TradeMode.paper TradeMode.live h = cc
same_mode_lem TradeMode.paper TradeMode.paper h = refl

and_parts : (a b c : Bool) → (a && b && c) ≡ true → (a ≡ true) × (b ≡ true) × (c ≡ true)
and_parts a b c h = ground arith

pub same_key_lem : (a b : PendingKey) → same_key a b ≡ true → a ≡ b
unfolding same_key
same_key_lem a b h = eq_of_parts (and_parts _ _ _ h)
  where
    eq_of_parts :
        (same_mode a.mode b.mode ≡ true)
          × (str_eq a.symbol b.symbol ≡ true)
          × (same_action a.action b.action ≡ true)
        → a ≡ b
    eq_of_parts h =
        let m = same_mode_lem a.mode b.mode h.0 in
        let s = (eq_iff a.symbol b.symbol).0 h.1 in
        let c = same_action_lem a.action b.action h.2 in
        λ i. record { mode = m i; symbol = s i; action = c i }

-- what the pruning keeps
pub deadline_of-prune :
    (k : PendingKey) (now deadline : ℕ) (l : Deadlines)
    → now < deadline
    → deadline_of k l ≡ some deadline
    → deadline_of k (prune now l) ≡ some deadline
unfolding deadline_of prune
deadline_of-prune k now deadline [] lt h = h
deadline_of-prune k now deadline ((k', d) ∷ rest) lt h =
    ground (arith, deadline_of-prune k now deadline rest lt)

-- two keys that differ cannot both be a third
other_key :
    (k k' k'' : PendingKey)
    → same_key k k' ≡ false
    → same_key k' k'' ≡ true
    → same_key k k'' ≡ false
other_key k k' k'' h e = subst (λ x. same_key k x ≡ false) (same_key_lem k' k'' e) h

pub deadline_of-set_deadline :
    (k k' : PendingKey) (d : ℕ) (l : Deadlines)
    → same_key k k' ≡ false
    → deadline_of k (set_deadline k' d l) ≡ deadline_of k l
unfolding deadline_of set_deadline
deadline_of-set_deadline k k' d [] h = rw h
deadline_of-set_deadline k k' d ((k'', d') ∷ rest) h =
    ground (arith, other_key k k' k'' h, deadline_of-set_deadline k k' d rest h)

same_key_self : (k : PendingKey) → same_key k k ≡ true
unfolding same_key
same_key_self k =
    and_true _ _ _ (same_mode_self k.mode) ((eq_iff k.symbol k.symbol).1 refl)
      (same_action_self k.action)
  where
    same_mode_self : (m : TradeMode) → same_mode m m ≡ true
    same_mode_self TradeMode.live = refl
    same_mode_self TradeMode.paper = refl

    same_action_self : (a : Action) → same_action a a ≡ true
    same_action_self Action.buy = refl
    same_action_self Action.sell = refl
    same_action_self Action.hold = refl

    and_true : (a b c : Bool) → a ≡ true → b ≡ true → c ≡ true → (a && b && c) ≡ true
    and_true a b c h j l = ground arith

pub deadline_of-set_deadline_self :
    (k : PendingKey) (d : ℕ) (l : Deadlines) → deadline_of k (set_deadline k d l) ≡ some d
unfolding deadline_of set_deadline
deadline_of-set_deadline_self k d [] = rw (same_key_self k)
deadline_of-set_deadline_self k d ((k', d') ∷ rest) =
    ground (arith, deadline_of-set_deadline_self k d rest)
