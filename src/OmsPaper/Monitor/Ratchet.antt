-- ===== src/OmsPaper/Monitor/Ratchet.antt =====
-- A trailing stop only ever rises.
use roboinvest.Contracts.Enums.{is_day, is_swing}
use roboinvest.Prelude.{
  not, Bool, Bool-cases, inl, inr, if◌then◌else◌, Option, none, some, List, [], ◌∷◌, true, false,
}
use roboinvest.Decimal.{Decimal, ltb, Le, le_refl, le_trans, le_of_lt}
use roboinvest.Contracts.Time.{DateTime}
use roboinvest.OmsPaper.Models.{
  stop_loss, target, max_hold_days, PaperPosition, Decision, exit, trail, hold,
}
use roboinvest.OmsPaper.Monitor.{
  stop_hit, target_hit, held_too_long, is_max_hold_elapsed, trail_or_hold, trailing_candidate,
  evaluate_day_exit, evaluate_swing_exit,
}

-- No stop is below every stop.
abbrev pub NotBelow : Option Decimal → Option Decimal → Type 0
NotBelow none new = Unit
NotBelow (some old) none = ⊥
NotBelow (some old) (some new) = Le old new

-- What a decision does to the position: only `trail` writes, and it writes the stop.
abbrev pub follow : PaperPosition → Decision → PaperPosition
follow p (exit reason) = p
follow p (trail stop) = record p { stop_loss_price = some stop }
follow p hold = p

NotBelow-refl : (a : Option Decimal) → NotBelow a a
NotBelow-refl none = tt
NotBelow-refl (some a) = le_refl a

NotBelow-trans : (a b c : Option Decimal) → NotBelow a b → NotBelow b c → NotBelow a c
NotBelow-trans none b c h g = tt
NotBelow-trans (some a) none c h g = absurd h
NotBelow-trans (some a) (some b) none h g = absurd g
NotBelow-trans (some a) (some b) (some c) h g = le_trans a b c h g

-- A decision to trail names a stop that is not below the old one.
abbrev Raises : Option Decimal → Decision → Type 0
Raises old (exit reason) = Unit
Raises old (trail stop) = NotBelow old (some stop)
Raises old hold = Unit

follow-NotBelow :
    (p : PaperPosition) (d : Decision)
    → Raises p.stop_loss_price d
    → NotBelow p.stop_loss_price (follow p d).stop_loss_price
follow-NotBelow p (exit reason) h = NotBelow-refl p.stop_loss_price
follow-NotBelow p (trail stop) h = h
follow-NotBelow p hold h = NotBelow-refl p.stop_loss_price

trail_or_hold-Raises :
    (pct old : Option Decimal) (price : Decimal) → Raises old (trail_or_hold pct old price)
unfolding trail_or_hold
trail_or_hold-Raises none old price = tt
trail_or_hold-Raises (some pct) none price = tt
trail_or_hold-Raises (some pct) (some stop) price =
    let candidate = trailing_candidate price pct in
    elim (Bool-cases (ltb stop candidate)) [
      | inl e ↦ rw e (le_of_lt stop candidate e)
      | inr e ↦ rw e tt
    ]

-- the tests that both monitors make before they trail
ladder-Raises :
    (a b c d : Bool) (old : Option Decimal) (last : Decision)
    → Raises old last
    → Raises old (
        if a
        then hold
        else if b
        then exit stop_loss
        else if c
        then exit target
        else if d
        then exit max_hold_days
        else last)
ladder-Raises true b c d old last h = tt
ladder-Raises false true c d old last h = tt
ladder-Raises false false true d old last h = tt
ladder-Raises false false false true old last h = tt
ladder-Raises false false false false old last h = h

evaluate_day_exit-Raises :
    (p : PaperPosition) (price : Decimal) (now : DateTime)
    → Raises p.stop_loss_price (evaluate_day_exit p price now)
unfolding evaluate_day_exit
evaluate_day_exit-Raises p price now =
    ladder-Raises (not (is_day p.holding_type)) (stop_hit p.stop_loss_price price)
      (target_hit p.target_price price) (held_too_long p.max_hold_days p.opened_at now)
      p.stop_loss_price (trail_or_hold p.trailing_stop_pct p.stop_loss_price price)
      (trail_or_hold-Raises p.trailing_stop_pct p.stop_loss_price price)

evaluate_swing_exit-Raises :
    (p : PaperPosition) (price : Decimal) (now : DateTime)
    → Raises p.stop_loss_price (evaluate_swing_exit p price now)
unfolding evaluate_swing_exit
evaluate_swing_exit-Raises p price now =
    ladder-Raises (not (is_swing p.holding_type)) (stop_hit p.stop_loss_price price)
      (target_hit p.target_price price) (is_max_hold_elapsed p now) p.stop_loss_price
      (trail_or_hold p.trailing_stop_pct p.stop_loss_price price)
      (trail_or_hold-Raises p.trailing_stop_pct p.stop_loss_price price)

-- the ticks that a position sees while it is monitored
abbrev pub watch :
    (PaperPosition → Decimal → DateTime → Decision)
    → PaperPosition
    → List (Decimal × DateTime)
    → PaperPosition
watch evaluate p [] = p
watch evaluate p ((price, now) ∷ ticks) = watch evaluate (follow p (evaluate p price now)) ticks

watch-NotBelow :
    (evaluate : PaperPosition → Decimal → DateTime → Decision)
    → ((p : PaperPosition) (price : Decimal) (now : DateTime)
        → Raises p.stop_loss_price (evaluate p price now))
    → (p : PaperPosition) (ticks : List (Decimal × DateTime))
    → NotBelow p.stop_loss_price (watch evaluate p ticks).stop_loss_price
watch-NotBelow evaluate raises p [] = NotBelow-refl p.stop_loss_price
watch-NotBelow evaluate raises p ((price, now) ∷ ticks) =
    let d = evaluate p price now in
    NotBelow-trans p.stop_loss_price (follow p d).stop_loss_price _
      (follow-NotBelow p d (raises p price now)) (watch-NotBelow evaluate raises (follow p d) ticks)

-- Over any sequence of prices and times, neither monitor lowers or removes a stop that it once had.
pub stop_never_falls :
    (p : PaperPosition) (ticks : List (Decimal × DateTime))
    → NotBelow p.stop_loss_price (watch evaluate_day_exit p ticks).stop_loss_price
      × NotBelow p.stop_loss_price (watch evaluate_swing_exit p ticks).stop_loss_price
stop_never_falls p ticks = (
  watch-NotBelow evaluate_day_exit evaluate_day_exit-Raises p ticks,
  watch-NotBelow evaluate_swing_exit evaluate_swing_exit-Raises p ticks,
)
