-- ===== src/Gateway/Runner/Progress.antt =====
-- Rules for handlers that go on: a run to the end, with the replies that it needs.
use roboinvest.Prelude.{◌≡◌, refl, ap, ◌∙◌, Bool, false, ◌&&◌, Result, ok, arith}
use roboinvest.Gateway.Runner.Handler.{
  Handler, State, RejectReason, next, ◌>>=◌, pure, lift, continue,
}
use roboinvest.Gateway.Runner.Process.{reject_if}

-- The handler goes on, from any state with P, to a result and a state with Q.
pub record Goes {A : Type 0} (P : State → Type 0) (m : Handler A) (Q : A → State → Type 0)
    : Type 0 where
  pub run : (s : State) → P s → (a : A) × (s' : State) × (m s ≡ (next a, s')) × Q a s'

module _ {A B : Type 0} {P : State → Type 0} {S : B → State → Type 0} (f : A → Handler B) where
  pub Goes-bind :
      {Q : A → State → Type 0} {m : Handler A}
      → Goes P m Q
      → ((a : A) → Goes (Q a) (f a) S)
      → Goes P (m >>= f) S
  Goes-bind {m} first rest = record {
    run = λ s p.
        let (a, s₁, e, q) = first.run s p in
        let (b, s₂, e', k) = (rest a).run s₁ q in (b, s₂, ap (λ o. continue o f) e ∙ e', k);
  }

  -- a call whose reply is known
  pub Goes-lift : {m : Result A} (a : A) → m ≡ ok a → Goes P (f a) S → Goes P (lift m >>= f) S
  Goes-lift a e k = record {
    run = λ s p.
        let (b, s', e', q) = k.run s p in
        (b, s', ap (λ (m : Result A). continue (lift m s) f) e ∙ e', q);
  }

-- a test that fails
pub Goes-unless :
    {B : Type 0} {P : State → Type 0} {S : B → State → Type 0} {t : Bool} (f : Unit {0} → Handler B)
    (reason : RejectReason)
    → t ≡ false
    → Goes P (f tt) S
    → Goes P (reject_if t reason >>= f) S
unfolding reject_if
Goes-unless f reason e k = record {
  run = λ s p.
      let (b, s', e', q) = k.run s p in
      (b, s', ap (λ (t : Bool). continue (reject_if t reason s) f) e ∙ e', q);
}

pub Goes-pure :
    {A : Type 0} {P : State → Type 0} {Q : A → State → Type 0} (a : A)
    → ((s : State) → P s → Q a s)
    → Goes P (pure a) Q
Goes-pure a h = record { run = λ s p. (a, s, refl, h s p) }

-- a fact beside the state's property may be used as a hypothesis
pub Goes-under :
    {A F : Type 0} {P : State → Type 0} {m : Handler A} {Q : A → State → Type 0}
    → (F → Goes P m Q)
    → Goes (λ s. F × P s) m Q
Goes-under h = record { run = λ s p. (h p.0).run s p.1 }

-- a call whose reply is known, as the result of the call
pub lift-Goes :
    {A : Type 0} {P : State → Type 0} {m : Result A} (a : A)
    → m ≡ ok a
    → Goes P (lift m) (λ b s. (b ≡ a) × P s)
lift-Goes a e = record { run = λ s p. (a, s, ap (λ (m : Result _). lift m s) e, (refl, p)) }

-- the last test of a list fails
pub reject_if-Goes :
    {P : State → Type 0} {t : Bool} (reason : RejectReason)
    → t ≡ false
    → Goes P (reject_if t reason) (λ _. P)
unfolding reject_if
reject_if-Goes reason e = record {
  run = λ s p. (tt, s, ap (λ (t : Bool). reject_if t reason s) e, p);
}

pub and_false : (a : Bool) {b : Bool} → b ≡ false → (a && b) ≡ false
and_false a h = ground arith
