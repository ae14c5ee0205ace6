-- ===== src/Gateway/Runner/Rules.antt =====
-- Rules for handlers: what holds of the state before one, of its result and the state if it goes on, and
-- of the state if it returns early or raises.
use roboinvest.Prelude.{◌∷◌, ◌≡◌, Result, ok, raised, refl, Error}
use roboinvest.Gateway.Runner.Handler.{
  return, Decision, record_call, Call, Handler, State, Outcome, next, returned, failed, continue,
  ◌>>=◌, pure, lift, raise,
}

abbrev pub After :
    {A : Type 0} → (A → State → Type 0) → (State → Type 0) → Outcome A × State → Type 0
After Q R (next a, s) = Q a s
After Q R (returned d, s) = R s
After Q R (failed e, s) = R s

pub record Triple {A : Type 0} (P : State → Type 0) (m : Handler A) (Q : A → State → Type 0)
    (R : State → Type 0) : Type 0 where
  pub run : (s : State) → P s → After Q R (m s)

module _ {A B : Type 0} {S : B → State → Type 0} {R : State → Type 0} where
  After-continue :
      {Q : A → State → Type 0} (f : A → Handler B) (o : Outcome A × State)
      → ((a : A) → Triple (Q a) (f a) S R)
      → After Q R o
      → After S R (continue o f)
  After-continue f (next a, s) rest h = (rest a).run s h
  After-continue f (returned d, s) rest h = h
  After-continue f (failed e, s) rest h = h

  pub Triple-bind :
      {P : State → Type 0} {Q : A → State → Type 0} {m : Handler A} {f : A → Handler B}
      → Triple P m Q R
      → ((a : A) → Triple (Q a) (f a) S R)
      → Triple P (m >>= f) S R
  Triple-bind {m} {f} first rest = record {
    run = λ s p. After-continue f (m s) rest (first.run s p);
  }

  -- A fact beside the state's property may be used as a hypothesis.
  pub Keeps-bind :
      {P I : State → Type 0} {F : A → Type 0} {m : Handler A} {f : A → Handler B}
      → Triple P m (λ a s. I s × F a) R
      → ((a : A) → F a → Triple I (f a) S R)
      → Triple P (m >>= f) S R
  Keeps-bind first rest = Triple-bind first (λ a. record { run = λ s h. (rest a h.1).run s h.0 })

-- A stronger start, and weaker ends.
module _ {A : Type 0} {P P' : State → Type 0} {Q Q' : A → State → Type 0} {R R' : State → Type 0}
    (before : (s : State) → P' s → P s) (after : (a : A) (s : State) → Q a s → Q' a s)
    (early : (s : State) → R s → R' s) where
  After-widen : (o : Outcome A × State) → After Q R o → After Q' R' o
  After-widen (next a, s) h = after a s h
  After-widen (returned d, s) h = early s h
  After-widen (failed e, s) h = early s h

  pub Triple-widen : {m : Handler A} → Triple P m Q R → Triple P' m Q' R'
  Triple-widen {m} t = record { run = λ s p. After-widen (m s) (t.run s (before s p)) }

pub Triple-exit :
    {A : Type 0} {P : State → Type 0} {Q : A → State → Type 0} {R R' : State → Type 0}
    {m : Handler A}
    → ((s : State) → R s → R' s)
    → Triple P m Q R
    → Triple P m Q R'
Triple-exit early t = Triple-widen (λ s p. p) (λ a s q. q) early t

-- The property holds throughout, and the result has the fact.
abbrev pub Keeps : {A : Type 0} → (State → Type 0) → Handler A → (A → Type 0) → Type 0
Keeps I m F = Triple I m (λ a s. I s × F a) I

module _ {A : Type 0} {I : State → Type 0} where
  -- what is computed outside the state
  pub lift-Keeps : (m : Result A) → Keeps I (lift m) (λ a. m ≡ ok a)
  lift-Keeps (ok a) = record { run = λ s p. (p, refl) }
  lift-Keeps (raised e) = record { run = λ s p. p }

  pub pure-Keeps : {F : A → Type 0} (a : A) → F a → Keeps I (pure a) F
  pure-Keeps a h = record { run = λ s p. (p, h) }

  pub return-Keeps : {F : A → Type 0} (d : Decision) → Keeps I (return {A = A} d) F
  return-Keeps d = record { run = λ s p. p }

  pub raise-Keeps : {F : A → Type 0} (e : Error) → Keeps I (raise {A = A} e) F
  raise-Keeps e = record { run = λ s p. p }

  pub Keeps-map :
      {F G : A → Type 0} {m : Handler A} → ((a : A) → F a → G a) → Keeps I m F → Keeps I m G
  Keeps-map imp = Triple-widen (λ s p. p) (λ a s h. (h.0, imp a h.1)) (λ s h. h)

  -- What holds throughout gives what is wanted at an early exit.
  pub Keeps-exit :
      {F : A → Type 0} {R : State → Type 0} {m : Handler A}
      → ((s : State) → I s → R s)
      → Keeps I m F
      → Triple I m (λ a s. I s × F a) R
  Keeps-exit = Triple-exit

pub call-Keeps :
    {I : State → Type 0} (c : Call)
    → ((s : State) → I s → I (record s { trace = c ∷ s.trace }))
    → Keeps I (record_call c) (λ _. Unit {0})
call-Keeps c h = record { run = λ s p. (h s p, tt) }

pub call-Triple :
    {P Q R : State → Type 0} (c : Call)
    → ((s : State) → P s → Q (record s { trace = c ∷ s.trace }))
    → Triple P (record_call c) (λ _. Q) R
call-Triple c h = record { run = h }

pub pure-Triple :
    {A : Type 0} {P R : State → Type 0} {Q : A → State → Type 0} (a : A)
    → ((s : State) → P s → Q a s)
    → Triple P (pure a) Q R
pure-Triple a h = record { run = h }

pub raise-Triple :
    {A : Type 0} {P R : State → Type 0} {Q : A → State → Type 0} (e : Error)
    → ((s : State) → P s → R s)
    → Triple P (raise {A = A} e) Q R
raise-Triple e h = record { run = h }

-- A property that holds at every end of a handler holds of the state that it leaves.
pub Triple-state :
    {A : Type 0} {P R : State → Type 0} {m : Handler A}
    → Triple P m (λ _. R) R
    → (s : State) → P s
    → R (m s).1
Triple-state {A} {R} {m} t s p = at_end (m s) (t.run s p)
  where
    at_end : (o : Outcome A × State) → After (λ _. R) R o → R o.1
    at_end (next a, s) h = h
    at_end (returned d, s) h = h
    at_end (failed e, s) h = h
