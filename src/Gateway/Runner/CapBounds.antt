-- ===== src/Gateway/Runner/CapBounds.antt =====
-- services/gateway/src/gateway/streaming/runner.py: what the budget and each cap leave of a quantity.
use roboinvest.Prelude.{
  ◌≡◌, refl, sym, ap, ◌∙◌, subst, ℕ, ◌*◌, ◌≤◌, ◌<◌, min, max, Bool, true, false, not, ◌||◌, Option,
  none, some, Result, ok, ok_inj, >>=-Steps, arith, if◌then◌else◌, ltb, leb, Bool-cases, inl, inr,
  leb→le, ◌⊎◌, ◌>>=◌, false≢true,
}
use roboinvest.Decimal
use roboinvest.Decimal.{of_ℕ, mul, truncate, Decimal, leb as leb_Decimal, ltb as ltb_Decimal}
use roboinvest.Contracts.Risk.{RiskCheck, pass_with}
use roboinvest.Contracts.Signal.{UnifiedTradeSignal}
use roboinvest.Gateway.Config.{RiskConfig}
use roboinvest.Gateway.Lots.{floor_to_lot, calculate}
use roboinvest.Gateway.Lots.Bounds.{floor_to_lot-IsFloor, calculate-passed}
use roboinvest.Gateway.Runner.Services.{Runner, DailyLiquiditySnapshot}
use roboinvest.Gateway.Runner.Caps.{
  within_budget, quantity_of, cap_to, cap_to_setting, participation_cap, thin_cap, least,
  liquidity_quantity_cap, apply_cap, apply_missing_cap, cap_by_snapshot,
}

-- a positive number of whole lots
pub record WholeLots (lot q : ℕ) : Type 0 where
  pub enough : lot ≤ q
  pub pos : 0 < q
  pub multiple : (k : ℕ) × (q ≡ k * lot)

unless-none :
    {A : Type 0} (t : Bool) (m : Result (Option A)) {a : A}
    → (if t then ok none else m) ≡ ok (some a)
    → m ≡ ok (some a)
unless-none true m h = cc
unless-none false m h = h

unless-some :
    {A : Type 0} (t : Bool) (q a : A) (m : Result (Option A))
    → (if t then ok (some q) else m) ≡ ok (some a)
    → ((t ≡ true) × (q ≡ a)) ⊎ ((t ≡ false) × (m ≡ ok (some a)))
unless-some true q a m h = inl (refl, cc)
unless-some false q a m h = inr (refl, h)

quantity_of-some :
    (check : RiskCheck) {n : ℕ}
    → quantity_of check ≡ some n
    → (check.passed ≡ true) × (check.adjusted_quantity ≡ some n)
quantity_of-some check h = ground arith

-- what the budget leaves is what the lot calculator allows for some capital
pub within_budget-calculate :
    (config : RiskConfig) (signal : UnifiedTradeSignal) (price remaining : Decimal) (n : ℕ)
    → within_budget config signal price remaining ≡ ok (some n)
    → calculate signal price record config { capital = remaining } ≡ ok (pass_with n)
unfolding within_budget
within_budget-calculate config signal price remaining n h =
    let (check, found, quantity) =
      >>=-Steps (calculate signal price record config { capital = remaining })
        (λ check. ok (quantity_of check)) (unless-none (leb_Decimal remaining Decimal.zero) _ h) in
    let (passed, adjusted) = quantity_of-some check (ok_inj quantity) in
    found
    ∙ ap ok (
        calculate-passed signal price record config { capital = remaining } check n found passed
          adjusted)

floor-WholeLots :
    (shares lot : ℕ) {q : ℕ} → floor_to_lot shares lot ≡ ok q → lot ≤ q → 0 < lot → WholeLots lot q
floor-WholeLots shares lot h enough pos = record {
  enough = enough;
  pos = omega arith;
  multiple = (floor_to_lot-IsFloor shares lot h).multiple;
}

pub some_inj : {A : Type 0} {a b : A} → ◌≡◌ {A = Option A} (some a) (some b) → a ≡ b
some_inj h = cc

none≢some : {A : Type 0} {a : A} → ◌≡◌ {A = Option A} none (some a) → ⊥
none≢some h = cc

unless-below :
    (lot capped : ℕ) {q : ℕ}
    → (if ltb capped lot then none else some capped) ≡ some q
    → (capped ≡ q) × (lot ≤ q)
unless-below lot capped h = ground arith

cap_to-bounds :
    (lot cap q : ℕ) {q' : ℕ}
    → 0 < lot
    → WholeLots lot q
    → cap_to lot cap q ≡ ok (some q')
    → WholeLots lot q' × (q' ≤ q) × (q' ≤ cap)
unfolding cap_to
cap_to-bounds lot cap q {q'} pos w h = elim (unless-some (leb q cap) q q' _ h) [
  | inl (within, same) ↦
      (subst (WholeLots lot) same w, omega (arith, same), omega (arith, same, leb→le q cap within))
  | inr (over, more) ↦
      let (capped, floored, kept) =
        >>=-Steps (floor_to_lot cap lot)
          (λ capped. ok (if ltb capped lot then none else some capped)) more in
      let (same, enough) = unless-below lot capped (ok_inj kept) in
      let fits = (floor_to_lot-IsFloor cap lot floored).fits in
      (
        floor-WholeLots cap lot (floored ∙ ap ok same) enough pos,
        ground arith,
        omega (arith, fits, same),
      )
]

pub cap_to_setting-bounds :
    (lot : ℕ) (setting : Option ℕ) (q : ℕ) {q' : ℕ}
    → 0 < lot
    → WholeLots lot q
    → cap_to_setting lot setting q ≡ ok (some q')
    → WholeLots lot q' × (q' ≤ q) × ((cap : ℕ) → setting ≡ some cap → q' ≤ cap)
cap_to_setting-bounds lot none q pos w h =
    let same = some_inj (ok_inj h) in
    (subst (WholeLots lot) same w, omega (arith, same), λ cap e. absurd (cc))
cap_to_setting-bounds lot (some cap) q {q'} pos w h =
    let (whole, below, within) = cap_to-bounds lot cap q pos w h in
    (whole, below, λ c e. subst (λ x. q' ≤ x) (some_inj e) within)

abbrev Multiple : ℕ → ℕ → Type 0
Multiple lot c = (k : ℕ) × (c ≡ k * lot)

-- the cap by volume and the thin cap are whole lots
participation_cap-Multiple :
    (r : Runner) (sn : DailyLiquiditySnapshot) {cap : ℕ}
    → participation_cap r sn ≡ ok (some cap)
    → Multiple r.risk_config.min_lot_size cap
unfolding participation_cap
participation_cap-Multiple r sn h =
    let (cap, floored, kept) =
      >>=-Steps
        (floor_to_lot
          (truncate (mul (of_ℕ sn.volume) r.settings.liquidity_max_daily_volume_participation_pct))
          r.risk_config.min_lot_size)
        (λ cap. ok (some (max cap r.risk_config.min_lot_size))) (unless-none _ _ h) in
    let (k, e) = (floor_to_lot-IsFloor _ r.risk_config.min_lot_size floored).multiple in
    subst (Multiple r.risk_config.min_lot_size) (some_inj (ok_inj kept))
      (max-Multiple cap r.risk_config.min_lot_size k e)
  where
    max-Multiple : (a lot k : ℕ) → a ≡ k * lot → Multiple lot (max a lot)
    max-Multiple a lot k e = elim (Bool-cases (leb a lot)) [
      | inl below ↦ (1, ground arith)
      | inr above ↦ (k, ground arith)
    ]

abbrev pub is_thin : Runner → DailyLiquiditySnapshot → Bool
is_thin r sn =
    ltb sn.volume r.settings.liquidity_thin_daily_volume
    || ltb_Decimal sn.turnover r.settings.liquidity_thin_daily_turnover_jpy

-- the branches of the thin cap
thin_if-bounds :
    (limit lot : ℕ) (t : Bool) {thin : Option ℕ}
    → (if not t then ok none else floor_to_lot limit lot >>= λ cap. ok (some cap)) ≡ ok thin
    → ((cap : ℕ) → thin ≡ some cap → Multiple lot cap)
      × (t ≡ true → (cap : ℕ) × (thin ≡ some cap) × (cap ≤ limit))
thin_if-bounds limit lot false h =
    ((λ cap e. absurd (none≢some (ok_inj h ∙ e))), (λ e. absurd (false≢true e)))
thin_if-bounds limit lot true {thin} h =
    let (cap, floored, kept) = >>=-Steps (floor_to_lot limit lot) (λ cap. ok (some cap)) h in
    let f = floor_to_lot-IsFloor limit lot floored in
    (
      (λ c e. subst (Multiple lot) (some_inj (ok_inj kept ∙ e)) f.multiple),
      (λ _. (cap, sym (ok_inj kept), f.fits)),
    )

thin_cap-bounds :
    (r : Runner) (sn : DailyLiquiditySnapshot) {thin : Option ℕ}
    → thin_cap r sn ≡ ok thin
    → ((cap : ℕ) → thin ≡ some cap → Multiple r.risk_config.min_lot_size cap)
      × (is_thin r sn ≡ true
          → (cap : ℕ) × (thin ≡ some cap) × (cap ≤ r.settings.liquidity_thin_max_qty_per_order))
unfolding thin_cap
thin_cap-bounds r sn h =
    thin_if-bounds r.settings.liquidity_thin_max_qty_per_order r.risk_config.min_lot_size
      (is_thin r sn) h

least-Multiple :
    (lot : ℕ) (a b : Option ℕ) {c : ℕ}
    → ((x : ℕ) → a ≡ some x → Multiple lot x)
    → ((x : ℕ) → b ≡ some x → Multiple lot x)
    → least a b ≡ some c
    → Multiple lot c
least-Multiple lot none b h k e = k _ e
least-Multiple lot (some a) none h k e = h _ e
least-Multiple lot (some a) (some b) h k e =
    let (x, ax) = h a refl in
    let (y, by) = k b refl in subst (Multiple lot) (some_inj e) (min-Multiple x y ax by)
  where
    min-Multiple : (x y : ℕ) → a ≡ x * lot → b ≡ y * lot → Multiple lot (min a b)
    min-Multiple x y ax by = elim (Bool-cases (leb a b)) [
      | inl below ↦ (x, ground arith)
      | inr above ↦ (y, ground arith)
    ]

least-le : (a : Option ℕ) (b : ℕ) → (c : ℕ) × (least a (some b) ≡ some c) × (c ≤ b)
least-le none b = (b, refl, ground arith)
least-le (some a) b = (min a b, refl, ground arith)

-- the cap by the day's liquidity is whole lots, and that of a thin symbol within its limit
liquidity_quantity_cap-bounds :
    (r : Runner) (sn : DailyLiquiditySnapshot) {cap : Option ℕ}
    → liquidity_quantity_cap r sn ≡ ok cap
    → ((c : ℕ) → cap ≡ some c → Multiple r.risk_config.min_lot_size c)
      × (is_thin r sn ≡ true
          → (c : ℕ) × (cap ≡ some c) × (c ≤ r.settings.liquidity_thin_max_qty_per_order))
unfolding liquidity_quantity_cap
liquidity_quantity_cap-bounds r sn {cap} h =
    let (by_volume, found, h1) =
      >>=-Steps (participation_cap r sn)
        (λ by_volume. thin_cap r sn >>= λ thin. ok (least by_volume thin)) h in
    let (thin, found', h2) = >>=-Steps (thin_cap r sn) (λ thin. ok (least by_volume thin)) h1 in
    let (multiple, limited) = thin_cap-bounds r sn found' in
    (
      (λ c e.
          least-Multiple r.risk_config.min_lot_size by_volume thin
            (λ x ex. participation_cap-Multiple r sn (found ∙ ap ok ex)) multiple (ok_inj h2 ∙ e)),
      (λ t.
          let (c, e, le) = limited t in
          let (c', e', le') = least-le by_volume c in
          (c', sym (ok_inj h2) ∙ (ap (least by_volume) e ∙ e'), omega (arith, le, le'))),
    )

apply_cap-bounds :
    (lot q : ℕ) (cap : Option ℕ) {q' : ℕ}
    → 0 < lot
    → WholeLots lot q
    → ((c : ℕ) → cap ≡ some c → Multiple lot c)
    → apply_cap lot q cap ≡ some q'
    → WholeLots lot q' × (q' ≤ q) × ((c : ℕ) → cap ≡ some c → q' ≤ c)
apply_cap-bounds lot q none pos w m h =
    (subst (WholeLots lot) (some_inj h) w, omega (arith, some_inj h), λ c e. absurd (none≢some e))
apply_cap-bounds lot q (some cap) {q'} pos w m h = elim (Bool-cases (leb q cap)) [
  | inl within ↦
      let same : q ≡ q' = ground arith in
      (
        subst (WholeLots lot) same w,
        omega (arith, same),
        λ c e. omega (arith, same, some_inj e, leb→le q cap within),
      )
  | inr over ↦
      let same : cap ≡ q' = ground arith in
      let enough : lot ≤ cap = ground arith in
      (
        subst (WholeLots lot) same
            record { enough = enough; pos = omega arith; multiple = m cap refl },
        ground arith,
        λ c e. omega (arith, same, some_inj e),
      )
]

apply_missing_cap-bounds :
    (lot q cap : ℕ) {q' : ℕ}
    → 0 < lot
    → WholeLots lot q
    → Multiple lot cap
    → apply_missing_cap lot q cap ≡ some q'
    → WholeLots lot q' × (q' ≤ q) × (q' ≤ cap)
apply_missing_cap-bounds lot q cap {q'} pos w m h = elim (Bool-cases (ltb cap q)) [
  | inl over ↦
      let same : cap ≡ q' = ground arith in
      let enough : lot ≤ cap = ground arith in
      (
        subst (WholeLots lot) same record { enough = enough; pos = omega arith; multiple = m },
        ground arith,
        omega (arith, same),
      )
  | inr within ↦
      let same : q ≡ q' = ground arith in
      (subst (WholeLots lot) same w, omega (arith, same), ground arith)
]

-- What the liquidity allows: without a daily row the setting for that case, and for a thinly traded
-- symbol the thin setting.
abbrev pub WithinLiquidity : Runner → Option DailyLiquiditySnapshot → ℕ → Type 0
WithinLiquidity r none q = q ≤ r.settings.liquidity_missing_daily_max_qty_per_order
WithinLiquidity r (some sn) q =
    is_thin r sn ≡ true → q ≤ r.settings.liquidity_thin_max_qty_per_order

pub cap_by_snapshot-bounds :
    (r : Runner) (q : ℕ) (found : Option DailyLiquiditySnapshot) {q' : ℕ}
    → 0 < r.risk_config.min_lot_size
    → WholeLots r.risk_config.min_lot_size q
    → cap_by_snapshot r q found ≡ ok (some q')
    → WholeLots r.risk_config.min_lot_size q' × (q' ≤ q) × WithinLiquidity r found q'
unfolding cap_by_snapshot
cap_by_snapshot-bounds r q none pos w h =
    let lot = r.risk_config.min_lot_size in
    let (cap, floored, kept) =
      >>=-Steps (floor_to_lot r.settings.liquidity_missing_daily_max_qty_per_order lot)
        (λ cap. ok (apply_missing_cap lot q cap)) h in
    let f = floor_to_lot-IsFloor _ lot floored in
    let (whole, below, within) =
      apply_missing_cap-bounds lot q cap pos w f.multiple (ok_inj kept) in
    (whole, below, omega (arith, within, f.fits))
cap_by_snapshot-bounds r q (some sn) pos w h =
    let lot = r.risk_config.min_lot_size in
    let (cap, found, kept) =
      >>=-Steps (liquidity_quantity_cap r sn) (λ cap. ok (apply_cap lot q cap)) h in
    let (multiple, limited) = liquidity_quantity_cap-bounds r sn found in
    let (whole, below, within) = apply_cap-bounds lot q cap pos w multiple (ok_inj kept) in
    (whole, below, λ t. let (c, e, le) = limited t in omega (arith, within c e, le))
