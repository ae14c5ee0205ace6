-- ===== src/Contracts/Order/Validation.antt =====
-- contracts/python/trade_contracts/order.py: what validation returns.
use roboinvest.Prelude.{◌≡◌, Bool, true, false, ok, raised, value_error, if◌then◌else◌, subst}
use roboinvest.Contracts.Order.{OrderRequest, order_ok, validate_order}

ok_if-eq :
    {A : Type 0} (b : Bool) (f : A) {o : A}
    → (if b then ok f else raised value_error) ≡ ok o
    → f ≡ o
ok_if-eq true f h = cc
ok_if-eq false f h = cc

pub validate_order-eq : (f : OrderRequest) {o : OrderRequest} → validate_order f ≡ ok o → f ≡ o
unfolding validate_order
validate_order-eq f h = ok_if-eq (order_ok f) f h

-- an order that validation has returned is valid
pub validate_order-validate_order :
    (f : OrderRequest) {o : OrderRequest} → validate_order f ≡ ok o → validate_order o ≡ ok o
validate_order-validate_order f {o} h =
    subst (λ x. validate_order x ≡ ok o) (validate_order-eq f h) h
