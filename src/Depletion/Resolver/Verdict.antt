-- ===== src/Depletion/Resolver/Verdict.antt =====
-- The verdict of depletion/resolver.py.
use reorder_os.Prelude.{◌≡◌, ◌↔◌, Bool, true, false, none, some, arith}
use reorder_os.Schema.{PaymentState, OrderState, locked, line_refunded}
use reorder_os.Depletion.Resolver.{resolve_eligibility, is_eligible_payment}

module _ (p : PaymentState) (o : OrderState) (voided refunded enabled : Bool) where
  -- A line is eligible exactly when its order's payment state depletes (PAID, or PARTIALLY_REFUNDED
  -- with partial refunds enabled), the order is locked, and the line is neither voided nor
  -- refunded; and it is eligible exactly when there is no reason.
  resolve_eligibility_iff :
      let v = resolve_eligibility p o voided refunded enabled in
      ((v.eligible ≡ true) ↔ (
        (is_eligible_payment p enabled ≡ true)
        × (o ≡ locked)
        × (voided ≡ false)
        × (refunded ≡ false)))
      × ((v.eligible ≡ true) ↔ (v.reason ≡ none))
  unfolding resolve_eligibility
  resolve_eligibility_iff =
      ((λ h. ground arith, λ h. ground arith), (λ h. ground arith, λ h. ground arith))

  -- The reason line_refunded is given exactly for a refunded line that is not voided in a locked
  -- order with a depleting payment state: the checks of the order come first.
  pub line_refunded_iff :
      (resolve_eligibility p o voided refunded enabled).reason ≡ some line_refunded ↔ (
        (is_eligible_payment p enabled ≡ true)
        × (o ≡ locked)
        × (voided ≡ false)
        × (refunded ≡ true))
  unfolding resolve_eligibility
  line_refunded_iff = (λ h. ground arith, λ h. ground arith)
