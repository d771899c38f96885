-- ===== src/Depletion/Resolver.antt =====
-- backend/app/modules/inventory/depletion/resolver.py
pub mod Verdict
use reorder_os.Prelude.{Bool, true, false, not, Option, none, some, if◌then◌else◌}
use reorder_os.Schema.{
  PaymentState, paid, partially_refunded, OrderState, locked, opened, Reason, sale_ineligible,
  line_refunded,
}

pub record EligibilityResult : Type 0 where
  pub eligible : Bool
  pub reason : Option Reason

-- `payment_state in eligible_payments`
abbrev pub is_eligible_payment : PaymentState → Bool → Bool
is_eligible_payment paid enabled = true
is_eligible_payment partially_refunded enabled = enabled
is_eligible_payment _ enabled = false

abbrev pub is_locked : OrderState → Bool
is_locked locked = true
is_locked opened = false

abbrev ineligible : Reason → EligibilityResult
ineligible r = record { eligible = false; reason = some r }

unfoldable pub resolve_eligibility :
    PaymentState
    → OrderState
    → (is_voided is_refunded partial_refunds_enabled : Bool) → EligibilityResult
resolve_eligibility payment order voided refunded enabled =
    if not (is_eligible_payment payment enabled)
    then ineligible sale_ineligible
    else if not (is_locked order)
    then ineligible sale_ineligible
    else if voided
    then ineligible sale_ineligible
    else if refunded
    then ineligible line_refunded
    else record { eligible = true; reason = none }
