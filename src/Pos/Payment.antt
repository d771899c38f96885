-- ===== src/Pos/Payment.antt =====
-- The orders of backend/app/modules/pos/worker.py: the payment state derived from an order of
-- Clover, and the upsert of the order. An order is given by what `get` finds under the keys that
-- the code reads; amounts are whole cents.
pub mod Merge
use reorder_os.Prelude.{
  ℕ, ◌+◌, String, Bool, true, false, ◌&&◌, ◌||◌, not, Option, none, some, List, [], ◌∷◌, any,
  update_where, find_first, ltb, str_eq, ◌==◌, ◌*◌, is_some, if◌then◌else◌,
}
use reorder_os.Prelude.Int.{ℤ, pos, ◌-ℤ◌, ltb_ℤ, leb_ℤ}
use reorder_os.Schema.{
  PaymentState, open_, paid, refunded, credited, partially_refunded, OrderState, opened, locked,
}

-- An element of a line item's `modifications`, if it is a dict: modifier.id and quantity.
pub record Modification : Type 0 where
  pub modifier_id : Option String
  pub quantity : Option ℤ

-- An element of the order's `lineItems`, if it is a dict (the code skips the others). A quantity is
-- a count of the smallest unit.
pub record LineItem : Type 0 where
  pub line_item_id : Option String
  pub name : Option String
  pub unit_qty : Option ℤ
  pub price : Option ℤ
  pub discount_amount : Option ℤ
  pub refunded : Bool
  pub exchanged : Bool
  pub item_id : Option String
  pub modifications : List Modification

pub record OrderData : Type 0 where
  pub clover_order_id : String
  pub payment_state : Option String
  pub total : Option ℤ
  pub tax_amount : Option ℤ
  pub discount_amount : Option ℤ
  pub refund_total : Option ℤ
  -- the `result` of each payment that is a dict
  pub payments : List (Option String)
  pub pay_type : Option String
  -- `state` in lower case
  pub state : Option String
  pub created_ms : Option ℕ
  pub modified_ms : Option ℕ
  pub line_items : List LineItem

-- _safe_int on a number or None
abbrev pub safe_int : Option ℤ → ℤ
safe_int none = pos 0
safe_int (some n) = n

-- `ps in _PAYMENT_STATE_PRIORITY`, and the state that it names
unfoldable pub parse_state : String → Option PaymentState
parse_state s =
    if str_eq s "REFUNDED"
    then some refunded
    else if str_eq s "PARTIALLY_REFUNDED"
    then some partially_refunded
    else if str_eq s "CREDITED"
    then some credited
    else if str_eq s "PAID"
    then some paid
    else if str_eq s "OPEN"
    then some open_
    else none

abbrev explicit_state : Option String → Option PaymentState
explicit_state none = none
explicit_state (some s) = parse_state s

abbrev is_result : String → String → Option String → Bool
is_result a b none = false
is_result a b (some r) = str_eq r a || str_eq r b

abbrev pub is_truthy : Option String → Bool
is_truthy none = false
is_truthy (some s) = not (str_eq s "")

-- Steps 3 to 5: the payments, payType, the default.
unfoldable pub state_of_payments : List (Option String) → Option String → PaymentState
state_of_payments payments pay_type =
    let has_paid = any (is_result "SUCCESS" "AUTH") payments in
    let has_refund = any (is_result "REFUNDED" "REFUND") payments in
    if has_paid && has_refund
    then partially_refunded
    else if has_refund
    then refunded
    else if has_paid
    then paid
    else if is_truthy pay_type
    then paid
    else open_

unfoldable pub derive_payment_state : OrderData → PaymentState
derive_payment_state o =
    let total = safe_int o.total in
    let refund_total = safe_int o.refund_total in
    elim (explicit_state o.payment_state) [
      | some ps ↦ ps
      | none ↦
          if ltb_ℤ (pos 0) refund_total && ltb_ℤ (pos 0) total
          then (if leb_ℤ total refund_total then refunded else partially_refunded)
          else state_of_payments o.payments o.pay_type
    ]

-- _PAYMENT_STATE_PRIORITY, and the CASE of the upsert
abbrev pub priority : PaymentState → ℕ
priority refunded = 5
priority partially_refunded = 4
priority credited = 3
priority paid = 2
priority open_ = 1

-- payment_state under ON CONFLICT
unfoldable pub merge : PaymentState → PaymentState → PaymentState
merge stored excluded = if ltb (priority excluded) (priority stored) then stored else excluded

-- The columns of a row of orders that the upsert writes, but for three references of the vendor
-- (external reference, device, employee) that it stores and does not update.
pub record OrderRecord : Type 0 where
  pub id : ℕ
  pub tenant_id : ℕ
  pub pos_event_inbox_id : ℕ
  pub clover_order_id : String
  pub subtotal_cents : ℤ
  pub discount_amount_cents : ℤ
  pub tax_amount_cents : ℤ
  pub total_amount_cents : ℤ
  pub state : OrderState
  pub payment_state : PaymentState
  pub payment_state_previous : Option PaymentState
  pub opened_at : Option ℕ
  pub closed_at : Option ℕ
  pub processed_at : ℕ

-- `state` is 'open' but for 'locked'.
abbrev state_of : Option String → OrderState
state_of none = opened
state_of (some s) = if str_eq s "locked" then locked else opened

-- _from_ms: an instant is in microseconds; 0 is no instant.
abbrev pub from_ms : Option ℕ → Option ℕ
from_ms none = none
from_ms (some ms) = if ms == 0 then none else some (ms * 1000)

abbrev closed_at_of : OrderState → Option ℕ → Option ℕ
closed_at_of locked modified = from_ms modified
closed_at_of opened modified = none

-- The row of VALUES (EXCLUDED under ON CONFLICT).
unfoldable pub values_of : (id tid inbox_id now : ℕ) → OrderData → OrderRecord
values_of id tid inbox_id now o =
    let total = safe_int o.total in
    let tax = safe_int o.tax_amount in
    let discount = safe_int o.discount_amount in
    let state = state_of o.state in
    record {
      id = id;
      tenant_id = tid;
      pos_event_inbox_id = inbox_id;
      clover_order_id = o.clover_order_id;
      subtotal_cents = total -ℤ tax -ℤ discount;
      discount_amount_cents = discount;
      tax_amount_cents = tax;
      total_amount_cents = total;
      state = state;
      payment_state = derive_payment_state o;
      payment_state_previous = none;
      opened_at = from_ms o.created_ms;
      closed_at = closed_at_of state o.modified_ms;
      processed_at = now;
    }

-- uq_orders_clover
abbrev pub is_order : (tid : ℕ) → String → OrderRecord → Bool
is_order tid clover_id r = r.tenant_id == tid && str_eq r.clover_order_id clover_id

-- DO UPDATE SET
unfoldable pub on_conflict : OrderRecord → OrderRecord → OrderRecord
on_conflict excluded r = record r {
  payment_state_previous = some r.payment_state;
  payment_state = merge r.payment_state excluded.payment_state;
  total_amount_cents = excluded.total_amount_cents;
  discount_amount_cents = excluded.discount_amount_cents;
  tax_amount_cents = excluded.tax_amount_cents;
  closed_at = excluded.closed_at;
  state = excluded.state;
  processed_at = excluded.processed_at;
}

-- The rows, and the id that RETURNING gives. `new_id` is uuid7().
unfoldable pub upsert_order :
    (new_id tid inbox_id now : ℕ) → OrderData → List OrderRecord → List OrderRecord × ℕ
upsert_order new_id tid inbox_id now o rows =
    let excluded = values_of new_id tid inbox_id now o in
    elim (find_first (is_order tid o.clover_order_id) rows) [
      | none ↦ (excluded ∷ rows, new_id)
      | some r ↦ (update_where (is_order tid o.clover_order_id) (on_conflict excluded) rows, r.id)
    ]
