-- ===== src/Receipts/Append.antt =====
-- add_line of backend/app/modules/receipts/services.py.
use reorder_os.Prelude.{
  ℕ, suc, zero, String, Bool, false, not, Option, none, some, List, [], ◌∷◌, is_some, ltb,
  if◌then◌else◌,
}
use reorder_os.Prelude.Int.{ℤ}
use reorder_os.Prelude.Result.{Result, ok, ◌>>◌, raise_if}
use reorder_os.Schema.{Item}
use reorder_os.Receipts.{matched, unmatched, ReceiptLine}
use reorder_os.Inventory.Receipt.{is_line_of}
use reorder_os.Receipts.Desk.{
  Desk, DeskError, unknown_inventory_item, fresh_id, with_store, take_id, lock_editable_receipt,
  touch_review,
}
use reorder_os.Receipts.Lines.{is_active_item}

-- LineCreate
pub record LineCreate : Type 0 where
  pub extracted_name : String
  pub received_quantity : ℤ
  pub extracted_unit : String
  pub unit_cost_cents : Option ℤ
  pub inventory_item_id : Option ℕ

-- COALESCE(MAX(line_ordinal), -1) + 1
abbrev above : ℕ → Option ℕ → ℕ
above n none = n
above n (some o) = if ltb o n then n else suc o

unfoldable pub next_ordinal : (tid rid : ℕ) → List ReceiptLine → ℕ
next_ordinal tid rid [] = zero
next_ordinal tid rid (ln ∷ lns) =
    let rest = next_ordinal tid rid lns in
    if is_line_of tid rid ln then above rest ln.line_ordinal else rest

abbrev pub created_line : (id tid rid ordinal : ℕ) → LineCreate → ReceiptLine
created_line id tid rid ordinal body = record {
  id = id;
  tenant_id = tid;
  receipt_id = rid;
  inventory_item_id = body.inventory_item_id;
  received_quantity = body.received_quantity;
  purchase_unit_id = none;
  unit_cost_cents = body.unit_cost_cents;
  idempotency_key = none;
  match_status = if is_some body.inventory_item_id then matched else unmatched;
  manually_corrected = is_some body.inventory_item_id;
  extracted_name = some body.extracted_name;
  extracted_unit = some body.extracted_unit;
  confidence = none;
  extraction_job_id = none;
  job_attempt = none;
  line_ordinal = some ordinal;
  emits_movement_id = none;
}

-- `if body.inventory_item_id is not None: _assert_active_item`
abbrev is_unknown_item : (tid : ℕ) → Option ℕ → List Item → Bool
is_unknown_item tid none items = false
is_unknown_item tid (some iid) items = not (is_active_item tid iid items)

unfoldable pub insert_line : (tid rid : ℕ) → LineCreate → Desk → Desk
insert_line tid rid body d =
    with_store
      (λ s. record s {
        lines =
            created_line (fresh_id d) tid rid (next_ordinal tid rid d.store.lines) body ∷ s.lines;
      })
      (take_id d)

unfoldable pub add_line : (tid rid : ℕ) → LineCreate → Desk → Result DeskError (Desk × ℕ)
add_line tid rid body d = do
  lock_editable_receipt tid rid d
  raise_if (is_unknown_item tid body.inventory_item_id d.store.items) unknown_inventory_item
  ok (touch_review tid rid (insert_line tid rid body d), fresh_id d)
