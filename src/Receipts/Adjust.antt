-- ===== src/Receipts/Adjust.antt =====
-- create_adjustment of backend/app/modules/receipts/services.py.
pub mod Stock
use reorder_os.Prelude.{
  ℕ, suc, ◌==◌, ◌&&◌, Bool, true, any, String, Option, none, some, [], ◌∷◌, if◌then◌else◌,
}
use reorder_os.Prelude.Int.{ℤ}
use reorder_os.Prelude.Result.{Result, ok, err}
use reorder_os.Schema.{
  Movement, MovementType, adjustment, count_adjust, waste, receipt_adjustment, word, uuid,
}
use reorder_os.Inventory.Receipt.{is_committed}
use reorder_os.Receipts.Desk.{
  Desk, DeskError, receipt_not_found, receipt_not_committed, foreign_key_violation, now_of,
  fresh_id, with_store, find_receipt, AdjustmentType, correction, count_fix, return, damage,
}

-- _MOVEMENT_TYPE_FOR_ADJUSTMENT
abbrev pub movement_type_of : AdjustmentType → MovementType
movement_type_of correction = adjustment
movement_type_of count_fix = count_adjust
movement_type_of return = waste
movement_type_of damage = waste

-- AdjustRequest, with what the route adds.
pub record AdjustRequest : Type 0 where
  pub kind : AdjustmentType
  pub inventory_item_id : ℕ
  pub delta_quantity : ℤ
  pub delta_unit : String
  pub reason : Option String
  pub receipt_line_id : Option ℕ
  pub delta_cost_cents : Option ℤ
  pub created_by : ℕ

-- The two INSERTs of create_adjustment.
unfoldable pub insert_adjustment : (tid rid : ℕ) → AdjustRequest → Desk → Desk
insert_adjustment tid rid a d =
    let aid = fresh_id d in
    let mid = suc aid in
    let row : Movement = record {
      id = mid;
      tenant_id = tid;
      inventory_item_id = a.inventory_item_id;
      movement_type = movement_type_of a.kind;
      delta = a.delta_quantity;
      source_type = receipt_adjustment;
      source_id = some aid;
      idempotency_key = word "receipt_adjustment" ∷ uuid aid ∷ [];
      yield_factor_applied = none;
      recorded_at = now_of d;
      created_at = now_of d;
    } in
    record (with_store
      (λ s. record s {
        ledger = record s.ledger { next_id = suc mid; movements = row ∷ s.ledger.movements };
      })
      d) {
        adjustments =
            record {
              id = aid;
              tenant_id = tid;
              receipt_id = rid;
              receipt_line_id = a.receipt_line_id;
              inventory_item_id = a.inventory_item_id;
              adjustment_type = a.kind;
              delta_quantity = a.delta_quantity;
              delta_unit = a.delta_unit;
              reason = a.reason;
              delta_cost_cents = a.delta_cost_cents;
              compensating_movement_id = mid;
              created_by = a.created_by;
            }
            ∷ d.adjustments;
      }

-- inventory_item_id REFERENCES inventory_items(id), of both tables
abbrev pub is_known_item : ℕ → Desk → Bool
is_known_item iid d = any (λ i. i.id == iid) d.store.items

-- receipt_line_id REFERENCES receipt_lines(id), where it is not NULL
abbrev pub is_known_line : Option ℕ → Desk → Bool
is_known_line none d = true
is_known_line (some lid) d = any (λ l. l.id == lid) d.store.lines

-- The user of the request is taken to be a row of users.
unfoldable pub create_adjustment : (tid rid : ℕ) → AdjustRequest → Desk → Result DeskError Desk
create_adjustment tid rid a d = elim (find_receipt tid rid d) [
  | none ↦ err receipt_not_found
  | some r ↦
      if is_committed r.commit_state
      then if is_known_item a.inventory_item_id d && is_known_line a.receipt_line_id d
        then ok (insert_adjustment tid rid a d)
        else err foreign_key_violation
      else err receipt_not_committed
]
