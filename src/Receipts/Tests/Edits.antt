-- ===== src/Receipts/Tests/Edits.antt =====
-- Runs of an operator's edits and adjustments.
use reorder_os.Prelude.{◌≡◌, refl, true, none, some, [], ◌∷◌}
use reorder_os.Prelude.Int.{pos, negsuc}
use reorder_os.Prelude.Decimal.{exact}
use reorder_os.Prelude.Result.{ok, err, AllOk}
use reorder_os.Schema.{count_anchored, recipe_deducted}
use reorder_os.Depletion.Units.{dimension_of, member}
use reorder_os.Inventory.OnHand.{quantity_of}
use reorder_os.Inventory.Resolver.{
  Texts, resolve_inventory_item, resolve_known, ensure_unit, ensure_item, unit_of,
}
use reorder_os.Inventory.Resolver.Names.{resolve_inventory_item_again}
use reorder_os.Receipts.{Receipt, Store, committed}
use reorder_os.Receipts.Desk.{Desk, return}
use reorder_os.Receipts.Lines.{LineUpdate, is_coherent, update_line}
use reorder_os.Receipts.Lines.Edited.{Edited, update_line-Edited}
use reorder_os.Receipts.{matched}
use reorder_os.Receipts.Desk.{lock_editable_receipt, multiple_assignments}
use reorder_os.Receipts.Lines.{is_active_item, item_sets, link_sets}
use reorder_os.Receipts.Lines.Conflicts.{update_line_raises}
use reorder_os.Receipts.Adjust.{AdjustRequest, create_adjustment}
use reorder_os.Receipts.Adjust.Stock.{
  Compensated, create_adjustment-Compensated, create_adjustment_unseen,
}
use reorder_os.Receipts.Tests.{paper, line, store, desk}

abbrev texts : Texts
texts = record { btrim = λ s. s; lower = λ s. s }

abbrev no_update : LineUpdate
no_update = record {
  inventory_item_id = none;
  new_item = none;
  received_quantity = none;
  extracted_unit = none;
  unit_cost_cents = none;
  extracted_name = none;
  skipped = none;
}

-- The item is cleared.
update_line-Edited_example :
    AllOk
      (λ d'. (true ≡ true) × Edited texts 1 40 41 desk paper line d')
      (update_line texts 1 40 41 (record no_update { inventory_item_id = some none }) desk)
update_line-Edited_example =
    update_line-Edited texts 1 40 41 (record no_update { inventory_item_id = some none }) desk paper
      line refl refl

-- The line is linked to its item, and its quantity edited.
abbrev both : LineUpdate
both = record no_update { inventory_item_id = some (some 7); received_quantity = some (pos 20000) }

both-is_coherent : is_coherent both ≡ true
unfolding is_coherent
both-is_coherent = refl

both-item_sets :
    item_sets texts 1 both.inventory_item_id both.new_item desk ≡ ok (desk, link_sets matched 7)
unfolding is_active_item
both-item_sets = refl

desk-editable : lock_editable_receipt 1 40 desk ≡ ok tt
unfolding lock_editable_receipt
desk-editable = refl

update_line_raises_example : update_line texts 1 40 41 both desk ≡ err multiple_assignments
update_line_raises_example =
    update_line_raises texts 1 40 41 both desk desk line (link_sets matched 7) both-is_coherent refl
      refl desk-editable refl both-item_sets

-- Two bags are returned.
abbrev returned : AdjustRequest
returned = record {
  kind = return;
  inventory_item_id = 7;
  delta_quantity = negsuc 19999;
  delta_unit = "g";
  reason = none;
  receipt_line_id = some 41;
  delta_cost_cents = none;
  created_by = 2;
}

abbrev closed_paper : Receipt
closed_paper = record paper { commit_state = committed }

abbrev closed : Desk
closed = record desk { store = record store { receipts = closed_paper ∷ [] } }

create_adjustment-Compensated_example :
    (d' : Desk) × (create_adjustment 1 40 returned closed ≡ ok d')
    × Compensated 1 40 returned closed d'
create_adjustment-Compensated_example =
    create_adjustment-Compensated 1 40 returned closed closed_paper refl refl refl refl

create_adjustment_unseen_example :
    AllOk
      (λ d'.
        quantity_of 1 7 (some 500) count_anchored none (some (pos 100)) [] d'.store.ledger.movements
        ≡ quantity_of 1 7
            (some 500)
            count_anchored
            none
            (some (pos 100))
            []
            closed.store.ledger.movements)
      (create_adjustment 1 40 returned closed)
create_adjustment_unseen_example =
    create_adjustment_unseen 1 40 returned 7 none (some 500) (some (pos 100)) [] closed refl

abbrev sugared : Store
sugared = record store {
  ledger = record { now = 1000; next_id = 51; movements = [] };
  items =
      record {
        id = 50;
        tenant_id = 1;
        name = "Sugar";
        active = true;
        inventory_mode = recipe_deducted;
        storage_unit_id = 3;
        last_count_at = none;
        last_count_quantity = none;
      }
      ∷ store.items;
}

resolve_inventory_item-run : resolve_inventory_item texts 1 "Sugar" "g" store ≡ ok (sugared, 50)
unfolding resolve_inventory_item dimension_of member resolve_known ensure_unit ensure_item unit_of
resolve_inventory_item-run = refl

resolve_inventory_item_again_example :
    resolve_inventory_item texts 1 "Sugar" "g" sugared ≡ ok (sugared, 50)
resolve_inventory_item_again_example =
    resolve_inventory_item_again texts 1 "Sugar" "g" store sugared 50 resolve_inventory_item-run
