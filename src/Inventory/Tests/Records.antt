-- ===== src/Inventory/Tests/Records.antt =====
-- Runs of record_opening_balance and record_count_event (inventory/services.py).
use reorder_os.Prelude.{◌≡◌, refl, false, none, some, [], ◌∷◌}
use reorder_os.Prelude.Int.{pos, negsuc, ◌+ℤ◌, ◌-ℤ◌, ◌*ℤ◌}
use reorder_os.Prelude.Result.{ok}
use reorder_os.Prelude.Decimal.{exact}
use reorder_os.Schema.{count_adjust, count_event, CountEvent, word, uuid, Movement}
use reorder_os.Depletion.Writer.{insert_or_nothing}
use reorder_os.Inventory.OnHand.{quantity_of, sum_where, ledger_sum, on_hand}
use reorder_os.Inventory.Count.{
  count_key, CountResult, emit_count_adjust, correct, alert_drift, count_item, record_count_event,
}
use reorder_os.Inventory.Count.Anchors.{corrected, record_count_event-on_hand}
use reorder_os.Monitoring.{critical, drift, upsert_alert}
use reorder_os.Inventory.Stock.{Stock, insert_movement}
use reorder_os.Inventory.Tests.{item, stock}

-- A count of item 7 at 3.0, where the ledger says 0.
abbrev count_row : CountEvent
count_row = record {
  id = 5;
  tenant_id = 1;
  inventory_item_id = 7;
  counted_quantity = pos 30000;
  predicted_on_hand_at_count = some (pos 0);
  counted_at = 1000;
  idempotency_key = count_key 7 1000 "3.0";
  reconciliation_cutoff_created_at = some 1000;
}

abbrev adjust_row : Movement
adjust_row = record {
  id = 6;
  tenant_id = 1;
  inventory_item_id = 7;
  movement_type = count_adjust;
  delta = pos 30000;
  source_type = count_event;
  source_id = some 5;
  idempotency_key = word "count_adjust" ∷ uuid 5 ∷ [];
  yield_factor_applied = none;
  recorded_at = 1000;
  created_at = 1000;
}

abbrev counted_stock : Stock
counted_stock = record stock {
  ledger = record { now = 1000; next_id = 7; movements = adjust_row ∷ [] };
  counts = count_row ∷ [];
  alerts =
      record {
        tenant_id = 1;
        monitor_name = "integrity_drift_high";
        severity = critical;
        payload = drift 7 (pos 30000) (pos 0) (negsuc 29999) (negsuc 9999);
        alert_count = 1;
        last_seen_at = 1000;
        resolved = false;
      }
      ∷ [];
}

abbrev count_result : CountResult
count_result = record { id = 5; predicted = some (pos 0); counted = pos 30000 }

record_count_event-run :
    record_count_event 1 7 (pos 30000) "3.0" none stock ≡ ok (counted_stock, count_result)
unfolding record_count_event count_item correct emit_count_adjust insert_movement insert_or_nothing
    alert_drift upsert_alert on_hand quantity_of ledger_sum sum_where ◌-ℤ◌ ◌*ℤ◌ ◌+ℤ◌
record_count_event-run = refl

record_count_event-on_hand_example :
    on_hand 1 7 none counted_stock.items counted_stock.yield_factors counted_stock.ledger.movements
    ≡ some (corrected 1 7 (pos 30000) (ledger_sum 1 7 stock.ledger.movements))
record_count_event-on_hand_example =
    record_count_event-on_hand 1 7 (pos 30000) "3.0" none stock counted_stock count_result
      record_count_event-run item none refl refl refl refl
