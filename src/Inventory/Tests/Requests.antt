-- ===== src/Inventory/Tests/Requests.antt =====
-- Runs of commit_receipt (inventory/services.py) and of the keys of requests (inventory/idempotency.py).
use reorder_os.Prelude.{◌≡◌, refl, true, false, none, some, List, [], ◌∷◌}
use reorder_os.Prelude.Int.{pos, ◌*ℤ◌}
use reorder_os.Prelude.Result.{ok, err}
use reorder_os.Prelude.Decimal.{exact}
use reorder_os.Schema.{receive, receipt_line, word, uuid, Movement}
use reorder_os.Depletion.Units.{weight, is_canonical, dimension_of, member}
use reorder_os.Depletion.Conversions.{is_candidate, better, lookup, convert}
use reorder_os.Depletion.Writer.{insert_or_nothing}
use reorder_os.Receipts.{
  Receipt, ReceiptLine, Store, ExtractionStatus, draft, committed, mobile_photo, matched, skipped,
}
use reorder_os.Inventory.Receipt.{
  review_required, already_committed, newly_committed, check_gate, idempotent_movement_insert,
  storage_quantity, commit_line, commit_lines, mark_receipt_committed, commit_open, commit_receipt,
}
use reorder_os.Inventory.Receipt.Commit.{commit_receipt_once}
use reorder_os.Inventory.Idempotency.{
  KeyRow, proceed, cached, request_in_flight, check_and_lock, store_response,
}
use reorder_os.Inventory.Idempotency.Requests.{check_and_lock_in_flight, check_and_lock_cached}
use reorder_os.Inventory.Tests.{item}

-- A photographed receipt with one matched line of half a kilogram, and one skipped line.
abbrev paper : Receipt
paper = record {
  id = 40;
  tenant_id = 1;
  commit_state = draft;
  source = mobile_photo;
  committed_at = none;
  confirmed_at = none;
  reviewed_affirmation = false;
  review_started_at = none;
  photo_object_key = some "receipts/1/40";
  mime_type = some "image/jpeg";
  extraction_status = ExtractionStatus.complete;
  extraction_confidence = some 900;
  manual_entry_required = false;
  quota_blocked = false;
  quota_blocked_until = none;
  is_suppressed = false;
  dismissed_reason = none;
  invoice = record {
    supplier_name = none;
    invoice_number = none;
    invoice_date = none;
    subtotal_cents = none;
    tax_cents = none;
    total_cents = none;
  };
  notes_log = [];
}

abbrev matched_line : ReceiptLine
matched_line = record {
  id = 41;
  tenant_id = 1;
  receipt_id = 40;
  inventory_item_id = some 7;
  received_quantity = pos 5000;
  purchase_unit_id = none;
  unit_cost_cents = some (pos 250);
  idempotency_key = none;
  match_status = matched;
  manually_corrected = false;
  extracted_name = some "Flour";
  extracted_unit = some "kg";
  confidence = some 900;
  extraction_job_id = some 39;
  job_attempt = some 1;
  line_ordinal = some 0;
  emits_movement_id = none;
}

abbrev store : Store
store = record {
  ledger = record { now = 1000; next_id = 5; movements = [] };
  items = item ∷ [];
  units = record { id = 3; tenant_id = 1; name = "g"; unit_type = weight } ∷ [];
  conversions =
      record {
        from_unit = "kg";
        to_unit = "g";
        factor = pos 10000000;
        inventory_item_id = none;
        tenant_id = none;
      }
      ∷ [];
  receipts = paper ∷ [];
  lines = matched_line ∷ record matched_line { id = 42; match_status = skipped } ∷ [];
  costs = [];
}

abbrev received_row : Movement
received_row = record {
  id = 5;
  tenant_id = 1;
  inventory_item_id = 7;
  movement_type = receive;
  delta = pos 5000000;
  source_type = receipt_line;
  source_id = some 41;
  idempotency_key = word "receipt_line" ∷ uuid 41 ∷ [];
  yield_factor_applied = none;
  recorded_at = 1000;
  created_at = 1000;
}

abbrev received : Store
received = record store {
  ledger = record { now = 1000; next_id = 6; movements = received_row ∷ [] };
  receipts =
      record paper {
        commit_state = committed;
        committed_at = some 1000;
        confirmed_at = some 1000;
        reviewed_affirmation = true;
      }
      ∷ [];
  lines =
      record matched_line { emits_movement_id = some 5 }
      ∷ record matched_line { id = 42; match_status = skipped }
      ∷ [];
  costs =
      record {
        tenant_id = 1;
        inventory_item_id = 7;
        unit_cost_cents = pos 250;
        purchase_unit_id = none;
        source_receipt_line_id = 41;
      }
      ∷ [];
}

commit_receipt-run :
    commit_receipt 1 40 true true store ≡ ok (received, newly_committed (5 ∷ []) true)
unfolding commit_receipt commit_open check_gate commit_lines commit_line storage_quantity convert
    is_canonical dimension_of member lookup is_candidate better idempotent_movement_insert
    insert_or_nothing mark_receipt_committed ◌*ℤ◌
commit_receipt-run = refl

-- An intake without its review is refused.
commit_receipt-unreviewed : commit_receipt 1 40 true false store ≡ err review_required
unfolding commit_receipt commit_open check_gate
commit_receipt-unreviewed = refl

commit_receipt_once_example :
    commit_receipt 1 40 false false received ≡ ok (received, already_committed)
commit_receipt_once_example =
    commit_receipt_once 1 40 true true false false store received (newly_committed (5 ∷ []) true)
      commit_receipt-run

-- The key "k" of a request with fingerprint "f".
abbrev locked_rows : List KeyRow
locked_rows =
    record {
      tenant_id = 1;
      key = "k";
      request_fingerprint = "f";
      response_status = none;
      response_body = none;
    }
    ∷ []

check_and_lock-run : check_and_lock 1 "k" "f" [] ≡ (locked_rows, ok proceed)
unfolding check_and_lock
check_and_lock-run = refl

check_and_lock_in_flight_example :
    check_and_lock 1 "k" "f" locked_rows ≡ (locked_rows, err request_in_flight)
check_and_lock_in_flight_example =
    check_and_lock_in_flight 1 "k" "f" [] locked_rows check_and_lock-run "f"

check_and_lock_cached_example :
    let stored = store_response 1 "k" 201 "{}" locked_rows in
    check_and_lock 1 "k" "f" stored ≡ (stored, ok (cached 201 (some "{}")))
check_and_lock_cached_example =
    check_and_lock_cached 1 "k" "f" [] locked_rows check_and_lock-run "f" "{}" 201
