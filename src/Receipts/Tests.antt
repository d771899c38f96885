-- ===== src/Receipts/Tests.antt =====
-- Runs on one receipt: its line, its job, its worker.
mod Edits
mod Worker
use reorder_os.Prelude.{true, false, none, some, List, [], ◌∷◌}
use reorder_os.Prelude.Int.{pos}
use reorder_os.Schema.{recipe_deducted}
use reorder_os.Depletion.Units.{weight}
use reorder_os.Receipts.{
  Receipt, ReceiptLine, Store, ExtractionStatus, draft, mobile_photo, matched, skipped,
}
use reorder_os.Receipts.Jobs.{Job, JobStatus}
use reorder_os.Receipts.Desk.{no_invoice, Desk}

-- A photographed receipt whose review has not begun.
abbrev pub paper : Receipt
paper = record {
  id = 40;
  tenant_id = 1;
  commit_state = draft;
  source = mobile_photo;
  committed_at = none;
  confirmed_at = none;
  reviewed_affirmation = true;
  review_started_at = none;
  photo_object_key = some "receipts/1/40";
  mime_type = some "image/jpeg";
  extraction_status = ExtractionStatus.pending;
  extraction_confidence = none;
  manual_entry_required = false;
  quota_blocked = false;
  quota_blocked_until = none;
  is_suppressed = false;
  dismissed_reason = none;
  invoice = no_invoice;
  notes_log = [];
}

abbrev pub line : ReceiptLine
line = record {
  id = 41;
  tenant_id = 1;
  receipt_id = 40;
  inventory_item_id = some 7;
  received_quantity = pos 5000;
  purchase_unit_id = none;
  unit_cost_cents = some (pos 250);
  idempotency_key = none;
  match_status = matched;
  manually_corrected = true;
  extracted_name = some "Flour";
  extracted_unit = some "kg";
  confidence = none;
  extraction_job_id = none;
  job_attempt = none;
  line_ordinal = some 0;
  emits_movement_id = none;
}

-- The job that worker 90 has taken.
abbrev pub job : Job
job = record {
  id = 39;
  tenant_id = 1;
  receipt_id = 40;
  job_attempt = 1;
  status = JobStatus.processing;
  locked_at = some 1000;
  lease_token = some 90;
  quota_blocked_until = none;
  attempts = 0;
  last_error = none;
  raw_extraction = none;
  started_at = some 1000;
  completed_at = none;
  created_at = 900;
}

abbrev pub store : Store
store = record {
  ledger = record { now = 1000; next_id = 50; movements = [] };
  items =
      record {
        id = 7;
        tenant_id = 1;
        name = "Flour";
        active = true;
        inventory_mode = recipe_deducted;
        storage_unit_id = 3;
        last_count_at = none;
        last_count_quantity = none;
      }
      ∷ [];
  units = record { id = 3; tenant_id = 1; name = "g"; unit_type = weight } ∷ [];
  conversions = [];
  receipts = paper ∷ [];
  lines = line ∷ [];
  costs = [];
}

abbrev pub desk : Desk
desk = record { store = store; jobs = job ∷ []; adjustments = [] }
