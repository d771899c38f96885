-- ===== src/Receipts.antt =====
-- The tables of the receipts: receipts, receipt_lines, ingredient_cost_snapshots, and with them
-- what one transaction on receipts reads and writes (backend/alembic/versions, 0003 and
-- 0023). The parts below are backend/app/modules/receipts.
pub mod Jobs
mod Tests
pub mod Lines
pub mod Append
pub mod Extraction
pub mod Desk
pub mod Reset
pub mod Adjust
use reorder_os.Prelude.{ℕ, String, Bool, Option, List}
use reorder_os.Prelude.Int.{ℤ}
use reorder_os.Schema.{Key, Ledger, Item, UnitOfMeasure}
use reorder_os.Depletion.Conversions.{Conversion}

pub data CommitState : Type 0 where
  draft pending_review committed dismissed cancelled : CommitState

pub data Source : Type 0 where
  pos mobile_photo gmail email webhook manual : Source

pub data MatchStatus : Type 0 where
  matched created unmatched skipped : MatchStatus

-- receipts.extraction_status
pub data ExtractionStatus : Type 0 where
  no_extraction pending processing complete failed manual_required superseded : ExtractionStatus

-- What is read off an invoice: the columns of the receipt.
pub record Invoice : Type 0 where
  pub supplier_name : Option String
  pub invoice_number : Option String
  pub invoice_date : Option ℕ
  pub subtotal_cents : Option ℤ
  pub tax_cents : Option ℤ
  pub total_cents : Option ℤ

-- An entry of notes_log.
pub record Note : Type 0 where
  pub id : ℕ
  pub user_id : ℕ
  pub text : String
  pub created_at : ℕ

-- A row of receipts. `is_suppressed` is review_visibility_status = 'suppressed'.
pub record Receipt : Type 0 where
  pub id : ℕ
  pub tenant_id : ℕ
  pub commit_state : CommitState
  pub source : Source
  pub committed_at : Option ℕ
  pub confirmed_at : Option ℕ
  pub reviewed_affirmation : Bool
  pub review_started_at : Option ℕ
  pub photo_object_key : Option String
  pub mime_type : Option String
  pub extraction_status : ExtractionStatus
  pub extraction_confidence : Option ℕ
  pub manual_entry_required : Bool
  pub quota_blocked : Bool
  pub quota_blocked_until : Option ℕ
  pub is_suppressed : Bool
  pub dismissed_reason : Option String
  pub invoice : Invoice
  pub notes_log : List Note

-- A row of receipt_lines.
pub record ReceiptLine : Type 0 where
  pub id : ℕ
  pub tenant_id : ℕ
  pub receipt_id : ℕ
  pub inventory_item_id : Option ℕ
  pub received_quantity : ℤ
  pub purchase_unit_id : Option ℕ
  pub unit_cost_cents : Option ℤ
  pub idempotency_key : Option Key
  pub match_status : MatchStatus
  pub manually_corrected : Bool
  pub extracted_name : Option String
  pub extracted_unit : Option String
  pub confidence : Option ℕ
  pub extraction_job_id : Option ℕ
  pub job_attempt : Option ℕ
  pub line_ordinal : Option ℕ
  pub emits_movement_id : Option ℕ

-- A row of ingredient_cost_snapshots.
pub record CostSnapshot : Type 0 where
  pub tenant_id : ℕ
  pub inventory_item_id : ℕ
  pub unit_cost_cents : ℤ
  pub purchase_unit_id : Option ℕ
  pub source_receipt_line_id : ℕ

pub record Store : Type 0 where
  pub ledger : Ledger
  pub items : List Item
  pub units : List UnitOfMeasure
  pub conversions : List Conversion
  pub receipts : List Receipt
  pub lines : List ReceiptLine
  pub costs : List CostSnapshot
