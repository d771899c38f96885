-- ===== src/Receipts/Desk.antt =====
-- backend/app/modules/receipts/services.py and repo.py: what an operator works on, drafts and
-- their states, notes. An exception leaves no state: the caller rolls the transaction back.
use reorder_os.Prelude.{
  ℕ, suc, String, Bool, true, false, not, ◌&&◌, Option, none, some, List, [], ◌∷◌, ◌++◌, find_first,
  select, update_where, ◌==◌, if◌then◌else◌,
}
use reorder_os.Prelude.Int.{ℤ}
use reorder_os.Prelude.Result.{Result, ok, err, raise_if}
use reorder_os.Receipts.{
  CommitState, Source, ExtractionStatus, Invoice, Note, Receipt, Store, draft, pending_review,
}
use reorder_os.Receipts.Jobs.{Job}
use reorder_os.Inventory.Resolver.{ResolveError}
use reorder_os.Inventory.Receipt.{is_receipt_row, is_line_of}

pub data AdjustmentType : Type 0 where
  correction count_fix return damage : AdjustmentType

-- A row of receipt_adjustments.
pub record Adjustment : Type 0 where
  pub id : ℕ
  pub tenant_id : ℕ
  pub receipt_id : ℕ
  pub receipt_line_id : Option ℕ
  pub inventory_item_id : ℕ
  pub adjustment_type : AdjustmentType
  pub delta_quantity : ℤ
  pub delta_unit : String
  pub reason : Option String
  pub delta_cost_cents : Option ℤ
  pub compensating_movement_id : ℕ
  pub created_by : ℕ

pub record Desk : Type 0 where
  pub store : Store
  pub jobs : List Job
  pub adjustments : List Adjustment

pub data DeskError : Type 0 where
  receipt_not_found review_in_progress receipt_not_committed receipt_immutable line_not_found
        unknown_inventory_item reset_needs_confirm :
      DeskError
  resolve_raised : ResolveError → DeskError
  -- what PostgreSQL raises: an UPDATE with no assignment, and with two of one column; an id that
  -- references no row
  syntax_error multiple_assignments foreign_key_violation : DeskError

-- What repo.py answers.
pub data Answer : Type 0 where
  done not_found conflict : Answer

abbrev pub now_of : Desk → ℕ
now_of d = d.store.ledger.now

-- uuid4() and gen_random_uuid()
abbrev pub fresh_id : Desk → ℕ
fresh_id d = d.store.ledger.next_id

abbrev pub with_store : (Store → Store) → Desk → Desk
with_store f d = record d { store = f d.store }

unfoldable pub take_id : Desk → Desk
take_id = with_store (λ s. record s { ledger = record s.ledger { next_id = suc s.ledger.next_id } })

unfoldable pub update_receipt : (tid rid : ℕ) → (Receipt → Receipt) → Desk → Desk
update_receipt tid rid f =
    with_store (λ s. record s { receipts = update_where (is_receipt_row tid rid) f s.receipts })

abbrev pub find_receipt : (tid rid : ℕ) → Desk → Option Receipt
find_receipt tid rid d = find_first (is_receipt_row tid rid) d.store.receipts

abbrev pub no_invoice : Invoice
no_invoice = record {
  supplier_name = none;
  invoice_number = none;
  invoice_date = none;
  subtotal_cents = none;
  tax_cents = none;
  total_cents = none;
}

-- repo.create_draft for an upload; the other columns have their defaults.
unfoldable pub create_draft :
    (tid rid : ℕ) → Source → (photo_object_key mime_type : Option String) → Desk → Desk
create_draft tid rid source key mime = with_store (λ s. record s {
  receipts =
      record {
        id = rid;
        tenant_id = tid;
        commit_state = draft;
        source = source;
        committed_at = none;
        confirmed_at = none;
        reviewed_affirmation = false;
        review_started_at = none;
        photo_object_key = key;
        mime_type = mime;
        extraction_status = ExtractionStatus.no_extraction;
        extraction_confidence = none;
        manual_entry_required = false;
        quota_blocked = false;
        quota_blocked_until = none;
        is_suppressed = false;
        dismissed_reason = none;
        invoice = no_invoice;
        notes_log = [];
      }
      ∷ s.receipts;
})

-- _EDITABLE_STATES, and _MUTABLE_STATES of repo.py
abbrev pub is_editable : CommitState → Bool
is_editable draft = true
is_editable pending_review = true
is_editable _ = false

abbrev pub is_draft : CommitState → Bool
is_draft draft = true
is_draft _ = false

-- COALESCE(:reason, dismissed_reason)
abbrev or_reason : Option String → Option String → Option String
or_reason (some a) b = some a
or_reason none b = b

-- repo.set_commit_state: dismissal and cancellation.
unfoldable pub set_commit_state :
    (tid rid : ℕ) → CommitState → (dismissed_reason : Option String) → Desk → Desk × Answer
set_commit_state tid rid new_state reason d = elim (find_receipt tid rid d) [
  | none ↦ (d, not_found)
  | some r ↦
      if is_editable r.commit_state
      then (
        update_receipt tid rid
            (λ x. record x {
              commit_state = new_state;
              dismissed_reason = or_reason reason x.dismissed_reason;
            })
            d,
        done,
      )
      else (d, conflict)
]

abbrev pub is_job_of : (tid rid : ℕ) → Job → Bool
is_job_of tid rid j = j.tenant_id == tid && (j.receipt_id == rid)

-- repo.delete_draft. The lines and the jobs of the receipt are deleted with it (ON DELETE CASCADE).
unfoldable pub delete_draft : (tid rid : ℕ) → Desk → Desk × Answer
delete_draft tid rid d = elim (find_receipt tid rid d) [
  | none ↦ (d, not_found)
  | some r ↦
      if is_draft r.commit_state
      then (
        record d {
          store = record d.store {
            receipts = select (λ x. not (is_receipt_row tid rid x)) d.store.receipts;
            lines = select (λ ln. not (is_line_of tid rid ln)) d.store.lines;
          };
          jobs = select (λ j. not (is_job_of tid rid j)) d.jobs;
        },
        done,
      )
      else (d, conflict)
]

-- _lock_editable_receipt
unfoldable pub lock_editable_receipt : (tid rid : ℕ) → Desk → Result DeskError (Unit {0})
lock_editable_receipt tid rid d = elim (find_receipt tid rid d) [
  | none ↦ err receipt_not_found
  | some r ↦ raise_if (not (is_editable r.commit_state)) receipt_immutable
]

-- append_note
unfoldable pub append_note : (tid rid user_id : ℕ) → String → Desk → Result DeskError (Desk × Note)
append_note tid rid user_id body d = elim (find_receipt tid rid d) [
  | none ↦ err receipt_not_found
  | some r ↦
      let note : Note = record {
        id = fresh_id d;
        user_id = user_id;
        text = body;
        created_at = now_of d;
      } in
      ok (
        update_receipt tid rid (λ x. record x { notes_log = x.notes_log ++ (note ∷ []) })
            (take_id d),
        note,
      )
]

-- COALESCE(review_started_at, now())
abbrev pub or_now : Option ℕ → ℕ → Option ℕ
or_now (some a) now = some a
or_now none now = some now

-- _touch_review
unfoldable pub touch_review : (tid rid : ℕ) → Desk → Desk
touch_review tid rid d =
    update_receipt tid rid
      (λ r. record r {
        review_started_at = or_now r.review_started_at (now_of d);
        reviewed_affirmation = false;
      })
      d
