-- ===== src/Receipts/Reset.antt =====
-- enqueue_extraction and reset_extraction of backend/app/modules/receipts/services.py.
pub mod Fresh
use reorder_os.Prelude.{
  ℕ, ◌+◌, Bool, true, false, not, ◌&&◌, none, some, List, [], ◌∷◌, select, update_where, is_some,
  ltb, if◌then◌else◌,
}
use reorder_os.Prelude.Result.{Result, ok, err, ◌>>◌, raise_if}
use reorder_os.Receipts.{ExtractionStatus, ReceiptLine}
use reorder_os.Receipts.Jobs.{Job, JobStatus}
use reorder_os.Inventory.Receipt.{is_line_of}
use reorder_os.Receipts.Desk.{
  Desk, DeskError, receipt_not_found, review_in_progress, reset_needs_confirm, now_of, fresh_id,
  with_store, take_id, update_receipt, find_receipt, is_job_of, lock_editable_receipt,
}

-- COALESCE(MAX(job_attempt), 0) + 1
unfoldable pub max_attempt : (tid rid : ℕ) → List Job → ℕ
max_attempt tid rid [] = 0
max_attempt tid rid (j ∷ js) =
    let rest = max_attempt tid rid js in
    if is_job_of tid rid j && ltb rest j.job_attempt then j.job_attempt else rest

abbrev pub new_job : (id tid rid attempt now : ℕ) → Job
new_job id tid rid attempt now = record {
  id = id;
  tenant_id = tid;
  receipt_id = rid;
  job_attempt = attempt;
  status = JobStatus.pending;
  locked_at = none;
  lease_token = none;
  quota_blocked_until = none;
  attempts = 0;
  last_error = none;
  raw_extraction = none;
  started_at = none;
  completed_at = none;
  created_at = now;
}

abbrev is_machine_line : (tid rid : ℕ) → ReceiptLine → Bool
is_machine_line tid rid ln = is_line_of tid rid ln && is_some ln.extraction_job_id

-- The writes of enqueue_extraction.
unfoldable pub queue_job : (tid rid : ℕ) → Desk → Desk
queue_job tid rid d =
    let cleared =
      with_store (λ s. record s { lines = select (λ ln. not (is_machine_line tid rid ln)) s.lines })
        d in
    let attempt = max_attempt tid rid d.jobs + 1 in
    update_receipt tid rid
      (λ r. record r { extraction_status = ExtractionStatus.pending; quota_blocked = false })
      (record (take_id cleared) { jobs = new_job (fresh_id d) tid rid attempt (now_of d) ∷ d.jobs })

unfoldable pub enqueue_extraction : (tid rid : ℕ) → Desk → Result DeskError (Desk × ℕ)
enqueue_extraction tid rid d = elim (find_receipt tid rid d) [
  | none ↦ err receipt_not_found
  | some r ↦
      if is_some r.review_started_at
      then err review_in_progress
      else ok (queue_job tid rid d, fresh_id d)
]

-- The four states that a worker may still take or finish.
abbrev pub is_resurrectable : JobStatus → Bool
is_resurrectable JobStatus.pending = true
is_resurrectable JobStatus.quota_blocked = true
is_resurrectable JobStatus.processing = true
is_resurrectable JobStatus.failed = true
is_resurrectable _ = false

abbrev pub is_live_job : (tid rid : ℕ) → Job → Bool
is_live_job tid rid j = is_job_of tid rid j && is_resurrectable j.status

unfoldable pub supersede_job : Job → Job
supersede_job j = record j { status = JobStatus.superseded; lease_token = none; locked_at = none }

-- The writes of reset_extraction before it enqueues.
unfoldable pub discard_edits : (tid rid : ℕ) → Desk → Desk
discard_edits tid rid d =
    update_receipt tid rid
      (λ r. record r {
        review_started_at = none;
        reviewed_affirmation = false;
        quota_blocked = false;
        quota_blocked_until = none;
      })
      (record d {
        store = record d.store { lines = select (λ ln. not (is_line_of tid rid ln)) d.store.lines };
        jobs = update_where (is_live_job tid rid) supersede_job d.jobs;
      })

unfoldable pub reset_extraction :
    (tid rid : ℕ) (discard : Bool) → Desk → Result DeskError (Desk × ℕ)
reset_extraction tid rid discard d = do
  raise_if (not discard) reset_needs_confirm
  lock_editable_receipt tid rid d
  enqueue_extraction tid rid (discard_edits tid rid d)
