-- ===== src/Receipts/Extraction.antt =====
-- ExtractionWorker of backend/app/modules/receipts/extraction_worker.py: one turn on a job. What
-- storage, the file checks and the language model answer is a parameter, and so is what other
-- transactions commit while the model is asked. A transaction that raises or rolls back leaves
-- what the others did.
pub mod Payloads
pub mod Fenced
pub mod Poison
use reorder_os.Prelude.{
  ℕ, suc, ◌+◌, String, Bool, true, false, Option, none, some, List, update_where, is_some, leb, ltb,
  ◌==◌, if◌then◌else◌,
}
use reorder_os.Receipts.{Receipt, ExtractionStatus}
use reorder_os.Receipts.Jobs.{
  Job, JobStatus, Payload, RateLimit, max_attempts, claim, terminal, checkpoint, quota_block_job,
  retry_job, next_midnight, charge_quota,
}
use reorder_os.Receipts.Desk.{Desk, now_of, fresh_id, take_id, update_receipt, find_receipt}
use reorder_os.Receipts.Extraction.Payloads.{Coercions, apply_payload}

-- get_bytes with validate_and_clean.
pub data Download : Type 0 where
  clean not_configured broken : Download
  invalid : String → Download

-- extract_invoice
pub data Extract : Type 0 where
  extracted : Payload → Extract
  unavailable : String → Extract
  failed : Extract

pub record Env : Type 0 where
  pub download : Receipt → Download
  pub extract : Receipt → Extract
  pub coercions : Coercions
  -- error[:500]
  pub cut : String → String

-- What the worker reads and writes.
pub record Office : Type 0 where
  pub desk : Desk
  pub limits : List RateLimit

abbrev pub with_desk : (Desk → Desk) → Office → Office
with_desk f o = record o { desk = f o.desk }

-- A fenced write of the job, and what the receipt gets where the fence held.
unfoldable pub project : List Job × Bool → (Desk → Desk) → Desk → Desk
project (jobs, held) f d = if held then f (record d { jobs = jobs }) else record d { jobs = jobs }

-- What the steps of one job share: the row as it was claimed, and its token.
unfoldable pub mark_receipt_failed : Job → Desk → Desk
mark_receipt_failed j = update_receipt j.tenant_id j.receipt_id (λ r. record r {
  extraction_status = ExtractionStatus.failed;
  manual_entry_required = true;
  quota_blocked = false;
})

unfoldable pub fail_terminal : (token : ℕ) → Job → String → (attempts : Option ℕ) → Desk → Desk
fail_terminal token j error attempts d =
    project (terminal (now_of d) j.id token JobStatus.failed_terminal (some error) attempts d.jobs)
      (mark_receipt_failed j) d

-- The receipt is missing: only the job is written.
unfoldable pub fail_missing : (token : ℕ) → Job → Desk → Desk
fail_missing token j d =
    project
      (terminal (now_of d) j.id token JobStatus.failed_terminal (some "receipt missing") none
        d.jobs)
      (λ x. x) d

unfoldable pub supersede : (token : ℕ) → Job → Desk → Desk
supersede token j d =
    project (terminal (now_of d) j.id token JobStatus.superseded none none d.jobs)
      (update_receipt j.tenant_id j.receipt_id
        (λ r. record r { extraction_status = ExtractionStatus.superseded; quota_blocked = false }))
      d

-- _quota_block
unfoldable pub quota_block : (token : ℕ) → Job → Desk → Desk
quota_block token j d =
    project (quota_block_job (now_of d) j.id token d.jobs)
      (update_receipt j.tenant_id j.receipt_id (λ r. record r {
        quota_blocked = true;
        quota_blocked_until = some (next_midnight (now_of d));
        extraction_status = ExtractionStatus.pending;
      }))
      d

-- _transient_fail
unfoldable pub transient_fail : Env → (token : ℕ) → Job → String → Desk → Desk
transient_fail env token j error d =
    let new_attempts = suc j.attempts in
    if leb max_attempts new_attempts
    then fail_terminal token j (env.cut error) (some new_attempts) d
    else project (retry_job j.id token new_attempts (env.cut error) d.jobs) (λ x. x) d

abbrev is_reviewed : (tid rid : ℕ) → Desk → Bool
is_reviewed tid rid d = elim (find_receipt tid rid d) [
  | none ↦ false
  | some r ↦ is_some r.review_started_at
]

abbrev commit_or : Office → Office → Option (Desk × Bool) → Office
commit_or before o none = before
commit_or before o (some (d, held)) = if held then record o { desk = d } else before

-- The second hard stop, and _apply. `before` is what a rollback leaves.
unfoldable pub finish_job : Env → (token : ℕ) → Job → Payload → (before o : Office) → Office
finish_job env token j payload before o =
    if is_reviewed j.tenant_id j.receipt_id o.desk
    then with_desk (supersede token j) o
    else commit_or before o (apply_payload env.coercions token j payload o.desk)

-- The checkpoint. Where its fence misses, what was written so far is committed.
unfoldable pub checkpoint_job : Env → (token : ℕ) → Job → Payload → (before o : Office) → Office
checkpoint_job env token j payload before o =
    let (jobs, held) = checkpoint j.id token payload o.desk.jobs in
    if held
    then finish_job env token j payload before (with_desk (λ d. record d { jobs = jobs }) o)
    else with_desk (λ d. record d { jobs = jobs }) o

-- The answer of the model; `o` has the quota charged, and both have what the others committed.
unfoldable pub use_answer : Env → (token : ℕ) → Job → Extract → (before o : Office) → Office
use_answer env token j (extracted payload) before o = checkpoint_job env token j payload before o
use_answer env token j (unavailable error) before o = with_desk (transient_fail env token j error) o
use_answer env token j failed before o = before

abbrev ask : Env → (Desk → Desk) → (token : ℕ) → Job → Receipt → (before o : Office) → Office
ask env during token j r before o =
    use_answer env token j (env.extract r) (with_desk during before) (with_desk during o)

-- The quota, on the first attempt only.
unfoldable pub charge_job :
    Env → (during : Desk → Desk) → (token : ℕ) → Job → Receipt → Office → Office
charge_job env during token j r o =
    let (limits, jobs_today) = charge_quota (now_of o.desk) j.tenant_id o.limits in
    if j.attempts == 0
    then elim jobs_today [
      | none ↦ with_desk (quota_block token j) (record o { limits = limits })
      | some n ↦ ask env during token j r o (record o { limits = limits })
    ]
    else ask env during token j r o o

unfoldable pub use_download :
    Env → (during : Desk → Desk) → (token : ℕ) → Job → Receipt → Download → Office → Office
use_download env during token j r clean o = charge_job env during token j r o
use_download env during token j r (invalid code) o =
    with_desk (fail_terminal token j (env.cut code) none) o
use_download env during token j r not_configured o =
    with_desk (transient_fail env token j "storage unavailable") o
use_download env during token j r broken o = o

-- `payload = job["raw_extraction"]`
abbrev use_checkpoint :
    Env → (during : Desk → Desk) → (token : ℕ) → Job → Receipt → Option Payload → Office → Office
use_checkpoint env during token j r (some payload) o = finish_job env token j payload o o
use_checkpoint env during token j r none o = use_download env during token j r (env.download r) o

-- _process
unfoldable pub process_job : Env → (during : Desk → Desk) → (token : ℕ) → Job → Office → Office
process_job env during token j o = elim (find_receipt j.tenant_id j.receipt_id o.desk) [
  | none ↦ with_desk (fail_missing token j) o
  | some r ↦
      if is_some r.review_started_at
      then with_desk (supersede token j) o
      else use_checkpoint env during token j r j.raw_extraction o
]

-- process_once: the claim is committed before the job is processed.
unfoldable pub process_once : Env → (during : Desk → Desk) → Office → Office × Bool
process_once env during o =
    let token = fresh_id o.desk in
    let (jobs, claimed) = claim (now_of o.desk) token o.desk.jobs in
    elim claimed [
      | none ↦ (o, false)
      | some j ↦ (
        process_job env during token j (with_desk (λ d. record (take_id d) { jobs = jobs }) o),
        true,
      )
    ]
