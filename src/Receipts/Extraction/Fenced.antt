-- ===== src/Receipts/Extraction/Fenced.antt =====
-- A worker of receipts/extraction_worker.py that lost the lease of its job.
use reorder_os.Prelude.{
  ℕ, suc, ◌≡◌, refl, str_eq, ◌⊎◌, inl, inr, String, Bool, false, Option, none, some, List, [], ◌∷◌,
  any, leb, ◌==◌, Bool-cases, Option-cases, is_some,
}
use reorder_os.Prelude.Result.{AllSome}
use reorder_os.Receipts.{Receipt}
use reorder_os.Receipts.Jobs.{
  RateLimit, Job, RawLine, Payload, max_attempts, holds_lease, fenced, terminal, checkpoint,
  quota_block_job, retry_job, charge_quota,
}
use reorder_os.Receipts.Jobs.Leases.{fenced_lost}
use reorder_os.Receipts.Desk.{Desk, fresh_id, take_id, update_receipt, find_receipt, now_of}
use reorder_os.Receipts.Extraction.Payloads.{
  insert_extracted, extracted_line, add_extracted, is_positive, suppress, complete_receipt,
  lines_of, json, apply_payload,
}
use reorder_os.Receipts.Extraction.{
  Env, Office, Download, Extract, clean, not_configured, broken, invalid, extracted, unavailable,
  failed, project, fail_terminal, fail_missing, supersede, quota_block, transient_fail, is_reviewed,
  commit_or, finish_job, checkpoint_job, use_answer, charge_job, use_download, use_checkpoint,
  process_job,
}

-- No job holds this lease.
abbrev pub IsLost : (jid token : ℕ) → Desk → Type 0
IsLost jid token d = any (holds_lease jid token) d.jobs ≡ false

-- The worker left the tables of the desk alone: as it found them, or as the others left them.
abbrev pub IsAlone : (during : Desk → Desk) → (o after : Office) → Type 0
IsAlone during o after = (after.desk ≡ o.desk) ⊎ (after.desk ≡ during o.desk)

-- What the worker does not handle of a call rolls the charge back; another answer commits it.
abbrev pub kept_limits : Extract → (before after : List RateLimit) → List RateLimit
kept_limits failed before after = before
kept_limits _ before after = after

project_lost :
    (jid token : ℕ) (f : Job → Job) (g : Desk → Desk) (d : Desk)
    → IsLost jid token d
    → project (fenced jid token f d.jobs) g d ≡ d
unfolding project
project_lost jid token f g d h = rw (fenced_lost jid token f d.jobs h) refl

module _ (env : Env) (token : ℕ) (j : Job) where
  transient_fail_lost :
      (error : String) (d : Desk) → IsLost j.id token d → transient_fail env token j error d ≡ d
  unfolding transient_fail fail_terminal terminal retry_job
  transient_fail_lost error d h = elim (Bool-cases (leb max_attempts (suc j.attempts))) [
    | inl y ↦ rw y (project_lost j.id token _ _ d h)
    | inr n ↦ rw n (project_lost j.id token _ _ d h)
  ]

  supersede_lost : (d : Desk) → IsLost j.id token d → supersede token j d ≡ d
  unfolding supersede terminal
  supersede_lost d h = project_lost j.id token _ _ d h

  insert_extracted-jobs :
      (ordinal : ℕ) (raws : List (Option RawLine)) (d : Desk)
      → AllSome (λ r. r.0.jobs ≡ d.jobs) (insert_extracted env.coercions ordinal j raws d)
  unfolding insert_extracted take_id
  insert_extracted-jobs ordinal [] d = refl
  insert_extracted-jobs ordinal (none ∷ raws) d = tt
  insert_extracted-jobs ordinal (some raw ∷ raws) d =
      let ln = extracted_line env.coercions (fresh_id d) ordinal j raw in
      elim (Bool-cases (is_positive ln.received_quantity)) [
        | inr n ↦ rw n tt
        | inl y ↦
            elim (Option-cases
              (insert_extracted env.coercions (suc ordinal) j raws (add_extracted ln d))) [
                | inl m ↦ rw (y, m) tt
                | inr (r, m) ↦
                    let rest = insert_extracted-jobs (suc ordinal) raws (add_extracted ln d) in
                    let rest' : r.0.jobs ≡ d.jobs = (rw m at rest) in rw (y, m) rest'
              ]
      ]

  -- What _apply answers is the fence.
  apply_payload-fence :
      (payload : Payload) (d : Desk)
      → AllSome
          (λ r. r.1 ≡ any (holds_lease j.id token) d.jobs)
          (apply_payload env.coercions token j payload d)
  unfolding apply_payload terminal fenced suppress complete_receipt update_receipt
  apply_payload-fence payload d =
      elim (Bool-cases (str_eq (env.coercions.str (json payload.document_type)) "not_invoice")) [
        | inl y ↦ rw y refl
        | inr n ↦ elim (Option-cases (insert_extracted env.coercions 0 j (lines_of payload) d)) [
          | inl m ↦ rw (n, m) tt
          | inr (r, m) ↦
              let rest = insert_extracted-jobs 0 (lines_of payload) d in
              let rest' : r.0.jobs ≡ d.jobs = (rw m at rest) in rw (n, m, rest') refl
        ]
      ]

  commit_or_lost :
      (before o : Office) (d : Desk) (r : Option (Desk × Bool))
      → AllSome (λ r. r.1 ≡ any (holds_lease j.id token) d.jobs) r
      → IsLost j.id token d
      → commit_or before o r ≡ before
  commit_or_lost before o d none h lost = refl
  commit_or_lost before o d (some (d', held)) h lost = rw (h, lost) refl

  finish_job_lost :
      (payload : Payload) (before o : Office)
      → before.desk ≡ o.desk
      → IsLost j.id token o.desk
      → (finish_job env token j payload before o).desk ≡ o.desk
  unfolding finish_job
  finish_job_lost payload before o same lost =
      elim (Bool-cases (is_reviewed j.tenant_id j.receipt_id o.desk)) [
        | inl y ↦ rw y (supersede_lost o.desk lost)
        | inr n ↦
            rw (n, commit_or_lost before o o.desk _ (apply_payload-fence payload o.desk) lost) same
      ]

  -- Whatever the model answers a worker whose lease is lost, the worker leaves the desk as the
  -- others left it.
  pub use_answer_lost :
      (answer : Extract) (before o : Office)
      → before.desk ≡ o.desk
      → IsLost j.id token o.desk
      → (use_answer env token j answer before o).desk ≡ o.desk
  unfolding use_answer checkpoint_job checkpoint
  use_answer_lost (extracted payload) before o same lost =
      rw (fenced_lost j.id token _ o.desk.jobs lost) refl
  use_answer_lost (unavailable error) before o same lost = transient_fail_lost error o.desk lost
  use_answer_lost failed before o same lost = same

  -- The quota that it charged stays charged, but for what it does not handle.
  pub use_answer_lost-limits :
      (answer : Extract) (before o : Office)
      → IsLost j.id token o.desk
      → (use_answer env token j answer before o).limits ≡ kept_limits answer before.limits o.limits
  unfolding use_answer checkpoint_job checkpoint
  use_answer_lost-limits (extracted payload) before o lost =
      rw (fenced_lost j.id token _ o.desk.jobs lost) refl
  use_answer_lost-limits (unavailable error) before o lost = refl
  use_answer_lost-limits failed before o lost = refl

  module _ (during : Desk → Desk) where
    charge_job_lost :
        (r : Receipt) (o : Office)
        → IsLost j.id token o.desk
        → IsLost j.id token (during o.desk)
        → IsAlone during o (charge_job env during token j r o)
    unfolding charge_job quota_block quota_block_job
    charge_job_lost r o lost later = elim (Bool-cases (j.attempts == 0)) [
      | inr n ↦ rw n (inr (use_answer_lost (env.extract r) _ _ refl later))
      | inl y ↦ elim (Option-cases (charge_quota (now_of o.desk) j.tenant_id o.limits).1) [
        | inl q ↦ rw (y, q) (inl (project_lost j.id token _ _ o.desk lost))
        | inr (n, q) ↦ rw (y, q) (inr (use_answer_lost (env.extract r) _ _ refl later))
      ]
    ]

    use_download_lost :
        (r : Receipt) (x : Download) (o : Office)
        → IsLost j.id token o.desk
        → IsLost j.id token (during o.desk)
        → IsAlone during o (use_download env during token j r x o)
    unfolding use_download fail_terminal terminal
    use_download_lost r clean o lost later = charge_job_lost r o lost later
    use_download_lost r (invalid code) o lost later = inl (project_lost j.id token _ _ o.desk lost)
    use_download_lost r not_configured o lost later =
        inl (transient_fail_lost "storage unavailable" o.desk lost)
    use_download_lost r broken o lost later = inl refl

    use_checkpoint_lost :
        (r : Receipt) (x : Option Payload) (o : Office)
        → IsLost j.id token o.desk
        → IsLost j.id token (during o.desk)
        → IsAlone during o (use_checkpoint env during token j r x o)
    use_checkpoint_lost r (some payload) o lost later = inl (finish_job_lost payload o o refl lost)
    use_checkpoint_lost r none o lost later = use_download_lost r (env.download r) o lost later

    -- A worker that has lost the lease of its job before its transaction, and whatever others commit
    -- while it asks the model does not give it back, changes no receipt, line, job or ledger row: on
    -- every path these tables are as they were, or as the others left them.
    pub process_job_lost :
        (o : Office)
        → IsLost j.id token o.desk
        → IsLost j.id token (during o.desk)
        → IsAlone during o (process_job env during token j o)
    unfolding process_job fail_missing terminal
    process_job_lost o lost later =
        elim (Option-cases (find_receipt j.tenant_id j.receipt_id o.desk)) [
          | inl n ↦ rw (process_job, n) (inl (project_lost j.id token _ _ o.desk lost))
          | inr (r, f) ↦ elim (Bool-cases (is_some r.review_started_at)) [
            | inl y ↦ rw (process_job, f, y) (inl (supersede_lost o.desk lost))
            | inr n ↦ rw (process_job, f, n) (use_checkpoint_lost r j.raw_extraction o lost later)
          ]
        ]
