-- ===== src/Receipts/Reset/Fresh.antt =====
-- A receipt after reset_extraction (receipts/services.py).
use reorder_os.Prelude.{
  ℕ, ◌+◌, ◌≡◌, refl, inl, inr, Bool, true, false, not, none, some, List, [], ◌∷◌, All, any, arith,
  select, update_where, Bool-cases,
}
use reorder_os.Prelude.Finds.{find_updated}
use reorder_os.Prelude.Result.{ok}
use reorder_os.Receipts.{Receipt, ExtractionStatus}
use reorder_os.Receipts.Jobs.{Job, RateLimit, holds_lease}
use reorder_os.Inventory.Receipt.{is_line_of, is_receipt_row}
use reorder_os.Receipts.Desk.{
  Desk, find_receipt, is_editable, lock_editable_receipt, take_id, update_receipt, now_of, fresh_id,
}
use reorder_os.Receipts.Reset.{
  new_job, max_attempt, queue_job, enqueue_extraction, is_live_job, supersede_job, discard_edits,
  reset_extraction,
}
use reorder_os.Receipts.Extraction.{Env, Extract, use_answer}
use reorder_os.Receipts.Extraction.Fenced.{
  IsLost, kept_limits, use_answer_lost, use_answer_lost-limits,
}

module _ (tid rid : ℕ) where
  superseded-any :
      (jid token : ℕ) (jobs : List Job)
      → All (λ j. holds_lease jid token j ≡ true → is_live_job tid rid j ≡ true) jobs
      → any (holds_lease jid token) (update_where (is_live_job tid rid) supersede_job jobs) ≡ false
  unfolding supersede_job
  superseded-any jid token [] h = refl
  superseded-any jid token (j ∷ js) h = elim (Bool-cases (is_live_job tid rid j)) [
    | inl y ↦ rw (y, superseded-any jid token js h.1) (ground arith)
    | inr n ↦ elim (Bool-cases (holds_lease jid token j)) [
      | inl held ↦ absurd (ground (arith, h.0 held))
      | inr free ↦ rw (n, free, superseded-any jid token js h.1) refl
    ]
  ]

  superseded-select :
      (jobs : List Job)
      → select (is_live_job tid rid) (update_where (is_live_job tid rid) supersede_job jobs) ≡ []
  unfolding supersede_job
  superseded-select [] = refl
  superseded-select (j ∷ js) = elim (Bool-cases (is_live_job tid rid j)) [
    | inl y ↦
        let dead : is_live_job tid rid (supersede_job j) ≡ false = ground arith in
        rw (y, dead) (superseded-select js)
    | inr n ↦ rw (n, n) (superseded-select js)
  ]

  dropped :
      {A : Type 0} (p q : A → Bool) (xs : List A)
      → any p (select q (select (λ x. not (p x)) xs)) ≡ false
  dropped p q [] = refl
  dropped p q (x ∷ xs) = elim (Bool-cases (p x)) [
    | inl y ↦ rw y (dropped p q xs)
    | inr n ↦ elim (Bool-cases (q x)) [
      | inl k ↦ rw (n, k, n) (dropped p q xs)
      | inr k ↦ rw (n, k) (dropped p q xs)
    ]
  ]

  -- The receipt starts over: no line, one job, no trace of a review; its notes stay.
  pub record StartsOver (d d' : Desk) (r : Receipt) : Type 0 where
    pub lines : any (is_line_of tid rid) d'.store.lines ≡ false
    pub attempt : ℕ
    pub live :
        select (is_live_job tid rid) d'.jobs ≡ new_job (fresh_id d) tid rid attempt (now_of d) ∷ []
    pub receipt :
        find_receipt tid rid d'
        ≡ some (record r {
          review_started_at = none;
          reviewed_affirmation = false;
          quota_blocked = false;
          quota_blocked_until = none;
          extraction_status = ExtractionStatus.pending;
        })

  discarded_receipt :
      (d : Desk) (r : Receipt)
      → find_receipt tid rid d ≡ some r
      → find_receipt tid rid (discard_edits tid rid d)
        ≡ some (record r {
          review_started_at = none;
          reviewed_affirmation = false;
          quota_blocked = false;
          quota_blocked_until = none;
        })
  unfolding discard_edits update_receipt
  discarded_receipt d r found =
      find_updated (is_receipt_row tid rid) _ (λ a h. h) d.store.receipts r found

  queued-StartsOver :
      (d : Desk) (r : Receipt)
      → find_receipt tid rid d ≡ some r
      → StartsOver d (queue_job tid rid (discard_edits tid rid d)) r
  unfolding discard_edits queue_job update_receipt take_id
  queued-StartsOver d r found = record {
    lines = dropped (is_line_of tid rid) _ d.store.lines;
    attempt = max_attempt tid rid (update_where (is_live_job tid rid) supersede_job d.jobs) + 1;
    live = ground (arith, superseded-select d.jobs);
    receipt = find_updated (is_receipt_row tid rid) _ (λ a h. h) _ _ (discarded_receipt d r found);
  }

  reset_extraction-runs :
      (d : Desk) (r : Receipt)
      → find_receipt tid rid d ≡ some r
      → is_editable r.commit_state ≡ true
      → reset_extraction tid rid true d
        ≡ ok (queue_job tid rid (discard_edits tid rid d), fresh_id d)
  unfolding reset_extraction lock_editable_receipt enqueue_extraction discard_edits update_receipt
  reset_extraction-runs d r found editable =
      rw
        (
          reset_extraction,
          lock_editable_receipt,
          found,
          editable,
          enqueue_extraction,
          discarded_receipt d r found,
        )
        refl

  -- A reset of a receipt that may be edited succeeds. The receipt then has no line, one live job,
  -- pending and new, no review, no quota block and the extraction status pending, and else its
  -- columns as they were, its notes included.
  pub reset_extraction-StartsOver :
      (d : Desk) (r : Receipt)
      → find_receipt tid rid d ≡ some r
      → is_editable r.commit_state ≡ true
      → (d' : Desk) × (reset_extraction tid rid true d ≡ ok (d', fresh_id d)) × StartsOver d d' r
  reset_extraction-StartsOver d r found editable =
      (_, reset_extraction-runs d r found editable, queued-StartsOver d r found)

  queued-IsLost :
      (jid token : ℕ) (d : Desk)
      → All (λ x. holds_lease jid token x ≡ true → is_live_job tid rid x ≡ true) d.jobs
      → IsLost jid token (queue_job tid rid (discard_edits tid rid d))
  unfolding discard_edits queue_job update_receipt take_id
  queued-IsLost jid token d h = ground (arith, superseded-any jid token d.jobs h)

  -- A reset while a worker waits for the model revokes the worker's lease, when the rows that hold
  -- it are live jobs of the receipt: whatever the model then answers, the worker leaves the receipts,
  -- lines, jobs, adjustments and ledger as the reset left them. The charge of the day's quota is
  -- rolled back if the call of the model raised what the worker does not handle, and else kept.
  pub reset_extraction-revokes :
      (env : Env) (token : ℕ) (j : Job) (answer : Extract) (before after : List RateLimit)
      (d : Desk) (r : Receipt)
      → find_receipt tid rid d ≡ some r
      → is_editable r.commit_state ≡ true
      → All (λ x. holds_lease j.id token x ≡ true → is_live_job tid rid x ≡ true) d.jobs
      → (d' : Desk) × (reset_extraction tid rid true d ≡ ok (d', fresh_id d))
        × (let o =
              use_answer env token j answer
                (record { desk = d'; limits = before })
                (record { desk = d'; limits = after }) in
            (o.desk ≡ d') × (o.limits ≡ kept_limits answer before after))
  reset_extraction-revokes env token j answer before after d r found editable held = (
    _,
    reset_extraction-runs d r found editable,
    (
      use_answer_lost env token j answer _ (record { desk = _; limits = after }) refl
          (queued-IsLost j.id token d held),
      use_answer_lost-limits env token j answer (record { desk = _; limits = before })
          (record { desk = _; limits = after }) (queued-IsLost j.id token d held),
    ),
  )
