-- ===== src/Receipts/Jobs.antt =====
-- The tables receipt_extraction_jobs and tenant_extraction_rate_limits of
-- backend/app/modules/receipts/extraction_worker.py: the claim of a job, the writes that are
-- fenced by its lease, and the daily quota.
pub mod Quota
pub mod Leases
use reorder_os.Prelude.{
  ℕ, ◌+◌, ◌*◌, ◌/◌, String, Bool, true, false, ◌&&◌, ◌||◌, Option, none, some, List, [], ◌∷◌, any,
  find_first, update_where, ltb, leb, ◌==◌, sql_eq, if◌then◌else◌,
}
use reorder_os.Receipts.{Invoice}

pub data JobStatus : Type 0 where
  pending processing complete failed failed_terminal quota_blocked skipped superseded : JobStatus

-- The JSON text of a value of the model's answer; none for a missing key.
abbrev pub Value : Type 0
Value = Option String

-- A line of the payload, as the model gave it.
pub record RawLine : Type 0 where
  pub name : Value
  pub qty : Value
  pub unit : Value
  pub unit_price_cents : Value
  pub confidence : Value

-- The payload, its invoice fields coerced. `lines` is none where it is not a list; a line that is
-- no object is none.
pub record Payload : Type 0 where
  pub document_type : Value
  pub lines : Option (List (Option RawLine))
  pub invoice : Invoice

-- A row of receipt_extraction_jobs.
pub record Job : Type 0 where
  pub id : ℕ
  pub tenant_id : ℕ
  pub receipt_id : ℕ
  pub job_attempt : ℕ
  pub status : JobStatus
  pub locked_at : Option ℕ
  pub lease_token : Option ℕ
  pub quota_blocked_until : Option ℕ
  pub attempts : ℕ
  pub last_error : Option String
  pub raw_extraction : Option Payload
  pub started_at : Option ℕ
  pub completed_at : Option ℕ
  pub created_at : ℕ

-- _LEASE_TTL_SQL and a day, in microseconds; MAX_ATTEMPTS
abbrev pub lease_ttl : ℕ
lease_ttl = 300000000

abbrev pub day : ℕ
day = 86400000000

abbrev pub max_attempts : ℕ
max_attempts = 3

-- `quota_blocked_until <= now()` and `locked_at < now() - ttl`: a NULL is no match.
abbrev is_past : ℕ → Option ℕ → Bool
is_past now none = false
is_past now (some at) = leb at now

abbrev is_stale : ℕ → Option ℕ → Bool
is_stale now none = false
is_stale now (some at) = ltb (at + lease_ttl) now

abbrev pub is_open_job : ℕ → JobStatus → (quota_blocked_until locked_at : Option ℕ) → Bool
is_open_job now JobStatus.pending blocked locked = true
is_open_job now JobStatus.failed blocked locked = true
is_open_job now JobStatus.quota_blocked blocked locked = is_past now blocked
is_open_job now JobStatus.processing blocked locked = is_stale now locked
is_open_job now _ blocked locked = false

-- The WHERE clause of _CLAIM_SQL.
unfoldable pub is_claimable : ℕ → Job → Bool
is_claimable now j = is_open_job now j.status j.quota_blocked_until j.locked_at

abbrev is_older : Job → Option Job → Bool
is_older j none = true
is_older j (some best) = ltb j.created_at best.created_at

-- ORDER BY created_at LIMIT 1, with the row that wins so far.
unfoldable pub oldest : ℕ → Option Job → List Job → Option Job
oldest now best [] = best
oldest now best (j ∷ js) =
    oldest now (if is_claimable now j && is_older j best then some j else best) js

abbrev coalesce : Option ℕ → ℕ → Option ℕ
coalesce (some a) b = some a
coalesce none b = some b

abbrev pub has_job_id : ℕ → Job → Bool
has_job_id jid j = j.id == jid

unfoldable pub stamp : (now token : ℕ) → Job → Job
stamp now token j = record j {
  status = JobStatus.processing;
  locked_at = some now;
  lease_token = some token;
  started_at = coalesce j.started_at now;
}

-- _claim: the table, and the row that RETURNING gives. `token` is gen_random_uuid().
unfoldable pub claim : (now token : ℕ) → List Job → List Job × Option Job
claim now token jobs = elim (oldest now none jobs) [
  | none ↦ (jobs, none)
  | some j ↦ (update_where (has_job_id j.id) (stamp now token) jobs, some (stamp now token j))
]

-- `WHERE id=:jid AND lease_token=:tok`
abbrev pub holds_lease : (jid token : ℕ) → Job → Bool
holds_lease jid token j = j.id == jid && sql_eq j.lease_token (some token)

-- A fenced UPDATE ... RETURNING id: the table, and whether the fence held.
unfoldable pub fenced : (jid token : ℕ) → (Job → Job) → List Job → List Job × Bool
fenced jid token f jobs =
    (update_where (holds_lease jid token) f jobs, any (holds_lease jid token) jobs)

abbrev or_error : Option String → Option String → Option String
or_error (some a) b = some a
or_error none b = b

abbrev or_attempts : Option ℕ → ℕ → ℕ
or_attempts (some a) b = a
or_attempts none b = b

-- _terminal. The error is cut to 500 characters before.
unfoldable pub terminal :
    (now jid token : ℕ)
    → JobStatus
    → Option String
    → (attempts : Option ℕ) → List Job
    → List Job × Bool
terminal now jid token st error attempts = fenced jid token (λ j. record j {
  status = st;
  completed_at = some now;
  last_error = or_error error j.last_error;
  attempts = or_attempts attempts j.attempts;
})

-- _checkpoint
unfoldable pub checkpoint : (jid token : ℕ) → Payload → List Job → List Job × Bool
checkpoint jid token payload = fenced jid token (λ j. record j { raw_extraction = some payload })

-- The midnight that ends the day.
abbrev pub next_midnight : ℕ → ℕ
next_midnight now = (now / day + 1) * day

-- The job's half of _quota_block.
unfoldable pub quota_block_job : (now jid token : ℕ) → List Job → List Job × Bool
quota_block_job now jid token = fenced jid token (λ j. record j {
  status = JobStatus.quota_blocked;
  quota_blocked_until = some (next_midnight now);
})

-- The retriable half of _transient_fail, which gives the lease up.
unfoldable pub retry_job : (jid token new_attempts : ℕ) → String → List Job → List Job × Bool
retry_job jid token new_attempts error = fenced jid token (λ j. record j {
  status = JobStatus.failed;
  attempts = new_attempts;
  last_error = some error;
  lease_token = none;
})

-- A row of tenant_extraction_rate_limits. `window_started_at` is a number of days.
pub record RateLimit : Type 0 where
  pub tenant_id : ℕ
  pub daily_cap : ℕ
  pub jobs_today : ℕ
  pub window_started_at : Option ℕ

abbrev pub has_tenant : ℕ → RateLimit → Bool
has_tenant tid r = r.tenant_id == tid

-- `window_started_at < today`: a NULL is no match.
abbrev pub is_before : ℕ → Option ℕ → Bool
is_before today none = false
is_before today (some w) = ltb w today

-- DO UPDATE ... WHERE
abbrev pub may_charge : ℕ → RateLimit → Bool
may_charge today r = is_before today r.window_started_at || ltb r.jobs_today r.daily_cap

abbrev pub charged : ℕ → RateLimit → RateLimit
charged today r = record r {
  jobs_today = if is_before today r.window_started_at then 1 else r.jobs_today + 1;
  window_started_at = some today;
}

-- The first charge of a tenant, with the column's default cap.
abbrev pub first_charge : (today tid : ℕ) → RateLimit
first_charge today tid = record {
  tenant_id = tid;
  daily_cap = 50;
  jobs_today = 1;
  window_started_at = some today;
}

-- _charge_quota: the table, and jobs_today or none where the cap is reached.
unfoldable pub charge_quota : (now tid : ℕ) → List RateLimit → List RateLimit × Option ℕ
charge_quota now tid limits =
    let today = now / day in
    elim (find_first (has_tenant tid) limits) [
      | none ↦ (first_charge today tid ∷ limits, some 1)
      | some r ↦
          if may_charge today r
          then (
            update_where (λ x. has_tenant tid x && may_charge today x) (charged today) limits,
            some (charged today r).jobs_today,
          )
          else (limits, none)
    ]
