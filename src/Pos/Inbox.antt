-- ===== src/Pos/Inbox.antt =====
-- The queue pos_event_inbox of backend/app/modules/pos/worker.py: claiming, the two ends of an
-- event, the backoff and the dead letter. A payload is an order of Clover.
pub mod Claims
use reorder_os.Prelude.{
  ℕ, zero, suc, ◌+◌, ◌-◌, ◌*◌, ◌^◌, String, Bool, true, false, ◌&&◌, ◌||◌, Option, none, some, List,
  [], ◌∷◌, any, map, select, update_where, ltb, leb, ◌==◌, if◌then◌else◌,
}
use reorder_os.Monitoring.{Alert, critical, dead_letter, upsert_alert}
use reorder_os.Pos.Payment.{OrderData}

pub data EventState : Type 0 where
  pending processing processed failed dead duplicate_ignored : EventState

pub data EventType : Type 0 where
  create update delete : EventType

-- A row of pos_event_inbox. `is_order` is vendor_object_type = 'O'.
pub record Event : Type 0 where
  pub inbox_id : ℕ
  pub tenant_id : ℕ
  pub vendor_event_id : String
  pub is_order : Bool
  pub event_type : EventType
  pub vendor_ts : ℕ
  pub state : EventState
  pub received_at : ℕ
  pub next_attempt_at : Option ℕ
  pub processing_started_at : Option ℕ
  pub claim_expires_at : Option ℕ
  pub processed_at : Option ℕ
  pub retry_count : ℕ
  pub last_error : String
  pub fetched_payload : Option OrderData

-- CLAIM_TTL_SECONDS, in microseconds, and MAX_RETRIES
abbrev pub claim_ttl : ℕ
claim_ttl = 300000000

abbrev pub max_retries : ℕ
max_retries = 5

abbrev is_due : ℕ → Option ℕ → Bool
is_due now none = true
is_due now (some at) = leb at now

-- `claim_expires_at < :now`: a NULL is no match.
abbrev has_expired : ℕ → Option ℕ → Bool
has_expired now none = false
has_expired now (some at) = ltb at now

abbrev pub is_open_for : ℕ → EventState → (next_attempt_at claim_expires_at : Option ℕ) → Bool
is_open_for now pending next expires = is_due now next
is_open_for now processing next expires = has_expired now expires
is_open_for now _ next expires = false

-- The WHERE clause of claim_batch.
unfoldable pub is_claimable : ℕ → Event → Bool
is_claimable now e = is_open_for now e.state e.next_attempt_at e.claim_expires_at && e.is_order

-- ORDER BY received_at ASC
unfoldable pub insert_by_received : Event → List Event → List Event
insert_by_received e [] = e ∷ []
insert_by_received e (f ∷ fs) =
    if leb e.received_at f.received_at then e ∷ f ∷ fs else f ∷ insert_by_received e fs

unfoldable pub sort_by_received : List Event → List Event
sort_by_received [] = []
sort_by_received (e ∷ es) = insert_by_received e (sort_by_received es)

-- LIMIT
unfoldable pub limit : ℕ → List Event → List Event
limit zero es = []
limit (suc n) [] = []
limit (suc n) (e ∷ es) = e ∷ limit n es

unfoldable pub mark_claimed : ℕ → Event → Event
mark_claimed now e = record e {
  state = processing;
  processing_started_at = some now;
  claim_expires_at = some (now + claim_ttl);
}

-- The CTE `claimed`. No other worker holds a lock, so SKIP LOCKED skips nothing.
unfoldable pub choose : (now batch : ℕ) → List Event → List Event
choose now batch es = limit batch (sort_by_received (select (is_claimable now) es))

abbrev pub has_inbox_id : ℕ → Event → Bool
has_inbox_id id e = e.inbox_id == id

-- `inbox_id IN (SELECT inbox_id FROM claimed)`
abbrev pub is_chosen : List Event → Event → Bool
is_chosen chosen e = any (has_inbox_id e.inbox_id) chosen

-- The rows after the UPDATE, and those that RETURNING gives.
unfoldable pub claim_batch : (now batch : ℕ) → List Event → List Event × List Event
claim_batch now batch es =
    let chosen = choose now batch es in
    (
      update_where (is_chosen chosen) (mark_claimed now) es,
      map (mark_claimed now) (select (is_chosen chosen) es),
    )

unfoldable pub mark_processed : (now id : ℕ) → List Event → List Event
mark_processed now id =
    update_where (has_inbox_id id)
      (λ e. record e { state = processed; processed_at = some now; claim_expires_at = none })

-- The inbox and the alerts.
pub record Queue : Type 0 where
  pub events : List Event
  pub alerts : List Alert

-- _dead_letter. The error is cut to 2000 characters by `cut` (500 in the payload by `cut_short`).
unfoldable pub dead_letter_event :
    (cut cut_short : String → String)
    → (now : ℕ) → Event
    → String
    → (retry_count : ℕ) → Queue
    → Queue
dead_letter_event cut cut_short now e error count q = record {
  events =
      update_where (has_inbox_id e.inbox_id)
        (λ x. record x { state = dead; retry_count = count; last_error = cut error }) q.events;
  alerts =
      upsert_alert false now e.tenant_id "pos_event_dead_letter" critical
        (dead_letter e.inbox_id e.vendor_event_id (cut_short error)) q.alerts;
}

-- 2^(n-1) minutes
abbrev pub backoff : ℕ → ℕ
backoff retry_count = 2 ^ (retry_count - 1) * 60000000

-- `e` is the row as it was claimed, whose retry_count is the one that is counted on.
unfoldable pub mark_failed :
    (cut cut_short : String → String) → (now : ℕ) → Event → String → Queue → Queue
mark_failed cut cut_short now e error q =
    let retry_count = e.retry_count + 1 in
    if leb max_retries retry_count
    then dead_letter_event cut cut_short now e error retry_count q
    else record q {
      events =
          update_where (has_inbox_id e.inbox_id)
            (λ x. record x {
              state = failed;
              retry_count = retry_count;
              last_error = cut error;
              next_attempt_at = some (now + backoff retry_count);
            })
            q.events;
    }
