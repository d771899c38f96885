-- ===== src/Pos/Reconcile.antt =====
-- reconcile_connection of backend/app/modules/pos/reconciliation.py. Clover's list_orders is a
-- parameter (`none` where the call raises), and so is the decryption of the connection's token, on
-- which it depends; `raises` says for which orders _upsert_inbox does. The two UPDATEs of the
-- connection are taken to succeed. A run has one instant. Each order is stored in its own transaction, so what a
-- failed run has stored stays.
pub mod Runs
pub mod Cursor
use reorder_os.Prelude.{
  ℕ, zero, suc, ◌+◌, ◌-◌, String, Bool, true, false, ◌&&◌, Option, none, some, List, [], ◌∷◌, any,
  find_first, update_where, length, ltb, ◌==◌, str_eq, if◌then◌else◌,
}
use reorder_os.Pos.Payment.{OrderData}
use reorder_os.Pos.Inbox.{
  Event, EventState, EventType, pending, processing, processed, failed, dead, update,
}

-- A row of tenant_pos_connections. The cursor is in milliseconds.
pub record Connection : Type 0 where
  pub connection_id : ℕ
  pub tenant_id : ℕ
  pub is_active : Bool
  pub last_reconciliation_at : Option ℕ
  pub last_reconciliation_cursor : Option ℕ
  pub initial_sync_started_at : Option ℕ
  pub initial_sync_completed_at : Option ℕ

-- list_orders(since_ms, offset, limit)
abbrev pub ListOrders : Type 0
ListOrders = (since_ms offset limit : ℕ) → Option (List OrderData)

abbrev pub batch_size : ℕ
batch_size = 100

abbrev pub overlap_ms : ℕ
overlap_ms = 300000

abbrev pub max_pages : ℕ
max_pages = 50

-- INITIAL_LOOKBACK_DAYS, in milliseconds
abbrev pub lookback_ms : ℕ
lookback_ms = 2592000000

-- The inbox, the generator of its ids, and the local `new_cursor`.
pub record Scan : Type 0 where
  pub events : List Event
  pub next_id : ℕ
  pub new_cursor : ℕ

abbrev is_update : EventType → Bool
is_update update = true
is_update _ = false

-- pos_inbox_dedup_unique
unfoldable pub is_same_event : (tid : ℕ) → String → (ms : ℕ) → Event → Bool
is_same_event tid order_id ms e =
    e.tenant_id == tid
    && str_eq e.vendor_event_id order_id
    && is_update e.event_type
    && (e.vendor_ts == ms)

abbrev pub is_finished : EventState → Bool
is_finished processed = true
is_finished dead = true
is_finished _ = false

-- DO UPDATE SET
unfoldable pub requeue : (now : ℕ) → OrderData → Event → Event
requeue now o e = record e {
  fetched_payload = some o;
  state = if is_finished e.state then pending else e.state;
  next_attempt_at = if is_finished e.state then some now else e.next_attempt_at;
}

unfoldable pub upsert_inbox : (new_id now tid : ℕ) → OrderData → (ms : ℕ) → List Event → List Event
upsert_inbox new_id now tid o ms es =
    if any (is_same_event tid o.clover_order_id ms) es
    then update_where (is_same_event tid o.clover_order_id ms) (requeue now o) es
    else record {
      inbox_id = new_id;
      tenant_id = tid;
      vendor_event_id = o.clover_order_id;
      is_order = true;
      event_type = update;
      vendor_ts = ms;
      state = pending;
      received_at = now;
      next_attempt_at = none;
      processing_started_at = none;
      claim_expires_at = none;
      processed_at = none;
      retry_count = 0;
      last_error = "";
      fetched_payload = some o;
    }
      ∷ es

-- _safe_ms
abbrev pub safe_ms : Option ℕ → ℕ
safe_ms none = 0
safe_ms (some ms) = ms

abbrev pub is_locked_order : OrderData → Bool
is_locked_order o = elim o.state [ none ↦ false | some s ↦ str_eq s "locked" ]

-- One turn of the loop over a page; false where _upsert_inbox raised.
unfoldable pub store_order :
    (raises : OrderData → Bool) → (now tid : ℕ) → OrderData → Scan → Scan × Bool
store_order raises now tid o s =
    let ms = safe_ms o.modified_ms in
    let cursor = if ltb s.new_cursor ms then ms else s.new_cursor in
    if is_locked_order o
    then if raises o then (record s { new_cursor = cursor }, false) else (
      record {
        events = upsert_inbox s.next_id now tid o ms s.events;
        next_id = s.next_id + 1;
        new_cursor = cursor;
      },
      true,
    )
    else (s, true)

unfoldable pub store_page :
    (raises : OrderData → Bool) → (now tid : ℕ) → List OrderData → Scan → Scan × Bool
store_page raises now tid [] s = (s, true)
store_page raises now tid (o ∷ os) s =
    let (s', stored) = store_order raises now tid o s in
    let rest = store_page raises now tid os s' in if stored then rest else (s', false)

-- The loop over the pages, with the number of pages that are left; false where a call raised.
unfoldable pub scan :
    (raises : OrderData → Bool)
    → (pages : ℕ) → ListOrders
    → (now tid start_ms offset : ℕ) → Scan
    → Scan × Bool
scan raises zero list_orders now tid start_ms offset s = (s, true)
scan raises (suc pages) list_orders now tid start_ms offset s =
    elim (list_orders start_ms offset batch_size) [
      | none ↦ (s, false)
      | some orders ↦
          let (s', stored) = store_page raises now tid orders s in
          let rest = scan raises pages list_orders now tid start_ms (offset + batch_size) s' in
          if stored
          then (if ltb (length orders) batch_size then (s', true) else rest)
          else (s', false)
    ]

abbrev pub existing_cursor : Connection → ℕ
existing_cursor c = safe_ms c.last_reconciliation_cursor

-- `now_ms` is the instant in milliseconds.
unfoldable pub start_of : (now_ms : ℕ) → Option ℕ → ℕ
start_of now_ms none = now_ms - lookback_ms
start_of now_ms (some cursor) = cursor - overlap_ms

abbrev or_now : ℕ → Option ℕ → Option ℕ
or_now now none = some now
or_now now (some t) = some t

abbrev pub is_none : Option ℕ → Bool
is_none none = true
is_none (some t) = false

abbrev pub has_connection_id : ℕ → Connection → Bool
has_connection_id cid c = c.connection_id == cid

-- _mark_initial_sync_started, which is called only on the initial run
unfoldable pub mark_started : (now : ℕ) → Connection → Connection
mark_started now c =
    if is_none c.last_reconciliation_cursor
    then record c { initial_sync_started_at = or_now now c.initial_sync_started_at }
    else c

-- _persist_run_result
unfoldable pub persist_run_result :
    (now new_cursor : ℕ) (is_initial success : Bool) → Connection → Connection
persist_run_result now new_cursor is_initial success c =
    if success
    then record c {
      last_reconciliation_at = some now;
      last_reconciliation_cursor = some new_cursor;
      initial_sync_completed_at =
          if is_initial
          then or_now now c.initial_sync_completed_at
          else c.initial_sync_completed_at;
    }
    else record c { last_reconciliation_at = some now }

-- The two UPDATEs of a run.
unfoldable pub finish_run :
    (now new_cursor : ℕ) (is_initial success : Bool) → Connection → Connection
finish_run now new_cursor is_initial success c =
    persist_run_result now new_cursor is_initial success
      (if is_initial then mark_started now c else c)

pub record Site : Type 0 where
  pub connections : List Connection
  pub events : List Event
  pub next_id : ℕ

-- The scan of a connection, from its existing cursor.
unfoldable pub scan_connection :
    (raises : OrderData → Bool) → ListOrders → (now now_ms : ℕ) → Connection → Site → Scan × Bool
scan_connection raises list_orders now now_ms c s =
    scan raises max_pages list_orders now c.tenant_id (start_of now_ms c.last_reconciliation_cursor)
      0 (record { events = s.events; next_id = s.next_id; new_cursor = existing_cursor c })

unfoldable pub reconcile_connection :
    (client : Connection → Option ListOrders)
    → (raises : OrderData → Bool) → (now now_ms cid : ℕ) → Site
    → Site
reconcile_connection client raises now now_ms cid s =
    elim (find_first (λ c. has_connection_id cid c && c.is_active) s.connections) [
      | none ↦ s
      | some c ↦ elim (client c) [
        | none ↦ s
        | some list_orders ↦
            let (r, success) = scan_connection raises list_orders now now_ms c s in
            record {
              connections =
                  update_where (has_connection_id cid)
                    (finish_run now r.new_cursor (is_none c.last_reconciliation_cursor) success)
                    s.connections;
              events = r.events;
              next_id = r.next_id;
            }
      ]
    ]
