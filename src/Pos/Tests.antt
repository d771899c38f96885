-- ===== src/Pos/Tests.antt =====
-- Runs of the worker: the orders of a till, and its inbox.
mod Lines
use mathlib.Core.List.{Permᴰ}
use reorder_os.Prelude.{
  if◌then◌else◌, Bool, List, ◌≤◌, ◌≡◌, ◌≢◌, refl, ◌⊎◌, true, false, none, some, [], ◌∷◌, arith, All,
  select, find_first,
}
use reorder_os.Prelude.Int.{pos, ◌-ℤ◌}
use reorder_os.Schema.{paid, refunded, locked}
use reorder_os.Pos.Payment.{
  OrderData, OrderRecord, priority, merge, is_order, upsert_order, derive_payment_state,
  parse_state,
}
use reorder_os.Pos.Payment.Merge.{
  merge-priority, merge_all, merge_all_order, upsert_order_stored, upsert_order_stale_subtotal,
}
use reorder_os.Pos.Inbox.{
  Event, pending, create, Queue, is_claimable, claim_batch, choose, is_chosen, has_inbox_id,
  mark_failed,
}
use reorder_os.Pos.Reconcile.{
  Connection, ListOrders, max_pages, Site, is_same_event, upsert_inbox, is_finished,
  has_connection_id, scan_connection, scan, store_page, store_order, start_of, reconcile_connection,
  finish_run, persist_run_result, mark_started,
}
use reorder_os.Pos.Reconcile.Runs.{Run, highest}
use reorder_os.Pos.Reconcile.Cursor.{upsert_inbox_queues, reconcile_connection-cursor}
use reorder_os.Pos.Inbox.Claims.{claim_batch_exclusive, mark_failed_never_claimable}

merge_all_order_example :
    merge_all paid (refunded ∷ paid ∷ []) ≡ merge_all paid (paid ∷ refunded ∷ [])
merge_all_order_example =
    merge_all_order paid (refunded ∷ paid ∷ []) (paid ∷ refunded ∷ []) ∣ Permᴰ.swap refl refl ∣₁

-- An order of 12 dollars, paid, that a later event says was 15.
abbrev order_row : OrderRecord
order_row = record {
  id = 3;
  tenant_id = 1;
  pos_event_inbox_id = 8;
  clover_order_id = "O";
  subtotal_cents = pos 1100;
  discount_amount_cents = pos 0;
  tax_amount_cents = pos 100;
  total_amount_cents = pos 1200;
  state = locked;
  payment_state = paid;
  payment_state_previous = none;
  opened_at = none;
  closed_at = none;
  processed_at = 50;
}

abbrev pub later : OrderData
later = record {
  clover_order_id = "O";
  payment_state = some "PAID";
  total = some (pos 1500);
  tax_amount = some (pos 100);
  discount_amount = none;
  refund_total = none;
  payments = [];
  pay_type = none;
  state = some "locked";
  created_ms = none;
  modified_ms = none;
  line_items = [];
}

derive_payment_state-run : derive_payment_state later ≡ paid
unfolding derive_payment_state parse_state
derive_payment_state-run = refl

changed : pos 1100 ≢ (pos 1500 -ℤ pos 100 -ℤ pos 0)
unfolding ◌-ℤ◌
changed = λ e. ground arith

upsert_order_stale_subtotal_example :
    (r' : OrderRecord) × (find_first
        (is_order 1 "O")
        (upsert_order 4 1 9 60 later (order_row ∷ [])).0
      ≡ some r')
    × (r'.subtotal_cents
        ≢ (r'.total_amount_cents -ℤ r'.tax_amount_cents -ℤ r'.discount_amount_cents))
upsert_order_stale_subtotal_example =
    upsert_order_stale_subtotal 4 1 9 60 later (order_row ∷ []) order_row refl changed

-- The inbox with one event.
abbrev pub event : Event
event = record {
  inbox_id = 8;
  tenant_id = 1;
  vendor_event_id = "O";
  is_order = true;
  event_type = create;
  vendor_ts = 10;
  state = pending;
  received_at = 20;
  next_attempt_at = none;
  processing_started_at = none;
  claim_expires_at = none;
  processed_at = none;
  retry_count = 0;
  last_error = "";
  fetched_payload = none;
}

claim_batch_exclusive_example :
    let rows = select (is_chosen (choose 100 5 (event ∷ []))) (claim_batch 100 5 (event ∷ [])).0 in
    All (λ e. is_claimable 300000100 e ≡ false) rows × ((claim_batch 100 5 (event ∷ [])).1 ≡ rows)
claim_batch_exclusive_example = claim_batch_exclusive 100 300000100 5 (event ∷ []) (omega arith)

abbrev queue : Queue
queue = record { events = event ∷ []; alerts = [] }

mark_failed_never_claimable_example :
    All
      (λ x. is_claimable 999999999999 x ≡ false)
      (select (has_inbox_id 8) (mark_failed (λ s. s) (λ s. s) 100 event "timeout" queue).events)
mark_failed_never_claimable_example =
    mark_failed_never_claimable (λ s. s) (λ s. s) 100 999999999999 event "timeout" queue

-- A connection that was reconciled up to 400000, and Clover with one locked order, or none.
abbrev connection : Connection
connection = record {
  connection_id = 2;
  tenant_id = 1;
  is_active = true;
  last_reconciliation_at = none;
  last_reconciliation_cursor = some 400000;
  initial_sync_started_at = none;
  initial_sync_completed_at = none;
}

abbrev one_order : ListOrders
one_order since offset size = some (record later { modified_ms = some 500000 } ∷ [])

abbrev no_orders : ListOrders
no_orders since offset size = some []

abbrev no_raise : OrderData → Bool
no_raise o = false

abbrev site : Site
site = record { connections = connection ∷ []; events = []; next_id = 9 }

scan_connection-run :
    (scan_connection no_raise one_order 1000 700000 connection site).0.new_cursor ≡ 500000
unfolding scan_connection scan store_page store_order
scan_connection-run = refl

reconcile_connection-cursor_example :
    (orders : List OrderData) × (returned : Bool) × Run no_raise one_order
      (start_of 700000 (some 400000))
      max_pages
      0
      orders
      returned
    × ((c' : Connection) × (find_first
            (has_connection_id 2)
            (reconcile_connection (λ c. some one_order) no_raise 1000 700000 2 site).connections
          ≡ some c')
        × (c'.last_reconciliation_at ≡ some 1000)
        × (c'.last_reconciliation_cursor
            ≡ (if returned then some (highest 400000 orders) else some 400000)))
reconcile_connection-cursor_example =
    reconcile_connection-cursor (λ c. some one_order) no_raise 1000 700000 2 site connection
      one_order refl refl refl

-- An initial run that sees no locked order stores the cursor 0, from which the next run starts at
-- the epoch, not at the lookback.
abbrev new_connection : Connection
new_connection = record connection { last_reconciliation_cursor = none }

reconcile_connection-initial_empty :
    (reconcile_connection
      (λ c. some no_orders)
      no_raise
      1000
      9000000000
      2
      (record site { connections = new_connection ∷ [] })).connections
    ≡ record new_connection {
      last_reconciliation_at = some 1000;
      last_reconciliation_cursor = some 0;
      initial_sync_started_at = some 1000;
      initial_sync_completed_at = some 1000;
    }
      ∷ []
unfolding reconcile_connection scan_connection scan store_page finish_run persist_run_result
    mark_started
reconcile_connection-initial_empty = refl

start_of-initial : start_of 9000000000 none ≡ 6408000000
unfolding start_of
start_of-initial = refl

start_of-after : start_of 9000000000 (some 0) ≡ 0
unfolding start_of
start_of-after = refl
