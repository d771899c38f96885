-- ===== src/Pos/Reconcile/Cursor.antt =====
-- The cursor and the requeue of pos/reconciliation.py.
use reorder_os.Prelude.{
  ℕ, ◌≡◌, refl, ap, ◌∙◌, inl, inr, Bool, true, false, Option, some, List, arith, any, find_first,
  ==_refl, str_eq_iff, if◌then◌else◌, String, Bool-cases,
}
use reorder_os.Prelude.Finds.{find_updated, find-any, find_first-and}
use reorder_os.Pos.Payment.{OrderData}
use reorder_os.Pos.Inbox.{Event}
use reorder_os.Pos.Reconcile.Runs.{Run, highest, scan-Scanned}
use reorder_os.Pos.Reconcile.{
  Connection, ListOrders, Site, is_same_event, is_finished, requeue, upsert_inbox, max_pages,
  start_of, existing_cursor, has_connection_id, mark_started, finish_run, is_none,
  persist_run_result, scan_connection, reconcile_connection,
}

requeue-unfinished :
    (now : ℕ) (o : OrderData) (e : Event) → is_finished (requeue now o e).state ≡ false
unfolding requeue
requeue-unfinished now o e = ground arith

requeue_same :
    (now tid ms : ℕ) (id : String) (o : OrderData) (e : Event)
    → is_same_event tid id ms e ≡ true
    → is_same_event tid id ms (requeue now o e) ≡ true
unfolding requeue is_same_event
requeue_same now tid ms id o e h = h

requeue-payload : (now : ℕ) (o : OrderData) (e : Event) → (requeue now o e).fetched_payload ≡ some o
unfolding requeue
requeue-payload now o e = refl

-- After the upsert of an order the inbox has its event, with the order as the payload, in another
-- state than 'processed' and 'dead_letter'.
pub upsert_inbox_queues :
    (new_id now tid : ℕ) (o : OrderData) (ms : ℕ) (es : List Event)
    → (e : Event) × (find_first
          (is_same_event tid o.clover_order_id ms)
          (upsert_inbox new_id now tid o ms es)
        ≡ some e)
      × (e.fetched_payload ≡ some o)
      × (is_finished e.state ≡ false)
unfolding upsert_inbox is_same_event
upsert_inbox_queues new_id now tid o ms es =
    elim (Bool-cases (any (is_same_event tid o.clover_order_id ms) es)) [
      | inl present ↦
          let (e, found) = find-any (is_same_event tid o.clover_order_id ms) es present in
          rw present (
            requeue now o e,
            find_updated (is_same_event tid o.clover_order_id ms) (requeue now o)
                (requeue_same now tid ms o.clover_order_id o) es e found,
            requeue-payload now o e,
            requeue-unfinished now o e,
          )
      | inr absent ↦ rw absent (
          rw (==_refl tid, (str_eq_iff o.clover_order_id o.clover_order_id).1 refl, ==_refl ms)
            (_, refl, refl, refl))
    ]

finish_run-lem :
    (now cursor : ℕ) (initial success : Bool) (c : Connection)
    → let c' = finish_run now cursor initial success c in
      (c'.connection_id ≡ c.connection_id)
      × (c'.last_reconciliation_at ≡ some now)
      × (c'.last_reconciliation_cursor
          ≡ (if success then some cursor else c.last_reconciliation_cursor))
unfolding finish_run persist_run_result mark_started
finish_run-lem now cursor initial success c = (ground arith, ground arith, ground arith)

finish_run_same :
    (now cursor cid : ℕ) (initial success : Bool) (c : Connection)
    → has_connection_id cid c ≡ true
    → has_connection_id cid (finish_run now cursor initial success c) ≡ true
finish_run_same now cursor cid initial success c h =
    rw (finish_run-lem now cursor initial success c).0 h

-- A run on an active connection with a client reads some pages of Clover, and leaves the connection
-- with the instant of the run. If every call of Clover and every insert of a locked order returned,
-- its cursor is the highest modifiedTime of the locked orders that were read, or the existing cursor
-- where that is higher; if one raised, it is the cursor that it had.
pub reconcile_connection-cursor :
    (client : Connection → Option ListOrders) (raises : OrderData → Bool) (now now_ms cid : ℕ)
    (s : Site) (c : Connection) (list_orders : ListOrders)
    → find_first (has_connection_id cid) s.connections ≡ some c
    → c.is_active ≡ true
    → client c ≡ some list_orders
    → (orders : List OrderData) × (returned : Bool) × Run raises list_orders
        (start_of now_ms c.last_reconciliation_cursor)
        max_pages
        0
        orders
        returned
      × ((c' : Connection) × (find_first
              (has_connection_id cid)
              (reconcile_connection client raises now now_ms cid s).connections
            ≡ some c')
          × (c'.last_reconciliation_at ≡ some now)
          × (c'.last_reconciliation_cursor ≡ (
              if returned
              then some (highest (existing_cursor c) orders)
              else c.last_reconciliation_cursor)))
unfolding reconcile_connection scan_connection
reconcile_connection-cursor client raises now now_ms cid s c list_orders found active ready =
    let out = scan_connection raises list_orders now now_ms c s in
    let initial = is_none c.last_reconciliation_cursor in
    let done = finish_run-lem now out.0.new_cursor initial out.1 c in
    let scanned =
      scan-Scanned raises list_orders now c.tenant_id (start_of now_ms c.last_reconciliation_cursor)
        max_pages 0
        (record { events = s.events; next_id = s.next_id; new_cursor = existing_cursor c }) in
    (
      scanned.orders,
      out.1,
      scanned.run,
      rw
          (
            find_first-and (has_connection_id cid) (λ x. x.is_active) s.connections c found active,
            reconcile_connection,
          )
          (rw (ready, reconcile_connection)
            (
              finish_run now out.0.new_cursor initial out.1 c,
              find_updated (has_connection_id cid) (finish_run now out.0.new_cursor initial out.1)
                  (finish_run_same now out.0.new_cursor cid initial out.1) s.connections c found,
              done.1,
              done.2 ∙ chosen c.last_reconciliation_cursor out.1 scanned.cursor_of,
            )),
    )
  where
    chosen :
        {n m : ℕ} (old : Option ℕ) (b : Bool)
        → (b ≡ true → n ≡ m)
        → (if b then some n else old) ≡ (if b then some m else old)
    chosen old true h = ap some (h refl)
    chosen old false h = refl
