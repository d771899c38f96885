-- ===== src/Pos/Process.antt =====
-- process_event of backend/app/modules/pos/worker.py, with the handler of `run` around it. What
-- the environment decides is a parameter: what Clover answers, which transaction raises, and the
-- texts of the errors. A transaction that raises leaves what was committed before it. A step
-- answers the database and whether it returned: false where an exception leaves it.
pub mod Settled
pub mod Frozen
use reorder_os.Prelude.{
  ℕ, ◌+◌, String, Bool, true, false, not, ◌&&◌, ◌||◌, Option, none, some, List, [], ◌∷◌, map,
  select, find_first, update_where, is_some, str_eq, ◌==◌, if◌then◌else◌,
}
use reorder_os.Prelude.Result.{Result, ok, err}
use reorder_os.Prelude.Decimal.{Decimals}
use reorder_os.Schema.{SaleLine, DepletionStatus}
use reorder_os.Depletion.Writer.{ReversalError}
use reorder_os.Depletion.Handler.{Db, OrderRow, is_line, terminal, reverse_line, process_line}
use reorder_os.Pos.Payment.{OrderData, OrderRecord, LineItem, from_ms, upsert_order}
use reorder_os.Pos.Lines.{Floats, Menu, Sales, ingest_lines}
use reorder_os.Pos.Inbox.{Event, Queue, has_inbox_id, mark_processed, mark_failed}

pub data Failure : Type 0 where
  no_connection token_expired rate_limited other_error ingest_error refund_error scan_error
        lines_failed unhandled :
      Failure

-- The connection's row, the decryption of its token, and get_order. `unguarded` where the SELECT
-- or the decryption raises, which no handler of process_event surrounds.
pub data Fetch : Type 0 where
  not_connected unguarded order_not_found : Fetch
  raised : Failure → Fetch
  fetched : OrderData → Fetch

-- The transactions of process_event: the saved payload, T1, the SELECT of T2, mark_processed and
-- mark_failed (with _dead_letter), each refund and each line. `handler` is the mark_failed of run.
pub data Stage : Type 0 where
  payload ingest scan acknowledge failure handler : Stage
  refund : String → Stage
  line : ℕ → Stage

pub record Env : Type 0 where
  pub fetch : Event → Fetch
  pub raises : Stage → Bool
  pub text_of : Failure → String
  pub cut : String → String
  pub cut_short : String → String
  pub floats : Floats

-- The database: the inbox, the orders, and what the depletion reads and writes.
pub record World : Type 0 where
  pub events : List Event
  pub orders : List OrderRecord
  pub menu : Menu
  pub next_id : ℕ
  pub db : Db

abbrev pub queue_of : World → Queue
queue_of w = record { events = w.events; alerts = w.db.alerts }

abbrev pub with_queue : Queue → World → World
with_queue q w = record w { events = q.events; db = record w.db { alerts = q.alerts } }

unfoldable pub finish : Event → World → World
finish e w = record w { events = mark_processed w.db.ledger.now e.inbox_id w.events }

unfoldable pub fail : Env → Event → Failure → World → World
fail env e f w =
    with_queue (mark_failed env.cut env.cut_short w.db.ledger.now e (env.text_of f) (queue_of w)) w

-- mark_processed, which may raise.
unfoldable pub try_finish : Env → Event → World → World × Bool
try_finish env e w = if env.raises acknowledge then (w, false) else (finish e w, true)

-- mark_failed, which may raise.
unfoldable pub try_fail : Env → Event → Failure → World → World × Bool
try_fail env e f w = if env.raises failure then (w, false) else (fail env e f w, true)

-- Step 2.
unfoldable pub save_payload : Event → OrderData → World → World
save_payload e o w = record w {
  events =
      update_where (has_inbox_id e.inbox_id) (λ x. record x { fetched_payload = some o }) w.events;
}

abbrev pub is_locked_order : OrderData → Bool
is_locked_order o = elim o.state [ none ↦ false | some s ↦ str_eq s "locked" ]

abbrev pub order_row : OrderRecord → OrderRow
order_row r = record { id = r.id; payment_state = r.payment_state; state = r.state }

abbrev sales_of : World → Sales
sales_of w = record { next_id = w.next_id; lines = w.db.lines; slims = w.db.slims }

-- T1: the order, its lines and their modifiers. `closed_at`, `opened_at` and the ids as in the parts.
unfoldable pub ingest_order : Env → (tid : ℕ) → Event → OrderData → World → World × ℕ
ingest_order env tid e o w =
    let (orders, oid) = upsert_order w.next_id tid e.inbox_id w.db.ledger.now o w.orders in
    let s =
      ingest_lines env.floats tid oid o.line_items w.menu
        (record (sales_of w) { next_id = w.next_id + 1 }) in
    (
      record w {
        orders = orders;
        next_id = s.next_id;
        db = record w.db { orders = map order_row orders; lines = s.lines; slims = s.slims };
      },
      oid,
    )

-- [li["id"] for li in line_items if ... li.get("refunded")]
unfoldable pub refunded_ids : List LineItem → List String
refunded_ids [] = []
refunded_ids (li ∷ lis) = elim li.line_item_id [
  | none ↦ refunded_ids lis
  | some id ↦ if not (str_eq id "") && li.refunded then id ∷ refunded_ids lis else refunded_ids lis
]

-- The SELECT of the line that a refund names.
unfoldable pub is_refund_of : (tid oid : ℕ) → String → SaleLine → Bool
is_refund_of tid oid cid l =
    l.tenant_id == tid && (l.order_id == oid) && str_eq l.clover_line_item_id cid

abbrev pub mark_refunded : (tid sli : ℕ) → List SaleLine → List SaleLine
mark_refunded tid sli = update_where (is_line tid sli) (λ l. record l { is_refunded = true })

-- The SELECT of T2.
unfoldable pub is_open_line : (tid oid : ℕ) → SaleLine → Bool
is_open_line tid oid l =
    l.tenant_id == tid && (l.order_id == oid) && not (is_some (terminal l.depletion_status))

abbrev pub open_ids : (tid oid : ℕ) → List SaleLine → List ℕ
open_ids tid oid ls = map (λ l. l.id) (select (is_open_line tid oid) ls)

module _ ⦃dec : Decimals⦄ where
  -- T1.5 for one refund: the flag and the reversal, in one transaction.
  unfoldable pub refund_one : (tid oid : ℕ) → String → Db → Result ReversalError Db
  refund_one tid oid cid db = elim (find_first (is_refund_of tid oid cid) db.lines) [
    | none ↦ ok db
    | some l ↦ elim (reverse_line tid l.id db.ledger) [
      | err x ↦ err x
      | ok (ledger, n) ↦ ok (record db { ledger = ledger; lines = mark_refunded tid l.id db.lines })
    ]
  ]

  -- The refunds in order; false where one raised, at which the event has failed.
  unfoldable pub refund_lines : Env → (tid oid : ℕ) → List String → Db → Db × Bool
  refund_lines env tid oid [] db = (db, true)
  refund_lines env tid oid (cid ∷ cids) db =
      if env.raises (refund cid) then (db, false) else elim (refund_one tid oid cid db) [
        | err x ↦ (db, false)
        | ok db' ↦ refund_lines env tid oid cids db'
      ]

  -- T2 for one line; false where it raised.
  unfoldable pub deplete_one : Env → (tid : ℕ) → Option ℕ → ℕ → Db → Db × Bool
  deplete_one env tid at sli db =
      if env.raises (line sli) then (db, false) else elim (process_line tid sli at true db) [
        | err x ↦ (db, false)
        | ok (db', out) ↦ (db', true)
      ]

  -- T2 for each pending line, whether or not those before it raised.
  unfoldable pub deplete_lines : Env → (tid : ℕ) → Option ℕ → List ℕ → Db → Db × Bool
  deplete_lines env tid at [] db = (db, true)
  deplete_lines env tid at (sli ∷ slis) db =
      let (db', done) = deplete_one env tid at sli db in
      let (db'', rest) = deplete_lines env tid at slis db' in (db'', done && rest)

  -- After T1.5.
  unfoldable pub deplete_order : Env → (tid oid : ℕ) → Event → OrderData → World → World × Bool
  deplete_order env tid oid e o w =
      if env.raises scan
      then try_fail env e scan_error w
      else (let (db, done) =
            deplete_lines env tid (from_ms o.created_ms) (open_ids tid oid w.db.lines) w.db in
          if done
          then try_finish env e (record w { db = db })
          else try_fail env e lines_failed (record w { db = db }))

  -- Steps 3 and 4.
  unfoldable pub process_order : Env → Event → OrderData → World → World × Bool
  process_order env e o w =
      let tid = e.tenant_id in
      if not (is_locked_order o)
      then try_finish env e w
      else if env.raises ingest
      then try_fail env e ingest_error w
      else (let (w', oid) = ingest_order env tid e o w in
          let (db, done) = refund_lines env tid oid (refunded_ids o.line_items) w'.db in
          if done
          then deplete_order env tid oid e o (record w' { db = db })
          else try_fail env e refund_error (record w' { db = db }))

  -- Steps 1 and 2.
  unfoldable pub process_fetched : Env → Event → World → Fetch → World × Bool
  process_fetched env e w not_connected = try_fail env e no_connection w
  process_fetched env e w unguarded = (w, false)
  process_fetched env e w order_not_found = try_finish env e w
  process_fetched env e w (raised f) = try_fail env e f w
  process_fetched env e w (fetched o) =
      if env.raises payload then (w, false) else process_order env e o (save_payload e o w)

  -- `if pre_fetched`
  unfoldable pub process_saved : Env → Event → World → Option OrderData → World × Bool
  process_saved env e w (some o) = process_order env e o w
  process_saved env e w none = process_fetched env e w (env.fetch e)

  unfoldable pub process_event : Env → Event → World → World × Bool
  process_event env e w = process_saved env e w e.fetched_payload

  -- The handler of `run`. What its own mark_failed raises leaves `run`.
  abbrev pub caught : Env → Event → World × Bool → World × Bool
  caught env e (w, true) = (w, true)
  caught env e (w, false) =
      if env.raises handler then (w, false) else (fail env e unhandled w, true)

  -- The body of the loop in `run`.
  unfoldable pub run_event : Env → Event → World → World × Bool
  run_event env e w = caught env e (process_event env e w)
