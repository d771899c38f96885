-- ===== src/Lib.antt =====
-- ReorderOS: the backend that turns the sales of a restaurant's till into movements of its stock.
--
-- The program's parts. The till (Clover) sends events into an inbox; a worker claims them, writes
-- the order and its lines, and runs the depletion pipeline on each line. The pipeline decides
-- whether the line depletes, walks its recipe, converts units, and writes movements into an
-- append-only ledger; a refund writes their reversals. Opening balances, physical counts and
-- receipts write the same ledger, from which the stock on hand is a sum. A receipt is a photograph
-- whose lines a second worker extracts with a language model and an operator reviews before it is
-- committed. Operators draft the recipes that the pipeline walks, and confirm them. Requests of
-- the API carry idempotency keys.
--
-- Files, and the code that they model (paths from the repository's root):
--   Prelude and below: lists as tables, Boolean tests, integers, exceptions as Result, and Decimals,
--     the interface to decimal arithmetic.
--   Schema: the tables (backend/alembic/versions) as records and data types.
--   Monitoring: the upsert into monitoring_alerts, which three places of the code write out.
--   Depletion (backend/app/modules/inventory/depletion): Units (units.py), Conversions
--     (conversions.py), Resolver (resolver.py), Writer (writer.py), Walker (walker.py: walk_base,
--     walk_modifiers), Handler (handler.py: process_line, reverse_line).
--   Inventory (backend/app/modules/inventory): OnHand, Opening, Count, Receipt (services.py: on_hand,
--     record_opening_balance, record_count_event, commit_receipt), Stock (its tables), Idempotency
--     (idempotency.py: check_and_lock, store_response), Resolver (item_resolver.py:
--     resolve_inventory_item).
--   Pos (backend/app/modules/pos): Payment (worker.py: _derive_payment_state, _upsert_order), Inbox
--     (worker.py: claim_batch, mark_processed, mark_failed, _dead_letter), Lines (worker.py:
--     _insert_line_item, _snapshot_modifiers), Process (worker.py: process_event and the body of
--     run), Reconcile (reconciliation.py: reconcile_connection and its helpers), Webhook (webhook.py:
--     handle_clover_webhook).
--   Receipts (backend/app/modules/receipts): the tables; Desk (services.py and repo.py: drafts,
--     their states, notes, _touch_review), Reset (services.py: enqueue_extraction,
--     reset_extraction), Lines (services.py: update_line; schemas.py: LineUpdate), Append (services.py:
--     add_line), Adjust (services.py: create_adjustment), Jobs (extraction_worker.py: _claim, the
--     fenced writes, _charge_quota), Extraction (extraction_worker.py: _process, and _apply in
--     Extraction/Payloads).
--   Recipes (backend/app/modules/recipes): the tables, Drafts (repo.py: save_draft, skip_recipe),
--     Confirm (repo.py: confirm_recipe, unconfirm_recipe), Modifiers (modifiers_repo.py: save_draft,
--     skip_modifier, confirm_modifier, unconfirm_modifier).
--   The modules under a part hold its proofs, and Tests its runs on concrete data.
--
-- How state and operations correspond. A table is a list of records, newest row first; an UPDATE
-- rewrites the rows that pass its WHERE clause; a lookup that expects one row takes the first. An
-- operation takes the tables and returns them; a function that can raise returns Result, and an
-- exception leaves no tables, since the caller rolls its transaction back. The workers, which
-- commit several transactions, return the tables that a failure leaves. NOW() is a field of the
-- ledger, and uuid generators are a counter. One transaction runs at a time: row locks and
-- savepoints have no counterpart, but for the insert that finds its key taken; what other
-- transactions commit while the extraction worker asks the model is a function that it is given.
--
-- Numbers. A decimal is a count of one smallest unit. Sums of the database are exact; Python's
-- rounded arithmetic and the database's product are parameters with the laws that the context of
-- 28 digits guarantees (Prelude/Decimal.antt, which has an instance). An instant is a count of
-- microseconds.
--
-- Bounds and fuel. Every loop of the modelled code runs over a list and is structural recursion,
-- but for the pages of the reconciliation, whose fuel is the code's own MAX_PAGES, 50: at its end
-- the code breaks off as if the pages were read. The claim's lifetime is 300 s, the retries are 5;
-- those of an extraction are 300 s and 3.
--
-- Not modelled: OAuth, the catalog, invitations, the other API routes, the reads that only display rows, the upload and the checks of files (what they answer is a parameter of the
-- extraction worker), and the database's policies and triggers; the calls of vendors are outside
-- the repository.
pub mod Prelude
pub mod Monitoring
pub mod Schema
pub mod Depletion
pub mod Inventory
pub mod Pos
pub mod Receipts
pub mod Recipes
