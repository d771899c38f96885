-- ===== src/Inventory/Receipt.antt =====
-- commit_receipt and its helpers of backend/app/modules/inventory/services.py. An exception leaves
-- no state: the caller rolls the transaction back. The trigger of the database is not modelled.
pub mod Commit
use reorder_os.Prelude.{
  ℕ, ◌+◌, String, Bool, true, false, not, ◌&&◌, ◌||◌, Option, none, some, List, [], ◌∷◌, any,
  find_first, select, update_where, is_some, str_eq, ◌==◌, if◌then◌else◌,
}
use reorder_os.Prelude.Int.{ℤ}
use reorder_os.Prelude.Result.{Result, ok, err, ◌>>=◌, ◌>>◌, raise_if}
use reorder_os.Prelude.Decimal.{Decimals}
use reorder_os.Receipts.{
  Receipt, ReceiptLine, Store, CostSnapshot, CommitState, Source, MatchStatus, pos, committed,
  skipped,
}
use reorder_os.Schema.{
  receive, receipt_line, Key, word, uuid, Movement, Ledger, Item, UnitOfMeasure,
}
use reorder_os.Depletion.Conversions.{Conversion, ConvertError, convert}
use reorder_os.Depletion.Writer.{insert_or_nothing, has_key}

pub data CommitError : Type 0 where
  receipt_not_found nothing_to_commit review_required movement_lost : CommitError
  convert_raised : ConvertError → CommitError

pub data CommitResult : Type 0 where
  already_committed : CommitResult
  newly_committed : (movement_ids : List ℕ) (confirmed : Bool) → CommitResult

abbrev pub is_intake : Source → Bool
is_intake pos = false
is_intake _ = true

abbrev pub is_committed : CommitState → Bool
is_committed committed = true
is_committed _ = false

abbrev is_skipped : MatchStatus → Bool
is_skipped skipped = true
is_skipped _ = false

-- A line that moves inventory.
abbrev pub is_movable : ReceiptLine → Bool
is_movable ln = not (is_skipped ln.match_status) && is_some ln.inventory_item_id

abbrev pub is_receipt_row : (tid rid : ℕ) → Receipt → Bool
is_receipt_row tid rid r = r.tenant_id == tid && (r.id == rid)

abbrev pub is_line_of : (tid rid : ℕ) → ReceiptLine → Bool
is_line_of tid rid ln = ln.tenant_id == tid && (ln.receipt_id == rid)

-- Step 3: what may not be committed.
unfoldable pub check_gate :
    Source
    → (confirm affirmation : Bool) → (lines : List ReceiptLine) → Result CommitError (Unit {0})
check_gate source confirm affirmation lines = do
  raise_if (not (any is_movable lines)) nothing_to_commit
  raise_if (is_intake source && not confirm) review_required
  raise_if (is_intake source && not (any (λ ln. ln.manually_corrected) lines) && not affirmation)
      review_required

-- LEFT JOIN units_of_measure
abbrev unit_name : List UnitOfMeasure → Option ℕ → Option String
unit_name units none = none
unit_name units (some u) = elim (find_first (λ x. x.id == u) units) [
  | none ↦ none
  | some x ↦ some x.name
]

-- The storage unit of the line's item.
abbrev storage_unit_name : Store → ℕ → Option String
storage_unit_name s iid = elim (find_first (λ i. i.id == iid) s.items) [
  | none ↦ none
  | some i ↦ unit_name s.units (some i.storage_unit_id)
]

-- A text that Python takes for true.
abbrev truthy : Option String → Option String
truthy none = none
truthy (some u) = if str_eq u "" then none else some u

-- `purchase_unit_name or extracted_unit`
abbrev or_text : Option String → Option String → Option String
or_text a b = elim (truthy a) [ some u ↦ some u | none ↦ truthy b ]

-- `try` the INSERT in a savepoint; on the unique violation the id of the row that has the key.
unfoldable pub idempotent_movement_insert :
    (tid item : ℕ) (delta : ℤ) (line_id : ℕ) (key : Key) → Ledger → Result CommitError (Ledger × ℕ)
idempotent_movement_insert tid item delta line_id key l =
    let (l', new_id) =
      insert_or_nothing tid item receive delta receipt_line (some line_id) key none l.now l in
    elim new_id [
      | some id ↦ ok (l', id)
      | none ↦ elim (find_first (has_key tid key) l.movements) [
        | some m ↦ ok (l', m.id)
        | none ↦ err movement_lost
      ]
    ]

abbrev snapshot_cost : ℕ → ℕ → ReceiptLine → List CostSnapshot → List CostSnapshot
snapshot_cost tid item ln costs = elim ln.unit_cost_cents [
  | none ↦ costs
  | some cost ↦
      record {
        tenant_id = tid;
        inventory_item_id = item;
        unit_cost_cents = cost;
        purchase_unit_id = ln.purchase_unit_id;
        source_receipt_line_id = ln.id;
      }
      ∷ costs
]

abbrev or_key : Option Key → ℕ → Key
or_key (some k) line_id = k
or_key none line_id = word "receipt_line" ∷ uuid line_id ∷ []

-- UPDATE receipt_lines SET emits_movement_id
abbrev link_line : (tid line_id movement_id : ℕ) → List ReceiptLine → List ReceiptLine
link_line tid line_id movement_id =
    update_where (λ x. x.tenant_id == tid && (x.id == line_id))
      (λ x. record x { emits_movement_id = some movement_id })

abbrev lift_convert : Result ConvertError ℤ → Result CommitError ℤ
lift_convert (ok q) = ok q
lift_convert (err e) = err (convert_raised e)

module _ ⦃dec : Decimals⦄ where
  -- The received quantity in the storage unit; the same quantity where the units are equal or
  -- one is not known.
  unfoldable pub storage_quantity :
      Store
      → (tid item : ℕ) → (quantity : ℤ) → (from_unit to_unit : Option String) → Result CommitError ℤ
  storage_quantity s tid item quantity (some f) (some t) =
      if str_eq f t
      then ok quantity
      else lift_convert (convert s.conversions quantity f t (some item) (some tid))
  storage_quantity s tid item quantity _ _ = ok quantity

  -- Step 4 for one movable line with its item.
  unfoldable pub commit_line : (tid item : ℕ) → ReceiptLine → Store → Result CommitError (Store × ℕ)
  commit_line tid item ln s = do
    qty ←
        storage_quantity s tid item ln.received_quantity
          (or_text (unit_name s.units ln.purchase_unit_id) ln.extracted_unit)
          (truthy (storage_unit_name s item))
    (l, id) ←
        idempotent_movement_insert tid item qty ln.id (or_key ln.idempotency_key ln.id) s.ledger
    ok (
      record s {
        ledger = l;
        costs = snapshot_cost tid item ln s.costs;
        lines = link_line tid ln.id id s.lines;
      },
      id,
    )

  -- for ln in movable
  unfoldable pub commit_lines :
      (tid : ℕ) → List ReceiptLine → Store → Result CommitError (Store × List ℕ)
  commit_lines tid [] s = ok (s, [])
  commit_lines tid (ln ∷ lns) s = elim ln.inventory_item_id [
    | none ↦ commit_lines tid lns s
    | some item ↦ elim (commit_line tid item ln s) [
      | err e ↦ err e
      | ok (s', id) ↦ elim (commit_lines tid lns s') [
        | err e ↦ err e
        | ok (s'', ids) ↦ ok (s'', id ∷ ids)
      ]
    ]
  ]

  -- _mark_receipt_committed
  unfoldable pub mark_receipt_committed :
      (tid rid : ℕ) (confirm affirmation : Bool) (source : Source) → Store → Store
  mark_receipt_committed tid rid confirm affirmation source s = record s {
    receipts =
        update_where (is_receipt_row tid rid)
          (λ r. record r {
            commit_state = committed;
            committed_at = some s.ledger.now;
            confirmed_at =
                if confirm && is_intake source then some s.ledger.now else r.confirmed_at;
            reviewed_affirmation = affirmation;
          })
          s.receipts;
  }

  unfoldable pub commit_open :
      (tid rid : ℕ) (confirm affirmation : Bool)
      → Source
      → Store
      → Result CommitError (Store × CommitResult)
  commit_open tid rid confirm affirmation source s = do
    let lines = select (is_line_of tid rid) s.lines
    check_gate source confirm affirmation lines
    (s', ids) ← commit_lines tid (select is_movable lines) s
    ok (
      mark_receipt_committed tid rid confirm affirmation source s',
      newly_committed ids (confirm && is_intake source),
    )

  unfoldable pub commit_receipt :
      (tid rid : ℕ) (confirm reviewed_affirmation : Bool)
      → Store
      → Result CommitError (Store × CommitResult)
  commit_receipt tid rid confirm affirmation s =
      elim (find_first (is_receipt_row tid rid) s.receipts) [
        | none ↦ err receipt_not_found
        | some r ↦
            if is_committed r.commit_state
            then ok (s, already_committed)
            else commit_open tid rid confirm affirmation r.source s
      ]
