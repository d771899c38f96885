-- ===== src/Depletion/Writer.antt =====
-- backend/app/modules/inventory/depletion/writer.py: the writers of inventory_movements. A call
-- returns the ledger and the id of the new row; the caller owns the transaction.
pub mod Rows
pub mod Replay
use reorder_os.Prelude.{
  ℕ, ◌+◌, Bool, false, ◌&&◌, Option, none, some, List, [], ◌∷◌, any, find_first, ◌==◌,
  if◌then◌else◌,
}
use reorder_os.Prelude.Int.{ℤ}
use reorder_os.Prelude.Result.{Result, ok, err}
use reorder_os.Prelude.Decimal.{Decimals}
use reorder_os.Schema.{
  MovementType, sale_depletion, sale_signal, sale_depletion_reversal, sale_signal_reversal,
  SourceType, reversal, Key, word, uuid, key_eq, Movement, Ledger,
}

-- WHERE tenant_id = :tid AND idempotency_key = :key
unfoldable pub has_key : ℕ → Key → Movement → Bool
has_key tid key m = m.tenant_id == tid && key_eq m.idempotency_key key

-- INSERT ... ON CONFLICT (tenant_id, idempotency_key) DO NOTHING RETURNING id. The row's id is
-- gen_random_uuid() and its created_at is NOW().
unfoldable pub insert_or_nothing :
    (tid item : ℕ) (mtype : MovementType) (delta : ℤ) (stype : SourceType) (sid : Option ℕ)
    (key : Key) (yf : Option ℤ) (recorded_at : ℕ)
    → Ledger
    → Ledger × Option ℕ
insert_or_nothing tid item mtype delta stype sid key yf recorded_at l =
    if any (has_key tid key) l.movements then (l, none) else (
      record l {
        next_id = l.next_id + 1;
        movements =
            record {
              id = l.next_id;
              tenant_id = tid;
              inventory_item_id = item;
              movement_type = mtype;
              delta = delta;
              source_type = stype;
              source_id = sid;
              idempotency_key = key;
              yield_factor_applied = yf;
              recorded_at = recorded_at;
              created_at = l.now;
            }
            ∷ l.movements;
      },
      some l.next_id,
    )

-- `legacy_key is not None` and the SELECT under it finds a row.
unfoldable pub legacy_present : ℕ → Option Key → List Movement → Bool
legacy_present tid none rows = false
legacy_present tid (some key) rows = any (has_key tid key) rows

-- COALESCE(:rec_at, NOW())
abbrev pub coalesce : Option ℕ → ℕ → ℕ
coalesce none d = d
coalesce (some t) d = t

unfoldable pub write_movement :
    (tid : ℕ) (key : Key) (legacy_key : Option Key) (item : ℕ) (mtype : MovementType) (delta yf : ℤ)
    (stype : SourceType) (sid : ℕ) (recorded_at : Option ℕ)
    → Ledger
    → Ledger × Option ℕ
write_movement tid key legacy_key item mtype delta yf stype sid recorded_at l =
    if legacy_present tid legacy_key l.movements
    then (l, none)
    else insert_or_nothing tid item mtype delta stype (some sid) key (some yf)
        (coalesce recorded_at l.now) l

-- The two uses of ValueError in record_sale_reversal.
pub data ReversalError : Type 0 where
  movement_not_found not_reversible : ReversalError

-- WHERE tenant_id = :tid AND id = :oid
unfoldable pub has_id : ℕ → ℕ → Movement → Bool
has_id tid oid m = m.tenant_id == tid && (m.id == oid)

abbrev pub reversal_type : MovementType → Option MovementType
reversal_type sale_depletion = some sale_depletion_reversal
reversal_type sale_signal = some sale_signal_reversal
reversal_type _ = none

abbrev pub reversal_key : ℕ → ℕ → Key
reversal_key oid item = word "reversal" ∷ uuid oid ∷ uuid item ∷ []

module _ ⦃dec : Decimals⦄ where
  -- The INSERT of the reversal of `m`, if its type can be reversed. recorded_at is the column's
  -- default, NOW().
  unfoldable pub reverse_row :
      (tid oid item : ℕ) → Movement → Ledger → Result ReversalError (Ledger × Option ℕ)
  reverse_row tid oid item m l = elim (reversal_type m.movement_type) [
    | none ↦ err not_reversible
    | some rtype ↦ ok (
        insert_or_nothing tid item rtype (dec.neg m.delta) reversal (some oid)
          (reversal_key oid item) m.yield_factor_applied l.now l)
  ]

  unfoldable pub record_sale_reversal :
      (tid oid item : ℕ) → Ledger → Result ReversalError (Ledger × Option ℕ)
  record_sale_reversal tid oid item l = elim (find_first (has_id tid oid) l.movements) [
    | none ↦ err movement_not_found
    | some m ↦ reverse_row tid oid item m l
  ]
