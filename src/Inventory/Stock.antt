-- ===== src/Inventory/Stock.antt =====
-- The tables of backend/app/modules/inventory/services.py, and an INSERT into the ledger whose
-- unique violation is an exception.
use reorder_os.Prelude.{ℕ, Bool, ◌&&◌, Option, none, some, List, ◌==◌}
use reorder_os.Prelude.Int.{ℤ}
use reorder_os.Prelude.Result.{Result, ok, err}
use reorder_os.Monitoring.{Alert}
use reorder_os.Schema.{MovementType, SourceType, Key, Ledger, Item, YieldFactor, CountEvent}
use reorder_os.Depletion.Writer.{insert_or_nothing}

pub record Stock : Type 0 where
  pub ledger : Ledger
  pub items : List Item
  pub yield_factors : List YieldFactor
  pub counts : List CountEvent
  pub alerts : List Alert

pub data StockError : Type 0 where
  item_not_found integrity_error : StockError

abbrev pub is_item : (tid iid : ℕ) → Item → Bool
is_item tid iid i = i.tenant_id == tid && (i.id == iid)

abbrev pub inserted : Ledger × Option ℕ → Result StockError (Ledger × ℕ)
inserted (l, none) = err integrity_error
inserted (l, some id) = ok (l, id)

-- INSERT with no ON CONFLICT clause.
unfoldable pub insert_movement :
    (tid item : ℕ) (mtype : MovementType) (delta : ℤ) (stype : SourceType) (sid : Option ℕ)
    (key : Key) (recorded_at : ℕ)
    → Ledger
    → Result StockError (Ledger × ℕ)
insert_movement tid item mtype delta stype sid key recorded_at l =
    inserted (insert_or_nothing tid item mtype delta stype sid key none recorded_at l)
