-- ===== src/Inventory/Opening.antt =====
-- record_opening_balance of backend/app/modules/inventory/services.py
pub mod Once
use reorder_os.Prelude.{ℕ, Option, none, some, List, [], ◌∷◌, find_first, update_where}
use reorder_os.Prelude.Int.{ℤ}
use reorder_os.Prelude.Result.{Result, ok, err, ◌>>=◌}
use reorder_os.Schema.{
  Mode, recipe_deducted, count_anchored, opening_balance, opening, Key, word, uuid, Ledger, Item,
}
use reorder_os.Depletion.Writer.{has_key, coalesce}
use reorder_os.Inventory.Stock.{Stock, StockError, item_not_found, is_item, insert_movement}

abbrev pub opening_key : ℕ → Key
opening_key iid = word "opening_balance" ∷ uuid iid ∷ []

abbrev pub set_anchor : (tid iid : ℕ) (quantity : ℤ) (at : ℕ) → List Item → List Item
set_anchor tid iid quantity at =
    update_where (is_item tid iid)
      (λ i. record i { last_count_at = some at; last_count_quantity = some quantity })

-- Mode B only: the anchor of the count.
unfoldable pub anchor_opening : Mode → (tid iid : ℕ) (quantity : ℤ) (at : ℕ) → List Item → List Item
anchor_opening count_anchored tid iid quantity at items = set_anchor tid iid quantity at items
anchor_opening recipe_deducted tid iid quantity at items = items

unfoldable pub open_item :
    (tid iid : ℕ) (quantity : ℤ) (at : ℕ) → Option Item → Stock → Result StockError (Stock × ℕ)
open_item tid iid quantity at none s = err item_not_found
open_item tid iid quantity at (some i) s = do
  (l, id) ←
      insert_movement tid iid opening_balance quantity opening none (opening_key iid) at s.ledger
  ok (
    record s { ledger = l; items = anchor_opening i.inventory_mode tid iid quantity at s.items },
    id,
  )

unfoldable pub record_opening_balance :
    (tid iid : ℕ) (quantity : ℤ) (recorded_at : Option ℕ) → Stock → Result StockError (Stock × ℕ)
record_opening_balance tid iid quantity recorded_at s =
    elim (find_first (has_key tid (opening_key iid)) s.ledger.movements) [
      | some m ↦ ok (s, m.id)
      | none ↦
          open_item tid iid quantity (coalesce recorded_at s.ledger.now)
            (find_first (is_item tid iid) s.items) s
    ]
