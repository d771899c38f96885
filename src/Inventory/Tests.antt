-- ===== src/Inventory/Tests.antt =====
-- Runs of the inventory services on the stock of one item.
mod Netting
mod Records
mod Requests
use reorder_os.Prelude.{true, none, [], ◌∷◌}
use reorder_os.Prelude.Decimal.{exact}
use reorder_os.Schema.{recipe_deducted, Item}
use reorder_os.Inventory.Stock.{Stock}

-- An opening balance of item 7, in Mode A.
abbrev pub item : Item
item = record {
  id = 7;
  tenant_id = 1;
  name = "Flour";
  active = true;
  inventory_mode = recipe_deducted;
  storage_unit_id = 3;
  last_count_at = none;
  last_count_quantity = none;
}

abbrev pub stock : Stock
stock = record {
  ledger = record { now = 1000; next_id = 5; movements = [] };
  items = item ∷ [];
  yield_factors = [];
  counts = [];
  alerts = [];
}
