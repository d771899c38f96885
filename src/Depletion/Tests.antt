-- ===== src/Depletion/Tests.antt =====
-- Runs of the depletion pipeline on one small restaurant: tenant 1 sells line 10 of order 20 with
-- recipe version 30, two kilograms of item 7, which is stored in grams.
mod Lines
mod Rules
use reorder_os.Prelude.{true, refl, false, none, some, [], ◌∷◌, arith}
use reorder_os.Prelude.Int.{pos, negsuc}
use reorder_os.Prelude.Decimal.{exact}
use reorder_os.Depletion.Units.{weight}
use reorder_os.Schema.{
  recipe_deducted, sale_depletion, sale_line_item, Movement, Ledger, SaleLine, paid, locked,
  depleted,
}
use reorder_os.Depletion.Conversions.{Conversion}
use reorder_os.Depletion.Writer.Rows.{IsValid}
use reorder_os.Depletion.Walker.{Catalog, base_key}
use reorder_os.Depletion.Handler.{Db, OrderRow}

abbrev pub kilogram : Conversion
kilogram = record {
  from_unit = "kg";
  to_unit = "g";
  factor = pos 10000000;
  inventory_item_id = none;
  tenant_id = none;
}

abbrev pub own_kilogram : Conversion
own_kilogram = record kilogram { factor = pos 9000000; tenant_id = some 1 }

abbrev pub catalog : Catalog
catalog = record {
  conversions = kilogram ∷ [];
  recipe_versions = record { id = 30; tenant_id = 1; yield_quantity = pos 10000 } ∷ [];
  recipe_ingredients =
      record {
        tenant_id = 1;
        version_id = 30;
        inventory_item_id = 7;
        quantity = pos 20000;
        unit = "kg";
      }
      ∷ [];
  modifier_versions = [];
  modifier_ingredients = [];
  items =
      record {
        id = 7;
        tenant_id = 1;
        inventory_mode = recipe_deducted;
        name = "Flour";
        active = true;
        storage_unit_id = 3;
        last_count_at = none;
        last_count_quantity = none;
      }
      ∷ [];
  units = record { id = 3; tenant_id = 1; name = "g"; unit_type = weight } ∷ [];
  yield_factors = [];
}

abbrev pub sold_line : SaleLine
sold_line = record {
  id = 10;
  tenant_id = 1;
  order_id = 20;
  clover_line_item_id = "L";
  menu_item_id = none;
  name_at_sale = "Soup";
  quantity = pos 10000;
  price_cents_at_sale = pos 900;
  discount_amount_cents = pos 0;
  net_revenue_cents = pos 900;
  is_refunded = false;
  is_voided = false;
  recipe_version_id = some 30;
  depletion_status = none;
  depletion_reason = none;
}

-- A line of a dish that has no recipe.
abbrev pub plain_line : SaleLine
plain_line = record sold_line { id = 11; recipe_version_id = none }

abbrev pub order : OrderRow
order = record { id = 20; payment_state = paid; state = locked }

abbrev pub empty_ledger : Ledger
empty_ledger = record { now = 1000; next_id = 5; movements = [] }

abbrev pub db : Db
db = record {
  ledger = empty_ledger;
  catalog = catalog;
  orders = order ∷ [];
  lines = sold_line ∷ plain_line ∷ [];
  slims = [];
  counts = [];
  alerts = [];
}

pub empty_ledger-IsValid : IsValid empty_ledger
empty_ledger-IsValid = record { below = tt; ids = tt; keys = tt }

-- The movement that line 10 writes.
abbrev pub sale_row : Movement
sale_row = record {
  id = 5;
  tenant_id = 1;
  inventory_item_id = 7;
  movement_type = sale_depletion;
  delta = negsuc 19999999;
  source_type = sale_line_item;
  source_id = some 10;
  idempotency_key = base_key 10 30 7;
  yield_factor_applied = some (pos 10000);
  recorded_at = 1000;
  created_at = 1000;
}

abbrev pub sold_ledger : Ledger
sold_ledger = record { now = 1000; next_id = 6; movements = sale_row ∷ [] }

abbrev pub sold_db : Db
sold_db = record db {
  ledger = sold_ledger;
  lines = record sold_line { depletion_status = some depleted } ∷ plain_line ∷ [];
}

pub sold_ledger-IsValid : IsValid sold_ledger
sold_ledger-IsValid = record { below = (omega arith, tt); ids = (tt, tt); keys = (refl, tt) }
