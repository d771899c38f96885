-- ===== src/Pos/Tests/Lines.antt =====
-- Runs of the worker on an order with one line.
use reorder_os.Prelude.{◌≡◌, refl, true, false, none, some, [], ◌∷◌, select}
use reorder_os.Prelude.Int.{pos}
use reorder_os.Prelude.Decimal.{exact}
use reorder_os.Depletion.Handler.{Db}
use reorder_os.Pos.Payment.{LineItem}
use reorder_os.Pos.Lines.{
  Floats, Menu, Sales, ingest_lines, has_clover_id, line_of, insert_line_item, ingest_with,
  count_modifiers, add_count, insert_slims, insert_slim, snapshot_modifiers, is_confirmed_additive,
}
use reorder_os.Pos.Lines.Frozen.{ingest_lines_frozen}
use reorder_os.Pos.Inbox.{processing}
use reorder_os.Pos.Process.{Env, World, line, failure, fetched, run_event}
use reorder_os.Pos.Process.Frozen.{Keeps, run_event-Keeps}
use reorder_os.Pos.Process.Settled.{AllSettled, run_event-AllSettled}
use reorder_os.Pos.Tests.{later, event}

abbrev floats : Floats
floats = record { one = pos 10000; add = λ a b. a; net_revenue = λ p q d. p }

-- A flat white with oat milk.
abbrev flat_white : LineItem
flat_white = record {
  line_item_id = some "L";
  name = some "Flat white";
  unit_qty = none;
  price = some (pos 450);
  discount_amount = none;
  refunded = false;
  exchanged = false;
  item_id = some "I";
  modifications = record { modifier_id = some "M"; quantity = none } ∷ [];
}

abbrev menu : Menu
menu = record {
  items = record { id = 2; tenant_id = 1; pos_item_id = "I"; recipe_version_id = some 6 } ∷ [];
  modifiers =
      record {
        id = 3;
        tenant_id = 1;
        pos_modifier_id = "M";
        is_additive = true;
        current_version_id = some 7;
      }
      ∷ [];
}

abbrev no_sales : Sales
no_sales = record { next_id = 10; lines = []; slims = [] }

abbrev sold : Sales
sold = ingest_lines floats 1 4 (flat_white ∷ []) menu no_sales

-- The line has the recipe of the menu, its modifier the version of the menu.
sold-run :
    (sold.next_id ≡ 12)
    × (select (has_clover_id 1 "L") sold.lines
        ≡ line_of floats 10 1 4 "L" flat_white menu.items ∷ [])
    × (sold.slims
        ≡ record {
          id = 11;
          tenant_id = 1;
          sale_line_item_id = 10;
          modifier_id = 3;
          modifier_version_id = 7;
          quantity = pos 10000;
          pos_modifier_id = "M";
        }
          ∷ [])
unfolding ingest_lines ingest_with insert_line_item has_clover_id line_of snapshot_modifiers
    count_modifiers add_count insert_slims insert_slim is_confirmed_additive
sold-run = (refl, refl, refl)

-- The catalog was emptied since, and the line has a new price.
ingest_lines_frozen_example :
    ingest_lines floats 1 4
      (record flat_white { price = some (pos 500) } ∷ [])
      (record { items = []; modifiers = [] })
      sold
    ≡ sold
ingest_lines_frozen_example =
    ingest_lines_frozen floats 1 4 (flat_white ∷ [])
      (record flat_white { price = some (pos 500) } ∷ []) menu
      (record { items = []; modifiers = [] }) no_sales refl

-- Clover answers with the order; every transaction on a line raises, and then mark_failed too.
abbrev env : Env
env = record {
  fetch = λ e. fetched (record later { line_items = flat_white ∷ [] });
  raises = λ s. elim s [ line n ↦ true | failure ↦ true | _ ↦ false ];
  text_of = λ f. "";
  cut = λ s. s;
  cut_short = λ s. s;
  floats = floats;
}

abbrev db : Db
db = record {
  ledger = record { now = 1000; next_id = 5; movements = [] };
  catalog = record {
    recipe_versions = [];
    recipe_ingredients = [];
    modifier_versions = [];
    modifier_ingredients = [];
    items = [];
    units = [];
    conversions = [];
    yield_factors = [];
  };
  orders = [];
  lines = [];
  slims = [];
  counts = [];
  alerts = [];
}

abbrev world : World
world = record {
  events = record event { state = processing } ∷ [];
  orders = [];
  menu = menu;
  next_id = 20;
  db = db;
}

run_event-AllSettled_example :
    ((run_event env event world).1 ≡ true) × AllSettled 8 (run_event env event world).0.events
run_event-AllSettled_example = run_event-AllSettled env event world refl

-- The line was sold, and Clover says now that it was refunded and is dearer.
abbrev refunding : Env
refunding = record env {
  fetch = λ e. fetched (record later {
    line_items = record flat_white { refunded = true; price = some (pos 500) } ∷ [];
  });
  raises = λ s. false;
}

run_event-Keeps_example :
    let w = record world { db = record db { lines = sold.lines } } in
    Keeps w.db.lines (run_event refunding event w).0.db.lines
run_event-Keeps_example =
    run_event-Keeps refunding event (record world { db = record db { lines = sold.lines } })
