-- ===== src/Recipes/Tests.antt =====
-- A flat white whose recipe is drafted, confirmed and re-opened.
use reorder_os.Prelude.{◌≡◌, refl, none, some, List, [], ◌∷◌}
use reorder_os.Prelude.Int.{pos}
use reorder_os.Prelude.Result.{AllOk}
use reorder_os.Depletion.Units.{dimension_of, member}
use reorder_os.Inventory.Resolver.{
  resolve_inventory_item, resolve_known, ensure_unit, unit_of, ensure_item,
}
use reorder_os.Receipts.{Store}
use reorder_os.Recipes.{
  MenuItem, Recipe, draft, DraftIngredient, Kitchen, set_status, set_pointer, take_id,
}
use reorder_os.Recipes.Drafts.{save_draft, skip_recipe, put_status, insert_recipe, upsert_draft}
use reorder_os.Recipes.Confirm.{
  Words, confirm_recipe, confirm_draft, has_duplicate_name, resolve_all, write_confirmed,
  insert_version, max_version, ingredient_rows, unconfirm_recipe, reopen, version_ingredients,
}
use reorder_os.Recipes.Linked.{IsLinked}
use reorder_os.Recipes.Versions.{Extends}
use reorder_os.Recipes.History.{
  Operation, save, skip, confirm, unconfirm, perform_all, perform_all-IsLinked, perform_all-Extends,
}
use reorder_os.Recipes.Numbers.{Numbered, confirm_recipe-Numbered}

abbrev words : Words
words = record {
  texts = record { btrim = λ s. s; lower = λ s. s };
  norm = λ s. s;
  by_name = λ is. is;
}

abbrev milk : DraftIngredient
milk = record { name = "Milk"; quantity = pos 200; unit = "ml" }

abbrev store : Store
store = record {
  ledger = record { now = 1000; next_id = 50; movements = [] };
  items = [];
  units = [];
  conversions = [];
  receipts = [];
  lines = [];
  costs = [];
}

abbrev flat_white : MenuItem
flat_white = record { id = 2; tenant_id = 1; name = "Flat white"; recipe_version_id = none }

abbrev kitchen : Kitchen
kitchen = record {
  store = store;
  menu_items = flat_white ∷ [];
  recipes = [];
  drafts = [];
  versions = [];
  ingredients = [];
}

-- The draft is confirmed, skipped in vain, re-opened, and confirmed again.
abbrev operations : List Operation
operations = save (milk ∷ []) ∷ confirm ∷ skip ∷ unconfirm ∷ confirm ∷ []

perform_all-IsLinked_example : IsLinked 1 2 (perform_all words 1 2 operations kitchen)
perform_all-IsLinked_example = perform_all-IsLinked words 1 2 operations kitchen refl

perform_all-Extends_example : Extends kitchen (perform_all words 1 2 operations kitchen)
perform_all-Extends_example = perform_all-Extends words 1 2 operations kitchen

abbrev recipe : Recipe
recipe = record { id = 5; tenant_id = 1; menu_item_id = 2; status = draft }

abbrev drafted : Kitchen
drafted = record kitchen {
  recipes = recipe ∷ [];
  drafts =
      record {
        tenant_id = 1;
        recipe_id = 5;
        parent_recipe_version_id = none;
        draft_ingredients = milk ∷ [];
      }
      ∷ [];
}

confirm_recipe-Numbered_example :
    AllOk (Numbered 1 2 words drafted recipe) (confirm_recipe words 1 2 drafted)
confirm_recipe-Numbered_example =
    confirm_recipe-Numbered 1 2 words flat_white recipe drafted refl refl

-- Two versions come of it, and one item.
operations-run :
    ((perform_all words 1 2 operations kitchen).menu_items
      ≡ record flat_white { recipe_version_id = some 54 } ∷ [])
    × ((perform_all words 1 2 operations kitchen).versions
        ≡ record {
          id = 54;
          tenant_id = 1;
          recipe_id = 50;
          version_number = 2;
          yield_quantity = 1;
          name = "Flat white";
        }
          ∷ record {
            id = 53;
            tenant_id = 1;
            recipe_id = 50;
            version_number = 1;
            yield_quantity = 1;
            name = "Flat white";
          }
          ∷ [])
unfolding perform_all skip_recipe save_draft put_status insert_recipe upsert_draft take_id
    confirm_recipe confirm_draft has_duplicate_name resolve_all resolve_inventory_item resolve_known
    ensure_unit unit_of ensure_item dimension_of member write_confirmed insert_version max_version
    ingredient_rows set_status set_pointer unconfirm_recipe reopen version_ingredients
operations-run = (refl, refl)
