-- ===== src/Recipes.antt =====
-- The recipes of menu items: backend/app/modules/recipes/repo.py, its tables and what reads one
-- row. An exception leaves no state: the caller rolls the transaction back.
pub mod Drafts
pub mod Confirm
pub mod Linked
pub mod Versions
pub mod History
pub mod Numbers
pub mod Modifiers
mod Tests
use reorder_os.Prelude.{
  ℕ, suc, String, Bool, true, false, ◌&&◌, Option, none, some, List, find_first, update_where, ◌==◌,
}
use reorder_os.Prelude.Int.{ℤ}
use reorder_os.Schema.{Ingredient}
use reorder_os.Inventory.Resolver.{ResolveError}
use reorder_os.Receipts.{Store}

pub data RecipeStatus : Type 0 where
  draft confirmed skipped : RecipeStatus

-- A row of menu_items.
pub record MenuItem : Type 0 where
  pub id : ℕ
  pub tenant_id : ℕ
  pub name : String
  pub recipe_version_id : Option ℕ

-- A row of recipes.
pub record Recipe : Type 0 where
  pub id : ℕ
  pub tenant_id : ℕ
  pub menu_item_id : ℕ
  pub status : RecipeStatus

-- An element of draft_ingredients.
pub record DraftIngredient : Type 0 where
  pub name : String
  pub quantity : ℤ
  pub unit : String

-- A row of recipe_drafts.
pub record Draft : Type 0 where
  pub tenant_id : ℕ
  pub recipe_id : ℕ
  pub parent_recipe_version_id : Option ℕ
  pub draft_ingredients : List DraftIngredient

-- A row of recipe_versions.
pub record Version : Type 0 where
  pub id : ℕ
  pub tenant_id : ℕ
  pub recipe_id : ℕ
  pub version_number : ℕ
  pub yield_quantity : ℕ
  pub name : String

-- The store has the items, the units and the generator of ids.
pub record Kitchen : Type 0 where
  pub store : Store
  pub menu_items : List MenuItem
  pub recipes : List Recipe
  pub drafts : List Draft
  pub versions : List Version
  pub ingredients : List Ingredient

pub data RecipeError : Type 0 where
  menu_item_not_found recipe_confirmed recipe_skipped no_draft empty_draft duplicate_ingredient
        not_confirmed :
      RecipeError
  resolve_raised : ResolveError → RecipeError

abbrev pub is_confirmed : RecipeStatus → Bool
is_confirmed confirmed = true
is_confirmed _ = false

abbrev pub is_menu_item : (tid mid : ℕ) → MenuItem → Bool
is_menu_item tid mid m = m.id == mid && (m.tenant_id == tid)

abbrev pub is_recipe_of : (tid mid : ℕ) → Recipe → Bool
is_recipe_of tid mid r = r.tenant_id == tid && (r.menu_item_id == mid)

abbrev pub has_recipe_id : ℕ → Recipe → Bool
has_recipe_id rid r = r.id == rid

abbrev pub is_draft_of : (tid rid : ℕ) → Draft → Bool
is_draft_of tid rid d = d.tenant_id == tid && (d.recipe_id == rid)

abbrev pub find_menu_item : (tid mid : ℕ) → Kitchen → Option MenuItem
find_menu_item tid mid k = find_first (is_menu_item tid mid) k.menu_items

abbrev pub find_recipe : (tid mid : ℕ) → Kitchen → Option Recipe
find_recipe tid mid k = find_first (is_recipe_of tid mid) k.recipes

abbrev pub fresh_id : Kitchen → ℕ
fresh_id k = k.store.ledger.next_id

unfoldable pub take_id : Kitchen → Kitchen
take_id k = record k {
  store = record k.store {
    ledger = record k.store.ledger { next_id = suc k.store.ledger.next_id };
  };
}

-- UPDATE recipes SET status
unfoldable pub set_status : ℕ → RecipeStatus → Kitchen → Kitchen
set_status rid st k = record k {
  recipes = update_where (has_recipe_id rid) (λ r. record r { status = st }) k.recipes;
}

-- UPDATE menu_items SET recipe_version_id
unfoldable pub set_pointer : (tid mid : ℕ) → Option ℕ → Kitchen → Kitchen
set_pointer tid mid version k = record k {
  menu_items =
      update_where (is_menu_item tid mid) (λ m. record m { recipe_version_id = version })
        k.menu_items;
}
