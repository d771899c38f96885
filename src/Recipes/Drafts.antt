-- ===== src/Recipes/Drafts.antt =====
-- save_draft and skip_recipe of backend/app/modules/recipes/repo.py.
use reorder_os.Prelude.{
  ℕ, Bool, false, Option, none, some, List, ◌∷◌, any, update_where, if◌then◌else◌,
}
use reorder_os.Prelude.Result.{Result, ok, err}
use reorder_os.Recipes.{
  RecipeStatus, draft, skipped, Recipe, DraftIngredient, Kitchen, RecipeError, menu_item_not_found,
  recipe_confirmed, is_confirmed, is_draft_of, find_menu_item, find_recipe, fresh_id, take_id,
  set_status,
}

-- INSERT INTO recipe_drafts ... ON CONFLICT (tenant_id, recipe_id) DO UPDATE. `parent` rewrites
-- the parent version of a row that is there.
unfoldable pub upsert_draft :
    (tid rid : ℕ) → (parent : Option ℕ → Option ℕ) → List DraftIngredient → Kitchen → Kitchen
upsert_draft tid rid parent ingredients k =
    if any (is_draft_of tid rid) k.drafts
    then record k {
      drafts =
          update_where (is_draft_of tid rid)
            (λ d. record d {
              parent_recipe_version_id = parent d.parent_recipe_version_id;
              draft_ingredients = ingredients;
            })
            k.drafts;
    }
    else record k {
      drafts =
          record {
            tenant_id = tid;
            recipe_id = rid;
            parent_recipe_version_id = parent none;
            draft_ingredients = ingredients;
          }
          ∷ k.drafts;
    }

abbrev new_recipe : (id tid mid : ℕ) → RecipeStatus → Recipe
new_recipe id tid mid st = record { id = id; tenant_id = tid; menu_item_id = mid; status = st }

-- INSERT INTO recipes
unfoldable pub insert_recipe : (tid mid : ℕ) → RecipeStatus → Kitchen → Kitchen
insert_recipe tid mid st k = record (take_id k) {
  recipes = new_recipe (fresh_id k) tid mid st ∷ k.recipes;
}

-- The recipe's row, made or updated, and its id.
unfoldable pub put_status : (tid mid : ℕ) → RecipeStatus → Option Recipe → Kitchen → Kitchen × ℕ
put_status tid mid st none k = (insert_recipe tid mid st k, fresh_id k)
put_status tid mid st (some r) k = (set_status r.id st k, r.id)

-- `rec is not None and rec["status"] == "confirmed"`
abbrev pub is_confirmed_recipe : Option Recipe → Bool
is_confirmed_recipe none = false
is_confirmed_recipe (some r) = is_confirmed r.status

abbrev pub write_draft : (tid : ℕ) → List DraftIngredient → Kitchen × ℕ → Kitchen
write_draft tid ingredients (k, rid) = upsert_draft tid rid (λ p. p) ingredients k

unfoldable pub save_draft :
    (tid mid : ℕ) → List DraftIngredient → Kitchen → Result RecipeError Kitchen
save_draft tid mid ingredients k = elim (find_menu_item tid mid k) [
  | none ↦ err menu_item_not_found
  | some m ↦
      if is_confirmed_recipe (find_recipe tid mid k)
      then err recipe_confirmed
      else ok (write_draft tid ingredients (put_status tid mid draft (find_recipe tid mid k) k))
]

-- The draft stays.
unfoldable pub skip_recipe : (tid mid : ℕ) → Kitchen → Result RecipeError Kitchen
skip_recipe tid mid k = elim (find_menu_item tid mid k) [
  | none ↦ err menu_item_not_found
  | some m ↦
      if is_confirmed_recipe (find_recipe tid mid k)
      then err recipe_confirmed
      else ok (put_status tid mid skipped (find_recipe tid mid k) k).0
]
