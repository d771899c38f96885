-- ===== src/Recipes/Confirm.antt =====
-- confirm_recipe and unconfirm_recipe of backend/app/modules/recipes/repo.py. The text functions
-- of Python and the database's order of texts are parameters.
use reorder_os.Prelude.{
  ℕ, ◌+◌, String, Bool, true, false, not, ◌&&◌, ◌||◌, Option, none, some, List, [], ◌∷◌, any,
  find_first, select, ltb, str_eq, ◌==◌, sql_eq, if◌then◌else◌,
}
use reorder_os.Prelude.Result.{Result, ok, err, ◌>>=◌, ◌>>◌, raise_if}
use reorder_os.Schema.{Ingredient, Item}
use reorder_os.Inventory.Resolver.{Texts, ResolveError, resolve_inventory_item}
use reorder_os.Receipts.{Store}
use reorder_os.Recipes.{
  RecipeStatus, draft, confirmed, skipped, MenuItem, Recipe, DraftIngredient, Version, Kitchen,
  RecipeError, menu_item_not_found, recipe_confirmed, recipe_skipped, no_draft, empty_draft,
  duplicate_ingredient, not_confirmed, resolve_raised, is_confirmed, is_draft_of, find_menu_item,
  find_recipe, fresh_id, take_id, set_status, set_pointer,
}
use reorder_os.Recipes.Drafts.{upsert_draft}

-- resolve_inventory_item's functions, _norm, and ORDER BY ii.name
pub record Words : Type 0 where
  pub texts : Texts
  pub norm : String → String
  pub by_name : List DraftIngredient → List DraftIngredient

-- len(set(norms)) != len(norms)
unfoldable pub has_duplicate_name : (String → String) → List DraftIngredient → Bool
has_duplicate_name norm [] = false
has_duplicate_name norm (i ∷ is) =
    any (λ x. str_eq (norm x.name) (norm i.name)) is || has_duplicate_name norm is

abbrev pub is_empty : List DraftIngredient → Bool
is_empty [] = true
is_empty (i ∷ is) = false

-- The draft's ingredients; none where there is no draft.
abbrev pub draft_of : (tid rid : ℕ) → Kitchen → List DraftIngredient
draft_of tid rid k = elim (find_first (is_draft_of tid rid) k.drafts) [
  | none ↦ []
  | some d ↦ d.draft_ingredients
]

-- Step 1.
unfoldable pub resolve_all :
    Texts
    → (tid : ℕ) → List DraftIngredient
    → Store
    → Result ResolveError (Store × List (ℕ × DraftIngredient))
resolve_all t tid [] s = ok (s, [])
resolve_all t tid (i ∷ is) s = do
  (s₁, item) ← resolve_inventory_item t tid i.name i.unit s
  (s₂, lines) ← resolve_all t tid is s₁
  ok (s₂, (item, i) ∷ lines)

-- COALESCE(MAX(version_number), 0)
unfoldable pub max_version : (tid rid : ℕ) → List Version → ℕ
max_version tid rid [] = 0
max_version tid rid (v ∷ vs) =
    let rest = max_version tid rid vs in
    if v.tenant_id == tid && (v.recipe_id == rid) && ltb rest v.version_number
    then v.version_number
    else rest

-- Step 3.
unfoldable pub ingredient_rows :
    (tid version : ℕ) → List (ℕ × DraftIngredient) → List Ingredient → List Ingredient
ingredient_rows tid version [] rows = rows
ingredient_rows tid version ((item, i) ∷ lines) rows = ingredient_rows tid version lines (
    record {
      tenant_id = tid;
      version_id = version;
      inventory_item_id = item;
      quantity = i.quantity;
      unit = i.unit;
    }
    ∷ rows)

-- Steps 2 and 3.
unfoldable pub insert_version :
    (tid rid : ℕ) → String → List (ℕ × DraftIngredient) → Kitchen → Kitchen
insert_version tid rid name lines k =
    let rv = fresh_id k in
    record (take_id k) {
      versions =
          record {
            id = rv;
            tenant_id = tid;
            recipe_id = rid;
            version_number = max_version tid rid k.versions + 1;
            yield_quantity = 1;
            name = name;
          }
          ∷ k.versions;
      ingredients = ingredient_rows tid rv lines k.ingredients;
    }

-- Step 6.
abbrev delete_draft : (tid rid : ℕ) → Kitchen → Kitchen
delete_draft tid rid k = record k { drafts = select (λ d. not (is_draft_of tid rid d)) k.drafts }

-- Steps 2 to 6.
unfoldable pub write_confirmed :
    (tid mid rid : ℕ) → String → List (ℕ × DraftIngredient) → Kitchen → Kitchen
write_confirmed tid mid rid name lines k = delete_draft tid rid (
    set_status rid confirmed
      (set_pointer tid mid (some (fresh_id k)) (insert_version tid rid name lines k)))

abbrev pub lift_resolve : {A : Type 0} → Result ResolveError A → Result RecipeError A
lift_resolve (ok a) = ok a
lift_resolve (err e) = err (resolve_raised e)

unfoldable pub confirm_draft :
    Words
    → (tid mid : ℕ) → MenuItem
    → Recipe
    → List DraftIngredient
    → Kitchen
    → Result RecipeError Kitchen
confirm_draft w tid mid m r ingredients k = do
  raise_if (is_empty ingredients) empty_draft
  raise_if (has_duplicate_name w.norm ingredients) duplicate_ingredient
  (s, lines) ← lift_resolve (resolve_all w.texts tid ingredients k.store)
  ok (write_confirmed tid mid r.id m.name lines (record k { store = s }))

abbrev pub confirm_status :
    Words → (tid mid : ℕ) → MenuItem → Recipe → RecipeStatus → Kitchen → Result RecipeError Kitchen
confirm_status w tid mid m r confirmed k = err recipe_confirmed
confirm_status w tid mid m r skipped k = err recipe_skipped
confirm_status w tid mid m r draft k = confirm_draft w tid mid m r (draft_of tid r.id k) k

unfoldable pub confirm_recipe : Words → (tid mid : ℕ) → Kitchen → Result RecipeError Kitchen
confirm_recipe w tid mid k = elim (find_menu_item tid mid k) [
  | none ↦ err menu_item_not_found
  | some m ↦ elim (find_recipe tid mid k) [
    | none ↦ err no_draft
    | some r ↦ confirm_status w tid mid m r r.status k
  ]
]

-- recipe_ingredients JOIN inventory_items, of one version.
unfoldable pub version_ingredients :
    (tid : ℕ) (version : Option ℕ) → List Item → List Ingredient → List DraftIngredient
version_ingredients tid version items [] = []
version_ingredients tid version items (i ∷ is) =
    let rest = version_ingredients tid version items is in
    if i.tenant_id == tid && sql_eq (some i.version_id) version
    then elim (find_first (λ x. x.id == i.inventory_item_id) items) [
      | none ↦ rest
      | some x ↦ record { name = x.name; quantity = i.quantity; unit = i.unit } ∷ rest
    ]
    else rest

unfoldable pub reopen : Words → (tid mid : ℕ) → MenuItem → Recipe → Kitchen → Kitchen
reopen w tid mid m r k =
    let rows =
      w.by_name (version_ingredients tid m.recipe_version_id k.store.items k.ingredients) in
    set_pointer tid mid none
      (set_status r.id draft (upsert_draft tid r.id (λ p. m.recipe_version_id) rows k))

unfoldable pub unconfirm_recipe : Words → (tid mid : ℕ) → Kitchen → Result RecipeError Kitchen
unconfirm_recipe w tid mid k = elim (find_menu_item tid mid k) [
  | none ↦ err menu_item_not_found
  | some m ↦ elim (find_recipe tid mid k) [
    | none ↦ err not_confirmed
    | some r ↦ if is_confirmed r.status then ok (reopen w tid mid m r k) else err not_confirmed
  ]
]
