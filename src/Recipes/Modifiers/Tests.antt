-- ===== src/Recipes/Modifiers/Tests.antt =====
-- Oat milk is drafted, confirmed, re-opened and skipped; a removal is never confirmed.
use reorder_os.Prelude.{◌≡◌, refl, arith, none, some, List, [], ◌∷◌, ℕ}
use reorder_os.Prelude.Int.{pos}
use reorder_os.Receipts.{Store}
use reorder_os.Recipes.{draft, confirmed, DraftIngredient}
use reorder_os.Recipes.Confirm.{Words, has_duplicate_name, resolve_all, ingredient_rows}
use reorder_os.Depletion.Units.{dimension_of, member}
use reorder_os.Inventory.Resolver.{
  resolve_inventory_item, resolve_known, ensure_unit, unit_of, ensure_item,
}
use reorder_os.Recipes.Modifiers.{
  Modifier, additive, subtractive, Bar, require_modifier, lock_modifier, update_modifier,
  upsert_modifier_draft, reopen_skipped, save_draft, skip_modifier, confirm_modifier,
  check_confirmable, confirm_ingredients, write_version, insert_modifier_version,
  max_modifier_version,
}
use reorder_os.Recipes.Modifiers.Sound.{IsSound}
use reorder_os.Recipes.Modifiers.History.{
  Operation, save, skip, confirm, perform_all, perform_all-IsSound,
}

abbrev words : Words
words = record {
  texts = record { btrim = λ s. s; lower = λ s. s };
  norm = λ s. s;
  by_name = λ is. is;
}

abbrev oat : DraftIngredient
oat = record { name = "Oat milk"; quantity = pos 200; unit = "ml" }

abbrev store : Store
store = record {
  ledger = record { now = 1000; next_id = 50; movements = [] };
  items = [];
  units = [];
  conversions = [];
  receipts = [];
  lines = [];
  costs = [];
}

abbrev oat_milk : Modifier
oat_milk = record {
  id = 7;
  tenant_id = 1;
  menu_item_id = 2;
  modifier_type = additive;
  status = draft;
  current_version_id = none;
}

abbrev no_sugar : Modifier
no_sugar = record oat_milk { id = 8; modifier_type = subtractive }

abbrev bar : Bar
bar = record {
  store = store;
  modifiers = oat_milk ∷ no_sugar ∷ [];
  drafts = [];
  versions = [];
  ingredients = [];
}

abbrev operations : List (Operation × (ℕ × (ℕ × ℕ)))
operations =
    (save (oat ∷ []), (1, (2, 7)))
    ∷ (confirm, (1, (2, 7)))
    ∷ (save (oat ∷ []), (1, (2, 8)))
    ∷ (confirm, (1, (2, 8)))
    ∷ (skip, (1, (2, 7)))
    ∷ []

bar-IsSound : IsSound bar
bar-IsSound =
    ((refl, (refl, λ h. absurd (ground arith))), ((refl, (refl, λ h. absurd (ground arith))), tt))

perform_all-IsSound_example : IsSound (perform_all words operations bar)
perform_all-IsSound_example = perform_all-IsSound words operations bar bar-IsSound

-- The additive one is confirmed, and the skip of it is refused; the other stays a draft.
operations-run :
    (perform_all words operations bar).modifiers
    ≡ record oat_milk { status = confirmed; current_version_id = some 52 } ∷ no_sugar ∷ []
unfolding perform_all require_modifier lock_modifier update_modifier upsert_modifier_draft
    reopen_skipped save_draft skip_modifier confirm_modifier check_confirmable confirm_ingredients
    write_version insert_modifier_version max_modifier_version has_duplicate_name resolve_all
    ingredient_rows dimension_of member resolve_inventory_item resolve_known ensure_unit unit_of
    ensure_item
operations-run = refl
