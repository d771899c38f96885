-- ===== src/Recipes/Modifiers.antt =====
-- The modifiers of menu items: backend/app/modules/recipes/modifiers_repo.py, its tables and its
-- write operations. What the operations answer beside the state is left out.
pub mod Sound
pub mod History
mod Tests
use reorder_os.Prelude.{
  ℕ, suc, ◌+◌, String, Bool, true, false, not, ◌&&◌, Option, none, some, is_some, List, [], ◌∷◌,
  any, find_first, select, update_where, ltb, ◌==◌, if◌then◌else◌,
}
use reorder_os.Prelude.Result.{Result, ok, err, ◌>>=◌, ◌>>◌, raise_if}
use reorder_os.Schema.{Ingredient}
use reorder_os.Inventory.Resolver.{ResolveError}
use reorder_os.Receipts.{Store}
use reorder_os.Recipes.{RecipeStatus, draft, confirmed, skipped, is_confirmed, DraftIngredient}
use reorder_os.Recipes.Confirm.{
  Words, has_duplicate_name, is_empty, resolve_all, ingredient_rows, version_ingredients,
}

pub data ModifierType : Type 0 where
  additive subtractive substitution : ModifierType

-- A row of modifiers. The statuses are those of a recipe.
pub record Modifier : Type 0 where
  pub id : ℕ
  pub tenant_id : ℕ
  pub menu_item_id : ℕ
  pub modifier_type : ModifierType
  pub status : RecipeStatus
  pub current_version_id : Option ℕ

-- A row of modifier_drafts.
pub record ModifierDraft : Type 0 where
  pub tenant_id : ℕ
  pub modifier_id : ℕ
  pub parent_modifier_version_id : Option ℕ
  pub draft_ingredients : List DraftIngredient

-- A row of modifier_versions.
pub record ModifierVersion : Type 0 where
  pub id : ℕ
  pub tenant_id : ℕ
  pub modifier_id : ℕ
  pub version_number : ℕ
  pub yield_quantity : ℕ

-- The store has the items, the units and the generator of ids.
pub record Bar : Type 0 where
  pub store : Store
  pub modifiers : List Modifier
  pub drafts : List ModifierDraft
  pub versions : List ModifierVersion
  pub ingredients : List Ingredient

pub data ModifierError : Type 0 where
  modifier_not_found modifier_confirmed modifier_skipped non_additive modifier_not_confirmed
        no_draft empty_draft duplicate_ingredient no_row :
      ModifierError
  resolve_raised : ResolveError → ModifierError

abbrev pub is_additive : ModifierType → Bool
is_additive additive = true
is_additive _ = false

abbrev pub is_skipped : RecipeStatus → Bool
is_skipped skipped = true
is_skipped _ = false

abbrev pub is_modifier : (tid mid mod_id : ℕ) → Modifier → Bool
is_modifier tid mid mod_id m = m.id == mod_id && (m.tenant_id == tid && (m.menu_item_id == mid))

-- `WHERE id = :mod AND tenant_id = :tid`
abbrev pub is_locked_row : (tid mod_id : ℕ) → Modifier → Bool
is_locked_row tid mod_id m = m.id == mod_id && (m.tenant_id == tid)

-- `WHERE id = :mod`
abbrev pub has_modifier_id : ℕ → Modifier → Bool
has_modifier_id mod_id m = m.id == mod_id

abbrev is_draft_of_modifier : (tid mod_id : ℕ) → ModifierDraft → Bool
is_draft_of_modifier tid mod_id d = d.tenant_id == tid && (d.modifier_id == mod_id)

unfoldable pub require_modifier : (tid mid mod_id : ℕ) → Bar → Result ModifierError Modifier
require_modifier tid mid mod_id b = elim (find_first (is_modifier tid mid mod_id) b.modifiers) [
  | none ↦ err modifier_not_found
  | some m ↦ ok m
]

-- SELECT ... FOR UPDATE, and .one()
unfoldable pub lock_modifier : (tid mod_id : ℕ) → Bar → Result ModifierError Modifier
lock_modifier tid mod_id b = elim (find_first (is_locked_row tid mod_id) b.modifiers) [
  | none ↦ err no_row
  | some m ↦ ok m
]

-- UPDATE modifiers SET status
abbrev pub with_status : RecipeStatus → Modifier → Modifier
with_status st m = record m { status = st }

-- UPDATE modifiers SET current_version_id, status
abbrev pub with_version : Option ℕ → RecipeStatus → Modifier → Modifier
with_version version st m = record m { current_version_id = version; status = st }

unfoldable pub update_modifier : ℕ → (Modifier → Modifier) → Bar → Bar
update_modifier mod_id f b = record b {
  modifiers = update_where (has_modifier_id mod_id) f b.modifiers;
}

-- INSERT INTO modifier_drafts ... ON CONFLICT (tenant_id, modifier_id) DO UPDATE
unfoldable pub upsert_modifier_draft :
    (tid mod_id : ℕ) → (parent : Option ℕ → Option ℕ) → List DraftIngredient → Bar → Bar
upsert_modifier_draft tid mod_id parent ingredients b = record b {
  drafts =
      if any (is_draft_of_modifier tid mod_id) b.drafts
      then update_where (is_draft_of_modifier tid mod_id)
          (λ d. record d {
            parent_modifier_version_id = parent d.parent_modifier_version_id;
            draft_ingredients = ingredients;
          })
          b.drafts
      else record {
        tenant_id = tid;
        modifier_id = mod_id;
        parent_modifier_version_id = parent none;
        draft_ingredients = ingredients;
      }
        ∷ b.drafts;
}

-- `if mod["status"] == "skipped"`
unfoldable pub reopen_skipped : Modifier → ℕ → Bar → Bar
reopen_skipped m mod_id b =
    if is_skipped m.status then update_modifier mod_id (with_status draft) b else b

unfoldable pub save_draft :
    (tid mid mod_id : ℕ) → List DraftIngredient → Bar → Result ModifierError Bar
save_draft tid mid mod_id ingredients b = do
  m ← require_modifier tid mid mod_id b
  raise_if (is_confirmed m.status) modifier_confirmed
  ok (upsert_modifier_draft tid mod_id (λ p. p) ingredients (reopen_skipped m mod_id b))

unfoldable pub skip_modifier : (tid mid mod_id : ℕ) → Bar → Result ModifierError Bar
skip_modifier tid mid mod_id b = do
  m ← require_modifier tid mid mod_id b
  raise_if (is_confirmed m.status) modifier_confirmed
  ok (update_modifier mod_id (with_status skipped) b)

-- The modifier's draft. The SELECT does not name the tenant.
abbrev find_draft : ℕ → Bar → Option ModifierDraft
find_draft mod_id b = find_first (λ d. d.modifier_id == mod_id) b.drafts

-- _as_list
abbrev pub ingredients_of : Option ModifierDraft → List DraftIngredient
ingredients_of none = []
ingredients_of (some d) = d.draft_ingredients

-- `raise EmptyDraft if draft is not None else NoDraft`
abbrev pub missing : Option ModifierDraft → ModifierError
missing none = no_draft
missing (some d) = empty_draft

-- COALESCE(MAX(version_number), 0)
unfoldable pub max_modifier_version : (tid mod_id : ℕ) → List ModifierVersion → ℕ
max_modifier_version tid mod_id [] = 0
max_modifier_version tid mod_id (v ∷ vs) =
    let rest = max_modifier_version tid mod_id vs in
    if v.tenant_id == tid && (v.modifier_id == mod_id) && ltb rest v.version_number
    then v.version_number
    else rest

-- Steps 2 and 3.
unfoldable pub insert_modifier_version : (tid mod_id : ℕ) → List (ℕ × DraftIngredient) → Bar → Bar
insert_modifier_version tid mod_id lines b =
    let mv = b.store.ledger.next_id in
    record b {
      store = record b.store { ledger = record b.store.ledger { next_id = suc mv } };
      versions =
          record {
            id = mv;
            tenant_id = tid;
            modifier_id = mod_id;
            version_number = max_modifier_version tid mod_id b.versions + 1;
            yield_quantity = 1;
          }
          ∷ b.versions;
      ingredients = ingredient_rows tid mv lines b.ingredients;
    }

-- Step 6.
abbrev delete_modifier_draft : (tid mod_id : ℕ) → Bar → Bar
delete_modifier_draft tid mod_id b = record b {
  drafts = select (λ d. not (is_draft_of_modifier tid mod_id d)) b.drafts;
}

-- Steps 2 to 6.
unfoldable pub write_version : (tid mod_id : ℕ) → List (ℕ × DraftIngredient) → Bar → Bar
write_version tid mod_id lines b = delete_modifier_draft tid mod_id (
    update_modifier mod_id (with_version (some b.store.ledger.next_id) confirmed)
      (insert_modifier_version tid mod_id lines b))

abbrev pub lift_resolve : {A : Type 0} → Result ResolveError A → Result ModifierError A
lift_resolve (ok a) = ok a
lift_resolve (err e) = err (resolve_raised e)

-- The three checks of the locked row.
unfoldable pub check_confirmable : Modifier → Result ModifierError Unit
check_confirmable m = do
  raise_if (is_confirmed m.status) modifier_confirmed
  raise_if (is_skipped m.status) modifier_skipped
  raise_if (not (is_additive m.modifier_type)) non_additive

unfoldable pub confirm_ingredients :
    Words → (tid mod_id : ℕ) → Option ModifierDraft → Bar → Result ModifierError Bar
confirm_ingredients w tid mod_id d b = do
  raise_if (is_empty (ingredients_of d)) (missing d)
  raise_if (has_duplicate_name w.norm (ingredients_of d)) duplicate_ingredient
  (s, lines) ← lift_resolve (resolve_all w.texts tid (ingredients_of d) b.store)
  ok (write_version tid mod_id lines (record b { store = s }))

unfoldable pub confirm_modifier : Words → (tid mid mod_id : ℕ) → Bar → Result ModifierError Bar
confirm_modifier w tid mid mod_id b = do
  m ← require_modifier tid mid mod_id b
  locked ← lock_modifier tid mod_id b
  check_confirmable locked
  confirm_ingredients w tid mod_id (find_draft mod_id b) b

unfoldable pub reopen_modifier : Words → (tid mod_id : ℕ) → Modifier → Bar → Bar
reopen_modifier w tid mod_id locked b =
    let rows =
      w.by_name (version_ingredients tid locked.current_version_id b.store.items b.ingredients) in
    update_modifier mod_id (with_version none draft)
      (upsert_modifier_draft tid mod_id (λ p. locked.current_version_id) rows b)

unfoldable pub unconfirm_modifier : Words → (tid mid mod_id : ℕ) → Bar → Result ModifierError Bar
unconfirm_modifier w tid mid mod_id b = do
  m ← require_modifier tid mid mod_id b
  locked ← lock_modifier tid mod_id b
  raise_if (not (is_confirmed locked.status)) modifier_not_confirmed
  ok (reopen_modifier w tid mod_id locked b)
