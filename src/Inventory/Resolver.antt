-- ===== src/Inventory/Resolver.antt =====
-- resolve_inventory_item of backend/app/modules/inventory/item_resolver.py: the unit and the item
-- of a name, created where they are missing. The text functions of PostgreSQL are parameters.
pub mod Names
use reorder_os.Prelude.{
  ℕ, suc, String, Bool, true, false, ◌&&◌, none, some, ◌∷◌, any, find_first, str_eq, ◌==◌,
  if◌then◌else◌,
}
use reorder_os.Prelude.Result.{Result, ok, err, ◌>>=◌}
use reorder_os.Schema.{recipe_deducted, Item, UnitOfMeasure}
use reorder_os.Depletion.Units.{Dimension, weight, volume, count, dimension_of}
use reorder_os.Receipts.{Store}

pub data ResolveError : Type 0 where
  -- the KeyError of DIMENSION_OF, UnitTypeConflict, and what .one() raises
  unknown_unit unit_type_conflict no_row : ResolveError

-- btrim and lower
pub record Texts : Type 0 where
  pub btrim : String → String
  pub lower : String → String

abbrev pub dimension_eq : Dimension → Dimension → Bool
dimension_eq weight weight = true
dimension_eq volume volume = true
dimension_eq count count = true
dimension_eq _ _ = false

abbrev pub is_unit_named : (tid : ℕ) → String → UnitOfMeasure → Bool
is_unit_named tid name u = u.tenant_id == tid && str_eq u.name name

-- INSERT INTO units_of_measure ... ON CONFLICT DO NOTHING
unfoldable pub ensure_unit : (tid : ℕ) → String → Dimension → Store → Store
ensure_unit tid unit dim s =
    let id = s.ledger.next_id in
    if any (is_unit_named tid unit) s.units then s else record s {
      ledger = record s.ledger { next_id = suc id };
      units = record { id = id; tenant_id = tid; name = unit; unit_type = dim } ∷ s.units;
    }

-- The SELECT of the unit, and its check.
unfoldable pub unit_of : (tid : ℕ) → String → Dimension → Store → Result ResolveError ℕ
unit_of tid unit dim s = elim (find_first (is_unit_named tid unit) s.units) [
  | none ↦ err no_row
  | some u ↦ if dimension_eq u.unit_type dim then ok u.id else err unit_type_conflict
]

-- (tenant_id, lower(btrim(name)))
abbrev pub is_item_named : Texts → (tid : ℕ) → String → Item → Bool
is_item_named t tid name i =
    i.tenant_id == tid && str_eq (t.lower (t.btrim i.name)) (t.lower (t.btrim name))

-- INSERT INTO inventory_items ... ON CONFLICT DO NOTHING
unfoldable pub ensure_item : Texts → (tid : ℕ) → String → (unit_id : ℕ) → Store → Store
ensure_item t tid name unit_id s =
    let id = s.ledger.next_id in
    if any (is_item_named t tid name) s.items then s else record s {
      ledger = record s.ledger { next_id = suc id };
      items =
          record {
            id = id;
            tenant_id = tid;
            name = t.btrim name;
            active = true;
            inventory_mode = recipe_deducted;
            storage_unit_id = unit_id;
            last_count_at = none;
            last_count_quantity = none;
          }
          ∷ s.items;
    }

abbrev pub item_id_of : Texts → (tid : ℕ) → String → Store → Result ResolveError ℕ
item_id_of t tid name s = elim (find_first (is_item_named t tid name) s.items) [
  | none ↦ err no_row
  | some i ↦ ok i.id
]

unfoldable pub resolve_known :
    Texts → (tid : ℕ) (name unit : String) → Dimension → Store → Result ResolveError (Store × ℕ)
resolve_known t tid name unit dim s = do
  let s₁ = ensure_unit tid unit dim s
  unit_id ← unit_of tid unit dim s₁
  let s₂ = ensure_item t tid name unit_id s₁
  id ← item_id_of t tid name s₂
  ok (s₂, id)

unfoldable pub resolve_inventory_item :
    Texts → (tid : ℕ) (name unit : String) → Store → Result ResolveError (Store × ℕ)
resolve_inventory_item t tid name unit s = elim (dimension_of unit) [
  | none ↦ err unknown_unit
  | some dim ↦ resolve_known t tid name unit dim s
]
