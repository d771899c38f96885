-- ===== src/Depletion/Walker.antt =====
-- backend/app/modules/inventory/depletion/walker.py: the planned movements of one sale line. The
-- walkers read the catalog and write nothing.
pub mod Outcome
pub mod Sums
use reorder_os.Prelude.{
  ℕ, String, Bool, true, false, ◌&&◌, Option, none, some, List, [], ◌∷◌, ◌++◌, map, find_first,
  ◌==◌, if◌then◌else◌,
}
use reorder_os.Prelude.Int.{ℤ}
use reorder_os.Prelude.Result.{Result, ok, err}
use reorder_os.Prelude.Decimal.{Decimals}
use reorder_os.Schema.{
  Mode, recipe_deducted, count_anchored, MovementType, sale_depletion, sale_signal, SourceType,
  sale_line_item, sale_line_item_modifier, Key, word, uuid, Item, UnitOfMeasure, YieldFactor,
  RecipeVersion, Ingredient, LineModifier, DepletionStatus, depleted, failed, unmapped, Reason,
  no_recipe, invalid_recipe, missing_conversion,
}
use reorder_os.Depletion.Conversions.{
  Conversion, ConvertError, value_error, conversion_error, convert,
}

-- The tables that the walkers read, but for the frozen modifiers of the line.
pub record Catalog : Type 0 where
  pub conversions : List Conversion
  pub recipe_versions : List RecipeVersion
  pub recipe_ingredients : List Ingredient
  pub modifier_versions : List RecipeVersion
  pub modifier_ingredients : List Ingredient
  pub items : List Item
  pub units : List UnitOfMeasure
  pub yield_factors : List YieldFactor

pub record PlannedMovement : Type 0 where
  pub inventory_item_id : ℕ
  pub movement_type : MovementType
  pub delta : ℤ
  pub yield_factor_applied : ℤ
  pub idempotency_key : Key
  pub legacy_key : Option Key
  pub source_type : SourceType
  pub source_id : ℕ

pub record WalkOutcome : Type 0 where
  pub movements : List PlannedMovement
  pub status : DepletionStatus
  pub reason : Option Reason

abbrev pub no_deplete : DepletionStatus → Reason → WalkOutcome
no_deplete s r = record { movements = []; status = s; reason = some r }

abbrev pub plan : List PlannedMovement → WalkOutcome
plan ms = record { movements = ms; status = depleted; reason = none }

-- A row of the walkers' SELECT ... JOIN. `group` is the key of the aggregation, `multiplier` the
-- factors of the magnitude beside the converted quantity.
pub record WalkRow (K : Type 0) : Type 0 where
  pub group : K
  pub item : ℕ
  pub quantity : ℤ
  pub recipe_unit : String
  pub storage_unit : String
  pub mode : Mode
  pub multiplier : ℤ
  pub yield_quantity : ℤ

-- An entry of the dict `agg`.
pub record Aggregate : Type 0 where
  pub mtype : MovementType
  pub delta : ℤ
  pub yf : ℤ

-- JOIN inventory_items, JOIN units_of_measure
unfoldable pub storage_of : Catalog → ℕ → Option (Mode × String)
storage_of cat iid = elim (find_first (λ i. i.id == iid) cat.items) [
  | none ↦ none
  | some i ↦ elim (find_first (λ u. u.id == i.storage_unit_id) cat.units) [
    | none ↦ none
    | some u ↦ some (i.inventory_mode, u.name)
  ]
]

abbrev with_storage {ℓ} :
    {A : Type ℓ} → Option (Mode × String) → (Mode → String → A) → List A → List A
with_storage none make rest = rest
with_storage (some (m, u)) make rest = make m u ∷ rest

abbrev of_version : ℕ → ℕ → Ingredient → Bool
of_version v tid g = g.version_id == v && (g.tenant_id == tid)

-- WHERE ri.recipe_version_id = :rv AND ri.tenant_id = :tid
unfoldable pub base_rows :
    Catalog → (tid rv : ℕ) → (line_quantity yield_quantity : ℤ) → List Ingredient → List (WalkRow ℕ)
base_rows cat tid rv qty yield_q [] = []
base_rows cat tid rv qty yield_q (g ∷ gs) =
    let rest = base_rows cat tid rv qty yield_q gs in
    if of_version rv tid g
    then with_storage (storage_of cat g.inventory_item_id)
        (λ m u. record {
          group = g.inventory_item_id;
          item = g.inventory_item_id;
          quantity = g.quantity;
          recipe_unit = g.unit;
          storage_unit = u;
          mode = m;
          multiplier = qty;
          yield_quantity = yield_q;
        })
        rest
    else rest

-- The key of the modifiers' aggregation: slim id, modifier version, item.
abbrev pub ModifierGroup : Type 0
ModifierGroup = ℕ × ℕ × ℕ

abbrev pub group_eq : ModifierGroup → ModifierGroup → Bool
group_eq (a, b, c) (d, e, f) = a == d && (b == e) && (c == f)

-- The aggregation of both walkers: a dict in the order of insertion.
module _ {K : Type 0} (eq : K → K → Bool) where
  unfoldable pub accumulate :
      (ℤ → ℤ → ℤ) → K → Aggregate → List (K × Aggregate) → List (K × Aggregate)
  accumulate add k a [] = (k, a) ∷ []
  accumulate add k a ((j, b) ∷ agg) =
      if eq j k
      then (j, record b { delta = add b.delta a.delta }) ∷ agg
      else (j, b) ∷ accumulate add k a agg

module _ ⦃dec : Decimals⦄ where
  -- `SELECT yield_factor ...`, or 1.0
  unfoldable pub yield_factor_of : Catalog → (tid iid : ℕ) → ℤ
  yield_factor_of cat tid iid =
      elim (find_first (λ y. y.tenant_id == tid && (y.inventory_item_id == iid))
        cat.yield_factors) [ none ↦ dec.one | some y ↦ y.yield_factor ]

  abbrev pub mode_type : Mode → MovementType
  mode_type recipe_deducted = sale_depletion
  mode_type count_anchored = sale_signal

  -- `mtype, signed`
  abbrev pub signed : Mode → ℤ → ℤ
  signed recipe_deducted magnitude = dec.neg magnitude
  signed count_anchored magnitude = magnitude

  -- What a row, converted to `storage_qty`, adds to the aggregate of its group.
  unfoldable pub contribution : {K : Type 0} → Catalog → ℕ → WalkRow K → ℤ → Aggregate
  contribution cat tid r storage_qty = record {
    mtype = mode_type r.mode;
    delta = signed r.mode (dec.div (dec.mul r.multiplier storage_qty) r.yield_quantity);
    yf = yield_factor_of cat tid r.item;
  }

  unfoldable pub convert_row : {K : Type 0} → Catalog → ℕ → WalkRow K → Result ConvertError ℤ
  convert_row cat tid r =
      convert cat.conversions r.quantity r.recipe_unit r.storage_unit (some r.item) (some tid)

  -- The loop over the rows. A missing conversion ends it with a verdict; any other exception
  -- leaves it.
  unfoldable pub walk_rows :
      {K : Type 0} (eq : K → K → Bool)
      → Catalog
      → ℕ
      → (K → Aggregate → PlannedMovement)
      → List (WalkRow K)
      → List (K × Aggregate)
      → Result ConvertError WalkOutcome
  walk_rows eq cat tid make [] agg = ok (plan (map (λ e. make e.0 e.1) agg))
  walk_rows eq cat tid make (r ∷ rows) agg = elim (convert_row cat tid r) [
    | ok q ↦
        walk_rows eq cat tid make rows
          (accumulate eq dec.add r.group (contribution cat tid r q) agg)
    | err conversion_error ↦ ok (no_deplete failed missing_conversion)
    | err value_error ↦ err value_error
  ]

  abbrev pub base_key : (sli rv iid : ℕ) → Key
  base_key sli rv iid = word "sale_line" ∷ uuid sli ∷ word "base" ∷ uuid rv ∷ uuid iid ∷ []

  abbrev pub legacy_key_of : (sli iid : ℕ) → Key
  legacy_key_of sli iid = word "sale_line" ∷ uuid sli ∷ uuid iid ∷ []

  abbrev pub modifier_key : (sli : ℕ) → ModifierGroup → Key
  modifier_key sli (slim, mv, iid) =
      word "sale_line" ∷ uuid sli ∷ word "modifier" ∷ uuid slim ∷ uuid mv ∷ uuid iid ∷ []

  abbrev pub base_movement : (sli rv : ℕ) → ℕ → Aggregate → PlannedMovement
  base_movement sli rv iid v = record {
    inventory_item_id = iid;
    movement_type = v.mtype;
    delta = v.delta;
    yield_factor_applied = v.yf;
    idempotency_key = base_key sli rv iid;
    legacy_key = some (legacy_key_of sli iid);
    source_type = sale_line_item;
    source_id = sli;
  }

  abbrev pub modifier_movement : (sli : ℕ) → ModifierGroup → Aggregate → PlannedMovement
  modifier_movement sli (slim, mv, iid) v = record {
    inventory_item_id = iid;
    movement_type = v.mtype;
    delta = v.delta;
    yield_factor_applied = v.yf;
    idempotency_key = modifier_key sli (slim, mv, iid);
    legacy_key = none;
    source_type = sale_line_item_modifier;
    source_id = slim;
  }

  abbrev pub no_rows : List (WalkRow ℕ) → Bool
  no_rows [] = true
  no_rows (r ∷ rows) = false

  unfoldable pub walk_version :
      Catalog
      → (tid sli rv : ℕ) → (line_quantity : ℤ) → Option RecipeVersion
      → Result ConvertError WalkOutcome
  walk_version cat tid sli rv qty none = ok (no_deplete failed invalid_recipe)
  walk_version cat tid sli rv qty (some v) =
      let rows = base_rows cat tid rv qty v.yield_quantity cat.recipe_ingredients in
      if no_rows rows
      then ok (no_deplete failed invalid_recipe)
      else walk_rows ◌==◌ cat tid (base_movement sli rv) rows []

  unfoldable pub walk_base :
      Catalog
      → (tid sli : ℕ) → (recipe_version_id : Option ℕ) → (line_quantity : ℤ)
      → Result ConvertError WalkOutcome
  walk_base cat tid sli none qty = ok (no_deplete unmapped no_recipe)
  walk_base cat tid sli (some rv) qty =
      walk_version cat tid sli rv qty
        (find_first (λ v. v.id == rv && (v.tenant_id == tid)) cat.recipe_versions)

  -- One frozen modifier joined with the ingredients of its version.
  unfoldable pub modifier_rows_of :
      Catalog
      → (tid : ℕ) → (line_quantity : ℤ) → LineModifier
      → (yield_quantity : ℤ) → List Ingredient
      → List (WalkRow ModifierGroup)
  modifier_rows_of cat tid qty s yield_q [] = []
  modifier_rows_of cat tid qty s yield_q (g ∷ gs) =
      let rest = modifier_rows_of cat tid qty s yield_q gs in
      if of_version s.modifier_version_id tid g
      then with_storage (storage_of cat g.inventory_item_id)
          (λ m u. record {
            group = (s.id, s.modifier_version_id, g.inventory_item_id);
            item = g.inventory_item_id;
            quantity = g.quantity;
            recipe_unit = g.unit;
            storage_unit = u;
            mode = m;
            multiplier = dec.mul qty s.quantity;
            yield_quantity = yield_q;
          })
          rest
      else rest

  -- WHERE slim.sale_line_item_id = :sli AND slim.tenant_id = :tid, JOIN modifier_versions
  unfoldable pub modifier_rows :
      Catalog
      → (tid sli : ℕ) → (line_quantity : ℤ) → List LineModifier
      → List (WalkRow ModifierGroup)
  modifier_rows cat tid sli qty [] = []
  modifier_rows cat tid sli qty (s ∷ slims) =
      let rest = modifier_rows cat tid sli qty slims in
      if s.sale_line_item_id == sli && (s.tenant_id == tid)
      then elim (find_first (λ v. v.id == s.modifier_version_id) cat.modifier_versions) [
        | none ↦ rest
        | some v ↦ modifier_rows_of cat tid qty s v.yield_quantity cat.modifier_ingredients ++ rest
      ]
      else rest

  unfoldable pub walk_modifiers :
      Catalog
      → List LineModifier
      → (tid sli : ℕ) → (line_quantity : ℤ) → Result ConvertError WalkOutcome
  walk_modifiers cat slims tid sli qty =
      walk_rows group_eq cat tid (modifier_movement sli) (modifier_rows cat tid sli qty slims) []
