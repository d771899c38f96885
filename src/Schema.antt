-- ===== src/Schema.antt =====
-- The tables that the modelled code reads and writes, as records (backend/alembic/versions). A row
-- is named by its primary key, a number for the UUID; an instant is a number of microseconds; a
-- `numeric` is a count of the smallest unit (Prelude/Decimal.antt). Text under a CHECK constraint
-- that lists its values is a data type.
use reorder_os.Prelude.{ℕ, String, Bool, true, false, ◌&&◌, Option, List, [], ◌∷◌, ◌==◌, str_eq}
use reorder_os.Prelude.Int.{ℤ}
use reorder_os.Depletion.Units.{Dimension}

pub data Mode : Type 0 where
  recipe_deducted count_anchored : Mode

pub data MovementType : Type 0 where
  opening_balance receive sale_depletion sale_depletion_reversal sale_signal sale_signal_reversal
        count_adjust waste transfer_in transfer_out adjustment :
      MovementType

pub data SourceType : Type 0 where
  sale_line_item sale_line_item_modifier reversal opening count_event receipt_line
        receipt_adjustment :
      SourceType

-- An idempotency key is its parts between the colons: fixed words, identifiers, and other text
-- (an instant, a quantity) by its value.
pub data Part : Type 0 where
  word : String → Part
  uuid : ℕ → Part
  instant : ℕ → Part

abbrev pub Key : Type 0
Key = List Part

unfoldable pub part_eq : Part → Part → Bool
part_eq (word a) (word b) = str_eq a b
part_eq (uuid a) (uuid b) = a == b
part_eq (instant a) (instant b) = a == b
part_eq _ _ = false

unfoldable pub key_eq : Key → Key → Bool
key_eq [] [] = true
key_eq [] (q ∷ l) = false
key_eq (p ∷ k) [] = false
key_eq (p ∷ k) (q ∷ l) = part_eq p q && key_eq k l

-- A row of inventory_movements.
pub record Movement : Type 0 where
  pub id : ℕ
  pub tenant_id : ℕ
  pub inventory_item_id : ℕ
  pub movement_type : MovementType
  pub delta : ℤ
  pub source_type : SourceType
  pub source_id : Option ℕ
  pub idempotency_key : Key
  pub yield_factor_applied : Option ℤ
  pub recorded_at : ℕ
  pub created_at : ℕ

-- The ledger, with the clock of the transaction and the generator of identifiers.
pub record Ledger : Type 0 where
  pub now : ℕ
  pub next_id : ℕ
  pub movements : List Movement

-- inventory_items and units_of_measure
pub record Item : Type 0 where
  pub id : ℕ
  pub tenant_id : ℕ
  pub name : String
  pub active : Bool
  pub inventory_mode : Mode
  pub storage_unit_id : ℕ
  pub last_count_at : Option ℕ
  pub last_count_quantity : Option ℤ

pub record UnitOfMeasure : Type 0 where
  pub id : ℕ
  pub tenant_id : ℕ
  pub name : String
  pub unit_type : Dimension

pub record YieldFactor : Type 0 where
  pub tenant_id : ℕ
  pub inventory_item_id : ℕ
  pub yield_factor : ℤ

pub record RecipeVersion : Type 0 where
  pub id : ℕ
  pub tenant_id : ℕ
  pub yield_quantity : ℤ

-- A row of recipe_ingredients, and of modifier_ingredients: `version_id` is the recipe's or the
-- modifier's version.
pub record Ingredient : Type 0 where
  pub tenant_id : ℕ
  pub version_id : ℕ
  pub inventory_item_id : ℕ
  pub quantity : ℤ
  pub unit : String

-- A row of sale_line_item_modifiers.
pub record LineModifier : Type 0 where
  pub id : ℕ
  pub tenant_id : ℕ
  pub sale_line_item_id : ℕ
  pub modifier_id : ℕ
  pub modifier_version_id : ℕ
  pub quantity : ℤ
  pub pos_modifier_id : String

pub data PaymentState : Type 0 where
  open_ paid refunded credited partially_refunded : PaymentState

pub data OrderState : Type 0 where
  opened locked : OrderState

pub data DepletionStatus : Type 0 where
  pending depleted failed unmapped skipped : DepletionStatus

pub data Reason : Type 0 where
  sale_ineligible line_refunded no_recipe invalid_recipe missing_conversion : Reason

-- A row of sale_line_items.
pub record SaleLine : Type 0 where
  pub id : ℕ
  pub tenant_id : ℕ
  pub order_id : ℕ
  pub clover_line_item_id : String
  pub menu_item_id : Option ℕ
  pub name_at_sale : String
  pub quantity : ℤ
  pub price_cents_at_sale : ℤ
  pub discount_amount_cents : ℤ
  pub net_revenue_cents : ℤ
  pub is_refunded : Bool
  pub is_voided : Bool
  pub recipe_version_id : Option ℕ
  pub depletion_status : Option DepletionStatus
  pub depletion_reason : Option Reason

-- A row of inventory_count_events.
pub record CountEvent : Type 0 where
  pub id : ℕ
  pub tenant_id : ℕ
  pub inventory_item_id : ℕ
  pub counted_quantity : ℤ
  pub predicted_on_hand_at_count : Option ℤ
  pub counted_at : ℕ
  pub idempotency_key : Key
  pub reconciliation_cutoff_created_at : Option ℕ
