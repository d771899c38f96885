-- ===== src/Depletion/Units.antt =====
-- backend/app/modules/inventory/depletion/units.py
use reorder_os.Prelude.{
  String, Bool, false, Option, none, some, List, [], ◌∷◌, str_eq, is_some, if◌then◌else◌, ◌||◌,
}

abbrev weight_units : List String
weight_units = "g" ∷ "kg" ∷ "oz_weight" ∷ "lb" ∷ []

abbrev volume_units : List String
volume_units = "ml" ∷ "L" ∷ "fl_oz" ∷ "cup" ∷ "tsp" ∷ "tbsp" ∷ []

abbrev count_units : List String
count_units = "ea" ∷ "dozen" ∷ []

pub data Dimension : Type 0 where
  weight volume count : Dimension

unfoldable pub member : String → List String → Bool
member u [] = false
member u (x ∷ xs) = str_eq u x || member u xs

-- DIMENSION_OF.get(unit)
unfoldable pub dimension_of : String → Option Dimension
dimension_of u =
    if member u weight_units
    then some weight
    else if member u volume_units
    then some volume
    else if member u count_units
    then some count
    else none

-- `unit in CANONICAL_UNITS`
unfoldable pub is_canonical : String → Bool
is_canonical u = is_some (dimension_of u)
