-- ===== src/Depletion/Conversions.antt =====
-- backend/app/modules/inventory/depletion/conversions.py
pub mod Tiers
use reorder_os.Prelude.{
  ℕ, String, Bool, not, ◌&&◌, ◌||◌, Option, none, some, List, [], ◌∷◌, sql_eq, is_some, str_eq,
  if◌then◌else◌,
}
use reorder_os.Prelude.Int.{ℤ}
use reorder_os.Prelude.Result.{Result, ok, err, ◌>>◌, raise_if}
use reorder_os.Prelude.Decimal.{Decimals}
use reorder_os.Depletion.Units.{is_canonical}

-- A row of unit_conversions.
pub record Conversion : Type 0 where
  pub from_unit : String
  pub to_unit : String
  pub factor : ℤ
  pub inventory_item_id : Option ℕ
  pub tenant_id : Option ℕ

-- ValueError, and the ConversionError that the walker handles.
pub data ConvertError : Type 0 where
  value_error conversion_error : ConvertError

-- The WHERE clause of _LOOKUP.
unfoldable pub is_candidate : String → String → Option ℕ → Option ℕ → Conversion → Bool
is_candidate f t iid tid c =
    str_eq c.from_unit f
    && str_eq c.to_unit t
    && ((sql_eq c.inventory_item_id iid && sql_eq c.tenant_id tid)
        || (not (is_some c.inventory_item_id) && sql_eq c.tenant_id tid)
        || (not (is_some c.inventory_item_id) && not (is_some c.tenant_id)))

-- ORDER BY (inventory_item_id IS NOT NULL) DESC, (tenant_id IS NOT NULL) DESC: the first of two
-- rows does not come after the second.
unfoldable pub ranks_before : Conversion → Conversion → Bool
ranks_before a b =
    if is_some a.inventory_item_id
    then not (is_some b.inventory_item_id) || is_some a.tenant_id || not (is_some b.tenant_id)
    else not (is_some b.inventory_item_id) && (is_some a.tenant_id || not (is_some b.tenant_id))

-- The better of a row and the best of the rows behind it. Among equal ranks the order of the
-- table decides.
unfoldable pub better : Conversion → Option Conversion → Conversion
better c none = c
better c (some d) = if ranks_before c d then c else d

-- WHERE, ORDER BY and LIMIT 1.
unfoldable pub lookup : String → String → Option ℕ → Option ℕ → List Conversion → Option Conversion
lookup f t iid tid [] = none
lookup f t iid tid (c ∷ cs) =
    let rest = lookup f t iid tid cs in
    if is_candidate f t iid tid c then some (better c rest) else rest

-- `inventory_item_id is not None and tenant_id is None`
abbrev breaks_contract : Option ℕ → Option ℕ → Bool
breaks_contract iid tid = is_some iid && not (is_some tid)

module _ ⦃dec : Decimals⦄ where
  abbrev pub scaled : ℤ → Option Conversion → Result ConvertError ℤ
  scaled qty none = err conversion_error
  scaled qty (some c) = ok (dec.mul qty c.factor)

  unfoldable pub convert :
      List Conversion → ℤ → String → String → Option ℕ → Option ℕ → Result ConvertError ℤ
  convert table qty f t iid tid = do
    raise_if (breaks_contract iid tid) value_error
    raise_if (not (is_canonical f)) conversion_error
    raise_if (not (is_canonical t)) conversion_error
    if str_eq f t then ok qty else scaled qty (lookup f t iid tid table)
