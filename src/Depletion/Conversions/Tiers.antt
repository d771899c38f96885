-- ===== src/Depletion/Conversions/Tiers.antt =====
-- The lookup of depletion/conversions.py and its description as three tiers.
use reorder_os.Prelude.{
  ℕ, String, ◌≡◌, refl, ◌↔◌, inl, inr, Bool, true, false, not, ◌&&◌, ◌||◌, Option, none, some, List,
  [], ◌∷◌, arith, find_first, select, sql_eq, is_some, str_eq, Option-cases,
}
use reorder_os.Prelude.Int.{ℤ}
use reorder_os.Prelude.Result.{err}
use reorder_os.Prelude.Decimal.{Decimals}
use reorder_os.Depletion.Units.{is_canonical}
use reorder_os.Depletion.Conversions.{
  Conversion, value_error, is_candidate, better, ranks_before, lookup, convert, scaled,
}

abbrev pub of_units : String → String → Conversion → Bool
of_units f t c = str_eq c.from_unit f && str_eq c.to_unit t

abbrev pub in_item_tier : String → String → Option ℕ → Option ℕ → Conversion → Bool
in_item_tier f t iid tid c =
    of_units f t c && (sql_eq c.inventory_item_id iid && sql_eq c.tenant_id tid)

abbrev pub in_tenant_tier : String → String → Option ℕ → Conversion → Bool
in_tenant_tier f t tid c =
    of_units f t c && (not (is_some c.inventory_item_id) && sql_eq c.tenant_id tid)

abbrev pub in_global_tier : String → String → Conversion → Bool
in_global_tier f t c =
    of_units f t c && (not (is_some c.inventory_item_id) && not (is_some c.tenant_id))

abbrev pub or_else {ℓ} : {A : Type ℓ} → Option A → Option A → Option A
or_else (some a) o = some a
or_else none o = o

-- The description: a row of the item, else of the tenant, else of the whole platform.
abbrev pub by_tiers : String → String → Option ℕ → Option ℕ → List Conversion → Option Conversion
by_tiers f t iid tid cs =
    or_else (find_first (in_item_tier f t iid tid) cs)
      (or_else (find_first (in_tenant_tier f t tid) cs) (find_first (in_global_tier f t) cs))

pub find_first-holds {ℓ} :
    {A : Type ℓ} (p : A → Bool) (xs : List A) (a : A) → find_first p xs ≡ some a → p a ≡ true
find_first-holds p [] a h = cc
find_first-holds p (x ∷ xs) a h = ground (arith, find_first-holds p xs a)

-- One more row in front, given that the rest is ranked by the tiers.
module _ (f t : String) (iid tid : Option ℕ) (c : Conversion) (cs : List Conversion) where
  lookup_step :
      lookup f t iid tid cs ≡ by_tiers f t iid tid cs
      → lookup f t iid tid (c ∷ cs) ≡ by_tiers f t iid tid (c ∷ cs)
  unfolding lookup is_candidate better ranks_before
  lookup_step ih = elim (Option-cases (find_first (in_item_tier f t iid tid) cs)) [
    | inr (d, e) ↦ ground (arith, find_first-holds (in_item_tier f t iid tid) cs d e)
    | inl e ↦ elim (Option-cases (find_first (in_tenant_tier f t tid) cs)) [
      | inr (d, e') ↦ ground (arith, find_first-holds (in_tenant_tier f t tid) cs d e')
      | inl e' ↦ elim (Option-cases (find_first (in_global_tier f t) cs)) [
        | inr (d, e'') ↦ ground (arith, find_first-holds (in_global_tier f t) cs d e'')
        | inl e'' ↦ ground arith
      ]
    ]
  ]

-- The one query with its WHERE, ORDER BY and LIMIT 1 finds what the three tiers find in order.
pub lookup-eq-by_tiers :
    (f t : String) (iid tid : Option ℕ) (table : List Conversion)
    → lookup f t iid tid table ≡ by_tiers f t iid tid table
unfolding lookup is_candidate better ranks_before
lookup-eq-by_tiers f t iid tid [] = refl
lookup-eq-by_tiers f t iid tid (c ∷ cs) =
    lookup_step f t iid tid c cs (lookup-eq-by_tiers f t iid tid cs)

-- The rows that a tenant may see: its own and the platform's.
abbrev pub is_visible : Option ℕ → Conversion → Bool
is_visible tid c = not (is_some c.tenant_id) || sql_eq c.tenant_id tid

lookup-select :
    (f t : String) (iid tid : Option ℕ) (table : List Conversion)
    → lookup f t iid tid (select (is_visible tid) table) ≡ lookup f t iid tid table
unfolding lookup is_candidate better ranks_before
lookup-select f t iid tid [] = refl
lookup-select f t iid tid (c ∷ cs) = ground (arith, lookup-select f t iid tid cs)

module _ ⦃dec : Decimals⦄ where
  -- A conversion does not depend on the rows of other tenants: with those removed from the table
  -- the result, or the error, is the same.
  pub convert-isolated :
      (table : List Conversion) (qty : ℤ) (f t : String) (iid tid : Option ℕ)
      → convert (select (is_visible tid) table) qty f t iid tid ≡ convert table qty f t iid tid
  unfolding convert
  convert-isolated table qty f t iid tid = rw (lookup-select f t iid tid table)

  -- A conversion raises ValueError exactly when an item is given without a tenant.
  pub convert_value_error_iff :
      (table : List Conversion) (qty : ℤ) (f t : String) (iid tid : Option ℕ)
      → (convert table qty f t iid tid ≡ err value_error)
        ↔ ((is_some iid ≡ true) × (is_some tid ≡ false))
  unfolding convert
  convert_value_error_iff table qty f t iid tid = (λ h. ground arith, λ h. rw (h.0, h.1))

  -- Between two different known units, with a tenant given, the quantity is multiplied by the
  -- factor of the item's row, else of the tenant's, else of the platform's; with none of these
  -- rows it is a ConversionError.
  pub convert-by_tiers :
      (table : List Conversion) (qty : ℤ) (f t : String) (iid : Option ℕ) (tid : ℕ)
      → is_canonical f ≡ true
      → is_canonical t ≡ true
      → str_eq f t ≡ false
      → convert table qty f t iid (some tid) ≡ scaled qty (by_tiers f t iid (some tid) table)
  unfolding convert
  convert-by_tiers table qty f t iid tid cf ct ne =
      ground (arith, lookup-eq-by_tiers f t iid (some tid) table)
