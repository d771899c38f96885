-- ===== src/Depletion/Walker/Outcome.antt =====
-- The outcomes of the walkers of depletion/walker.py.
use reorder_os.Prelude.{
  ℕ, ◌≡◌, ◌≢◌, refl, arith, false, ◌⊎◌, inl, inr, Bool, Option, none, some, List, [], ◌∷◌, ◌==◌,
  Bool-cases,
}
use reorder_os.Prelude.Int.{ℤ}
use reorder_os.Prelude.Result.{Result, ok, err}
use reorder_os.Prelude.Decimal.{Decimals}
use reorder_os.Schema.{
  DepletionStatus, pending, skipped, depleted, failed, unmapped, Reason, LineModifier,
  RecipeVersion,
}
use reorder_os.Depletion.Conversions.{ConvertError, value_error, conversion_error}
use reorder_os.Depletion.Conversions.Tiers.{convert_value_error_iff}
use reorder_os.Depletion.Walker.{
  Catalog, PlannedMovement, WalkOutcome, WalkRow, Aggregate, accumulate, group_eq, walk_rows,
  convert_row, walk_version, walk_base, walk_modifiers, base_rows, no_rows, base_movement,
  modifier_movement,
}

abbrev pub Shaped : DepletionStatus → Option Reason → List PlannedMovement → Type 0
Shaped depleted none ms = Unit
Shaped failed (some r) [] = Unit
Shaped unmapped (some r) [] = Unit
Shaped _ _ _ = ⊥

-- The same with one movement at least.
abbrev pub Filled : DepletionStatus → Option Reason → List PlannedMovement → Type 0
Filled depleted none (m ∷ ms) = Unit
Filled failed (some r) [] = Unit
Filled unmapped (some r) [] = Unit
Filled _ _ _ = ⊥

abbrev Shape : Type 1
Shape = DepletionStatus → Option Reason → List PlannedMovement → Type 0

-- The walk returned, with an outcome of a shape.
pub record Walked (S : Shape) (r : Result ConvertError WalkOutcome) : Type 0 where
  pub outcome : WalkOutcome
  pub returned : r ≡ ok outcome
  pub shape : S outcome.status outcome.reason outcome.movements

pub Filled-Shaped :
    (s : DepletionStatus) (r : Option Reason) (ms : List PlannedMovement)
    → Filled s r ms
    → Shaped s r ms
Filled-Shaped depleted none (m ∷ ms) h = tt
Filled-Shaped failed (some r) [] h = tt
Filled-Shaped unmapped (some r) [] h = tt
Filled-Shaped depleted none [] h = absurd h
Filled-Shaped depleted (some r) ms h = absurd h
Filled-Shaped failed none ms h = absurd h
Filled-Shaped failed (some r) (m ∷ ms) h = absurd h
Filled-Shaped unmapped none ms h = absurd h
Filled-Shaped unmapped (some r) (m ∷ ms) h = absurd h
Filled-Shaped pending r ms h = absurd h
Filled-Shaped skipped r ms h = absurd h

convert_cases :
    (x : Result ConvertError ℤ)
    → x ≢ err value_error
    → ((q : ℤ) × (x ≡ ok q)) ⊎ (x ≡ err conversion_error)
convert_cases (ok q) h = inl (q, refl)
convert_cases (err value_error) h = absurd (h refl)
convert_cases (err conversion_error) h = inr refl

module _ ⦃dec : Decimals⦄ where
  convert_row-ne-value_error :
      {K : Type 0} (cat : Catalog) (tid : ℕ) (r : WalkRow K)
      → convert_row cat tid r ≢ err value_error
  unfolding convert_row
  convert_row-ne-value_error cat tid r e =
      cc
        ((convert_value_error_iff cat.conversions r.quantity r.recipe_unit r.storage_unit
            (some r.item) (some tid)).0
          e).1

  walk_rows-Walked :
      {K : Type 0} (eq : K → K → Bool) (cat : Catalog) (tid : ℕ)
      (make : K → Aggregate → PlannedMovement) (rows : List (WalkRow K))
      (agg : List (K × Aggregate))
      → Walked Shaped (walk_rows eq cat tid make rows agg)
  unfolding walk_rows
  walk_rows-Walked eq cat tid make [] agg = record { outcome = _; returned = refl; shape = tt }
  walk_rows-Walked eq cat tid make (r ∷ rows) agg =
      elim (convert_cases (convert_row cat tid r) (convert_row-ne-value_error cat tid r)) [
        | inl (q, e) ↦ rw (e, walk_rows) (walk_rows-Walked eq cat tid make rows _)
        | inr e ↦ rw (e, walk_rows) (record { outcome = _; returned = refl; shape = tt })
      ]

  -- From an aggregation that has an entry.
  walk_rows-Filled :
      {K : Type 0} (eq : K → K → Bool) (cat : Catalog) (tid : ℕ)
      (make : K → Aggregate → PlannedMovement) (rows : List (WalkRow K)) (k : K) (a : Aggregate)
      (agg : List (K × Aggregate))
      → Walked Filled (walk_rows eq cat tid make rows ((k, a) ∷ agg))
  unfolding walk_rows accumulate
  walk_rows-Filled eq cat tid make [] k a agg = record { outcome = _; returned = refl; shape = tt }
  walk_rows-Filled eq cat tid make (r ∷ rows) k a agg =
      elim (convert_cases (convert_row cat tid r) (convert_row-ne-value_error cat tid r)) [
        | inr e ↦ rw (e, walk_rows) (record { outcome = _; returned = refl; shape = tt })
        | inl (q, e) ↦ elim (Bool-cases (eq k r.group)) [
          | inl y ↦ rw (e, walk_rows, y) (walk_rows-Filled eq cat tid make rows k _ agg)
          | inr n ↦ rw (e, walk_rows, n) (walk_rows-Filled eq cat tid make rows k a _)
        ]
      ]

  -- From one row at least.
  walk_rows_some-Filled :
      (eq : ℕ → ℕ → Bool) (cat : Catalog) (tid : ℕ) (make : ℕ → Aggregate → PlannedMovement)
      (rows : List (WalkRow ℕ))
      → no_rows rows ≡ false
      → Walked Filled (walk_rows eq cat tid make rows [])
  unfolding walk_rows accumulate
  walk_rows_some-Filled eq cat tid make [] h = absurd (ground arith)
  walk_rows_some-Filled eq cat tid make (r ∷ rows) h =
      elim (convert_cases (convert_row cat tid r) (convert_row-ne-value_error cat tid r)) [
        | inl (q, e) ↦ rw (e, walk_rows) (walk_rows-Filled eq cat tid make rows r.group _ [])
        | inr e ↦ rw (e, walk_rows) (record { outcome = _; returned = refl; shape = tt })
      ]

  walk_version-Walked :
      (cat : Catalog) (tid sli rv : ℕ) (qty : ℤ) (v : Option RecipeVersion)
      → Walked Filled (walk_version cat tid sli rv qty v)
  unfolding walk_version
  walk_version-Walked cat tid sli rv qty none = record { outcome = _; returned = refl; shape = tt }
  walk_version-Walked cat tid sli rv qty (some v) =
      let rows = base_rows cat tid rv qty v.yield_quantity cat.recipe_ingredients in
      elim (Bool-cases (no_rows rows)) [
        | inl e ↦ rw e (record { outcome = _; returned = refl; shape = tt })
        | inr e ↦ rw e (walk_rows_some-Filled ◌==◌ cat tid (base_movement sli rv) rows e)
      ]

  -- The base walk always returns: with one movement at least, no reason and status 'depleted', or with no
  -- movements, a reason and status 'failed' or 'unmapped'.
  pub walk_base-Walked :
      (cat : Catalog) (tid sli : ℕ) (rv : Option ℕ) (qty : ℤ)
      → Walked Filled (walk_base cat tid sli rv qty)
  unfolding walk_base
  walk_base-Walked cat tid sli none qty = record { outcome = _; returned = refl; shape = tt }
  walk_base-Walked cat tid sli (some rv) qty = walk_version-Walked cat tid sli rv qty _

  -- The walk of the modifiers always returns: with movements (none, where the line has no
  -- modifier), no reason and status 'depleted', or with no movements, a reason and status 'failed'
  -- or 'unmapped'.
  pub walk_modifiers-Walked :
      (cat : Catalog) (slims : List LineModifier) (tid sli : ℕ) (qty : ℤ)
      → Walked Shaped (walk_modifiers cat slims tid sli qty)
  unfolding walk_modifiers
  walk_modifiers-Walked cat slims tid sli qty =
      walk_rows-Walked group_eq cat tid (modifier_movement sli) _ []
