-- ===== src/Depletion/Walker/Sums.antt =====
-- The aggregation of walk_base of depletion/walker.py.
use reorder_os.Prelude.{
  ℕ, ◌≡◌, refl, ◌∙◌, inl, inr, Bool, true, false, ◌&&◌, Option, none, some, List, [], ◌∷◌, map,
  arith, find_first, any, ◌==◌, if◌then◌else◌, Bool-cases, Option-cases,
}
use reorder_os.Prelude.Int.{ℤ}
use reorder_os.Prelude.Result.{ok, err, Result-cases}
use reorder_os.Prelude.Decimal.{Decimals}
use reorder_os.Schema.{RecipeVersion}
use reorder_os.Depletion.Conversions.{value_error, conversion_error}
use reorder_os.Depletion.Handler.{is_depleted}
use reorder_os.Depletion.Walker.{
  Catalog, PlannedMovement, WalkOutcome, WalkRow, Aggregate, accumulate, contribution, convert_row,
  walk_rows, base_movement, plan, base_rows, walk_base, walk_version, no_rows,
}

-- The delta of the first entry, or movement, of an item.
abbrev entry_delta : ℕ → List (ℕ × Aggregate) → Option ℤ
entry_delta iid [] = none
entry_delta iid ((j, b) ∷ agg) = if j == iid then some b.delta else entry_delta iid agg

abbrev pub planned_delta : ℕ → List PlannedMovement → Option ℤ
planned_delta iid [] = none
planned_delta iid (mv ∷ ms) =
    if mv.inventory_item_id == iid then some mv.delta else planned_delta iid ms

abbrev has_entry : ℕ → List (ℕ × Aggregate) → Bool
has_entry iid agg = any (λ e. e.0 == iid) agg

-- Each item has one movement at most.
abbrev pub ItemsDistinct : List PlannedMovement → Type 0
ItemsDistinct [] = Unit
ItemsDistinct (mv ∷ ms) =
    (any (λ x. x.inventory_item_id == mv.inventory_item_id) ms ≡ false) × ItemsDistinct ms

abbrev EntriesDistinct : List (ℕ × Aggregate) → Type 0
EntriesDistinct [] = Unit
EntriesDistinct ((j, b) ∷ agg) = (has_entry j agg ≡ false) × EntriesDistinct agg

module _ ⦃dec : Decimals⦄ where
  -- One more contribution.
  abbrev pub plus : Option ℤ → ℤ → Option ℤ
  plus none d = some d
  plus (some t) d = some (dec.add t d)

  -- The description: the sum over the rows of the item, each converted on its own.
  abbrev pub needed : Catalog → (tid iid : ℕ) → List (WalkRow ℕ) → Option ℤ → Option ℤ
  needed cat tid iid [] total = total
  needed cat tid iid (r ∷ rows) total = needed cat tid iid rows (
      if r.group == iid
      then elim (convert_row cat tid r) [
        | ok q ↦ plus total (contribution cat tid r q).delta
        | err e ↦ total
      ]
      else total)

  entry_delta-accumulate :
      (iid k : ℕ) (a : Aggregate) (agg : List (ℕ × Aggregate))
      → entry_delta iid (accumulate ◌==◌ dec.add k a agg)
        ≡ (if k == iid then plus (entry_delta iid agg) a.delta else entry_delta iid agg)
  unfolding accumulate
  entry_delta-accumulate iid k a [] = ground arith
  entry_delta-accumulate iid k a ((j, b) ∷ agg) = ground (arith, entry_delta-accumulate iid k a agg)

  has_entry-accumulate :
      (iid k : ℕ) (a : Aggregate) (agg : List (ℕ × Aggregate))
      → (k == iid) ≡ false
      → has_entry iid (accumulate ◌==◌ dec.add k a agg) ≡ has_entry iid agg
  unfolding accumulate
  has_entry-accumulate iid k a [] h = ground arith
  has_entry-accumulate iid k a ((j, b) ∷ agg) h = ground (arith, has_entry-accumulate iid k a agg h)

  accumulate-EntriesDistinct :
      (k : ℕ) (a : Aggregate) (agg : List (ℕ × Aggregate))
      → EntriesDistinct agg
      → EntriesDistinct (accumulate ◌==◌ dec.add k a agg)
  unfolding accumulate
  accumulate-EntriesDistinct k a [] d = (refl, tt)
  accumulate-EntriesDistinct k a ((j, b) ∷ agg) d = elim (Bool-cases (j == k)) [
    | inl e ↦ rw e d
    | inr n ↦ rw n (
      has_entry-accumulate j k a agg (ground arith) ∙ d.0,
      accumulate-EntriesDistinct k a agg d.1,
    )
  ]

  planned_delta-map :
      (sli rv iid : ℕ) (agg : List (ℕ × Aggregate))
      → planned_delta iid (map (λ e. base_movement sli rv e.0 e.1) agg) ≡ entry_delta iid agg
  planned_delta-map sli rv iid [] = refl
  planned_delta-map sli rv iid ((j, b) ∷ agg) = ground (arith, planned_delta-map sli rv iid agg)

  any-map :
      (sli rv iid : ℕ) (agg : List (ℕ × Aggregate))
      → any (λ x. x.inventory_item_id == iid) (map (λ e. base_movement sli rv e.0 e.1) agg)
        ≡ has_entry iid agg
  any-map sli rv iid [] = refl
  any-map sli rv iid ((j, b) ∷ agg) = rw (any-map sli rv iid agg) refl

  map-ItemsDistinct :
      (sli rv : ℕ) (agg : List (ℕ × Aggregate))
      → EntriesDistinct agg
      → ItemsDistinct (map (λ e. base_movement sli rv e.0 e.1) agg)
  map-ItemsDistinct sli rv [] d = tt
  map-ItemsDistinct sli rv ((j, b) ∷ agg) d =
      (any-map sli rv j agg ∙ d.0, map-ItemsDistinct sli rv agg d.1)

  module _ (cat : Catalog) (tid sli rv iid : ℕ) where
    walk_rows-needed :
        (rows : List (WalkRow ℕ)) (agg : List (ℕ × Aggregate)) (o : WalkOutcome)
        → EntriesDistinct agg
        → walk_rows ◌==◌ cat tid (base_movement sli rv) rows agg ≡ ok o
        → is_depleted o.status ≡ true
        → (planned_delta iid o.movements ≡ needed cat tid iid rows (entry_delta iid agg))
          × ItemsDistinct o.movements
    unfolding walk_rows
    walk_rows-needed [] agg o d e h =
        let same : plan (map (λ x. base_movement sli rv x.0 x.1) agg) ≡ o = cc (e) in
        rw (← same) (planned_delta-map sli rv iid agg, map-ItemsDistinct sli rv agg d)
    walk_rows-needed (r ∷ rows) agg o d e h = elim (Result-cases (convert_row cat tid r)) [
      | inl (value_error, c) ↦ absurd (let e' = (rw (walk_rows, c) at e) in ground arith)
      | inl (conversion_error, c) ↦ absurd (let e' = (rw (walk_rows, c) at e) in ground arith)
      | inr (q, c) ↦
          let e' = (rw (walk_rows, c) at e) in
          let (sums, distinct) =
            walk_rows-needed rows (accumulate ◌==◌ dec.add r.group (contribution cat tid r q) agg) o
              (accumulate-EntriesDistinct r.group (contribution cat tid r q) agg d) e' h in
          (
            rw c (rw (entry_delta-accumulate iid r.group (contribution cat tid r q) agg) at sums),
            distinct,
          )
    ]

    -- When the base walk of a recipe depletes, the version exists, and for every item the planned
    -- movement carries the sum of what the item's rows contribute, each converted on its own and
    -- added in the order of the recipe (no movement where the item has no row); no item has two
    -- movements.
    pub walk_base-needed :
        (qty : ℤ) (o : WalkOutcome)
        → walk_base cat tid sli (some rv) qty ≡ ok o
        → is_depleted o.status ≡ true
        → (v : RecipeVersion) × (find_first
              (λ x. x.id == rv && (x.tenant_id == tid))
              cat.recipe_versions
            ≡ some v)
          × (planned_delta iid o.movements
              ≡ needed cat tid iid
                  (base_rows cat tid rv qty v.yield_quantity cat.recipe_ingredients)
                  none)
          × ItemsDistinct o.movements
    unfolding walk_base walk_version
    walk_base-needed qty o e h =
        elim (Option-cases
          (find_first (λ x. x.id == rv && (x.tenant_id == tid)) cat.recipe_versions)) [
            | inl absent ↦ absurd (let e' = (rw (walk_base, absent) at e) in ground arith)
            | inr (v, found) ↦
                let rows = base_rows cat tid rv qty v.yield_quantity cat.recipe_ingredients in
                elim (Bool-cases (no_rows rows)) [
                  | inl empty ↦
                      absurd
                        (let e' = (rw (walk_base, found, walk_version, empty) at e) in ground arith)
                  | inr full ↦
                      let e' = (rw (walk_base, found, walk_version, full) at e) in
                      let (sums, distinct) = walk_rows-needed rows [] o tt e' h in
                      (v, found, sums, distinct)
                ]
          ]
