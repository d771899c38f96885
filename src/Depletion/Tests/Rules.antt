-- ===== src/Depletion/Tests/Rules.antt =====
-- Runs of the conversions, the resolver, the writer and the walkers of depletion.
use reorder_os.Prelude.{find_first, ◌==◌, ◌&&◌, ◌≡◌, refl, none, some, [], ◌∷◌, select}
use reorder_os.Prelude.Int.{pos, negsuc, ◌+ℤ◌, ◌-ℤ◌, ◌*ℤ◌}
use reorder_os.Prelude.Result.{ok}
use reorder_os.Prelude.Decimal.{exact}
use reorder_os.Schema.{RecipeVersion, sale_depletion, sale_line_item}
use reorder_os.Depletion.Units.{is_canonical, dimension_of, member}
use reorder_os.Depletion.Conversions.{is_candidate, ranks_before, better, lookup, convert}
use reorder_os.Depletion.Conversions.Tiers.{
  by_tiers, is_visible, lookup-eq-by_tiers, convert-isolated,
}
use reorder_os.Depletion.Writer.{write_movement}
use reorder_os.Depletion.Writer.Replay.{write_movement_replay}
use reorder_os.Depletion.Walker.{
  WalkOutcome, plan, base_movement, Catalog, storage_of, base_rows, accumulate, yield_factor_of,
  contribution, convert_row, walk_rows, walk_version, walk_base, base_key, legacy_key_of,
}
use reorder_os.Depletion.Walker.Sums.{needed, ItemsDistinct, walk_base-needed}
use reorder_os.Depletion.Walker.Outcome.{Walked, Filled, walk_base-Walked}
use reorder_os.Depletion.Tests.{kilogram, own_kilogram, catalog, sold_ledger}

-- Conversions: the tenant's own kilogram goes before that of the platform.
lookup-eq-by_tiers_example :
    lookup "kg" "g" (some 7) (some 1) (kilogram ∷ own_kilogram ∷ [])
    ≡ by_tiers "kg" "g" (some 7) (some 1) (kilogram ∷ own_kilogram ∷ [])
lookup-eq-by_tiers_example =
    lookup-eq-by_tiers "kg" "g" (some 7) (some 1) (kilogram ∷ own_kilogram ∷ [])

convert-run :
    convert (kilogram ∷ own_kilogram ∷ []) (pos 20000) "kg" "g" (some 7) (some 1)
    ≡ ok (pos 18000000)
unfolding convert is_canonical dimension_of member lookup is_candidate better ranks_before ◌*ℤ◌
convert-run = refl

convert-isolated_example :
    convert
      (select (is_visible (some 2)) (kilogram ∷ own_kilogram ∷ []))
      (pos 20000)
      "kg"
      "g"
      (some 7)
      (some 2)
    ≡ convert (kilogram ∷ own_kilogram ∷ []) (pos 20000) "kg" "g" (some 7) (some 2)
convert-isolated_example =
    convert-isolated (kilogram ∷ own_kilogram ∷ []) (pos 20000) "kg" "g" (some 7) (some 2)

write_movement_replay_example :
    let l' =
      (write_movement 1
        (base_key 10 30 8)
        (some (legacy_key_of 10 8))
        8
        sale_depletion
        (negsuc 4)
        (pos 10000)
        sale_line_item
        10
        none
        sold_ledger).0 in
    write_movement 1
      (base_key 10 30 8)
      (some (legacy_key_of 10 8))
      8
      sale_depletion
      (negsuc 9)
      (pos 10000)
      sale_line_item
      10
      (some 3)
      l'
    ≡ (l', none)
write_movement_replay_example =
    write_movement_replay 1 (base_key 10 30 8) (some (legacy_key_of 10 8)) 8 sale_depletion
      (negsuc 4) (pos 10000) sale_line_item 10 none sold_ledger 8 sale_depletion (negsuc 9)
      (pos 10000) sale_line_item 10 (some 3)

-- The walkers.
walk_base-Walked_example : Walked Filled (walk_base catalog 1 10 (some 30) (pos 10000))
walk_base-Walked_example = walk_base-Walked catalog 1 10 (some 30) (pos 10000)

-- A recipe that names item 7 twice, in kilograms and in grams: one movement with the sum.
abbrev twice : Catalog
twice = record catalog {
  recipe_ingredients =
      record {
        tenant_id = 1;
        version_id = 30;
        inventory_item_id = 7;
        quantity = pos 20000;
        unit = "kg";
      }
      ∷ record {
        tenant_id = 1;
        version_id = 30;
        inventory_item_id = 7;
        quantity = pos 5000;
        unit = "g";
      }
      ∷ [];
}

abbrev twice_outcome : WalkOutcome
twice_outcome = plan (
    base_movement 10 30 7
      (record { mtype = sale_depletion; delta = negsuc 20004999; yf = pos 10000 })
    ∷ [])

walk_base-twice : walk_base twice 1 10 (some 30) (pos 10000) ≡ ok twice_outcome
unfolding walk_base walk_version base_rows storage_of walk_rows convert_row convert is_canonical
    dimension_of member lookup is_candidate better contribution yield_factor_of accumulate ◌+ℤ◌ ◌-ℤ◌
    ◌*ℤ◌
walk_base-twice = refl

walk_base-needed_example :
    (v : RecipeVersion) × (find_first (λ x. x.id == 30 && (x.tenant_id == 1)) twice.recipe_versions
      ≡ some v)
    × (some (negsuc 20004999)
        ≡ needed twice 1 7
            (base_rows twice 1 30 (pos 10000) v.yield_quantity twice.recipe_ingredients)
            none)
    × ItemsDistinct twice_outcome.movements
walk_base-needed_example =
    walk_base-needed twice 1 10 30 7 (pos 10000) twice_outcome walk_base-twice refl
