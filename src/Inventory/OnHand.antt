-- ===== src/Inventory/OnHand.antt =====
-- on_hand() of backend/app/modules/inventory/services.py: both queries. A `numeric` is a count of
-- the smallest unit, so the sums are those of ℤ, and a product is `sql_mul`.
pub mod Netting
use reorder_os.Prelude.{
  ℕ, Bool, true, false, not, ◌&&◌, ◌||◌, Option, none, some, List, [], ◌∷◌, find_first, ltb, ◌==◌,
  if◌then◌else◌,
}
use reorder_os.Prelude.Int.{ℤ, pos, ◌+ℤ◌, ◌-ℤ◌}
use reorder_os.Prelude.Decimal.{Decimals}
use reorder_os.Schema.{
  Mode, recipe_deducted, count_anchored, MovementType, opening_balance, receive, sale_signal,
  sale_signal_reversal, count_adjust, transfer_in, Movement, Item, YieldFactor,
}

-- movement_type IN ('sale_signal', 'sale_signal_reversal')
abbrev pub is_signal : MovementType → Bool
is_signal sale_signal = true
is_signal sale_signal_reversal = true
is_signal _ = false

-- movement_type IN ('receive', 'transfer_in', 'count_adjust', 'opening_balance')
abbrev pub is_receipt : MovementType → Bool
is_receipt receive = true
is_receipt transfer_in = true
is_receipt count_adjust = true
is_receipt opening_balance = true
is_receipt _ = false

abbrev pub of_item : (tid iid : ℕ) → Movement → Bool
of_item tid iid m = m.tenant_id == tid && (m.inventory_item_id == iid)

-- COALESCE(SUM(value), 0) over the rows that pass
unfoldable pub sum_where : (Movement → Bool) → (Movement → ℤ) → List Movement → ℤ
sum_where p value [] = pos 0
sum_where p value (m ∷ ms) = (if p m then value m else pos 0) +ℤ sum_where p value ms

abbrev pub delta_of : Movement → ℤ
delta_of m = m.delta

-- ledger_sum: every movement of the item but the signals.
abbrev pub is_ledger : (tid iid : ℕ) → Movement → Bool
is_ledger tid iid m = of_item tid iid m && not (is_signal m.movement_type)

unfoldable pub ledger_sum : (tid iid : ℕ) → List Movement → ℤ
ledger_sum tid iid = sum_where (is_ledger tid iid) delta_of

-- `m.recorded_at > item.last_count_at`: a NULL is no match.
abbrev after_count : Option ℕ → ℕ → Bool
after_count none t = false
after_count (some c) t = ltb c t

module _ ⦃dec : Decimals⦄ where
  -- COALESCE((SELECT yield_factor ...), 1.0)
  abbrev pub live_yield : (tid iid : ℕ) → List YieldFactor → ℤ
  live_yield tid iid ys =
      elim (find_first (λ y. y.tenant_id == tid && (y.inventory_item_id == iid)) ys) [
        | none ↦ dec.one
        | some y ↦ y.yield_factor
      ]

  -- COALESCE(m.yield_factor_applied, (SELECT yield_factor ...), 1.0)
  abbrev pub yield_of : (tid iid : ℕ) → List YieldFactor → Option ℤ → ℤ
  yield_of tid iid ys none = live_yield tid iid ys
  yield_of tid iid ys (some yf) = yf

  -- The boundary of a query: the cutoff on created_at, or last_count_at on recorded_at.
  abbrev pub since : Option ℕ → Option ℕ → Movement → Bool
  since (some cutoff) last_count_at m = ltb cutoff m.created_at
  since none last_count_at m = after_count last_count_at m.recorded_at

  unfoldable pub receipts_since : (tid iid : ℕ) → Option ℕ → Option ℕ → List Movement → ℤ
  receipts_since tid iid cutoff last_count_at =
      sum_where
        (λ m. of_item tid iid m && is_receipt m.movement_type && since cutoff last_count_at m)
        delta_of

  abbrev pub is_signal_since : (tid iid : ℕ) → Option ℕ → Option ℕ → Movement → Bool
  is_signal_since tid iid cutoff last_count_at m =
      of_item tid iid m && is_signal m.movement_type && since cutoff last_count_at m

  abbrev pub signal_value : (tid iid : ℕ) → List YieldFactor → Movement → ℤ
  signal_value tid iid ys m = dec.sql_mul m.delta (yield_of tid iid ys m.yield_factor_applied)

  -- Under the watermark each signal has its own yield factor; on the historical path the sum is
  -- multiplied by the live one.
  unfoldable pub signals_since :
      (tid iid : ℕ) → Option ℕ → Option ℕ → List YieldFactor → List Movement → ℤ
  signals_since tid iid (some cutoff) last_count_at ys ms =
      sum_where (is_signal_since tid iid (some cutoff) last_count_at) (signal_value tid iid ys) ms
  signals_since tid iid none last_count_at ys ms =
      dec.sql_mul (sum_where (is_signal_since tid iid none last_count_at) delta_of ms)
        (live_yield tid iid ys)

  unfoldable pub quantity_of :
      (tid iid : ℕ)
      → Option ℕ
      → Mode
      → Option ℕ
      → Option ℤ
      → List YieldFactor
      → List Movement
      → Option ℤ
  quantity_of tid iid cutoff recipe_deducted counted_at anchor ys ms = some (ledger_sum tid iid ms)
  quantity_of tid iid cutoff count_anchored counted_at none ys ms = none
  quantity_of tid iid cutoff count_anchored counted_at (some anchor) ys ms = some (
      anchor
      +ℤ receipts_since tid iid cutoff counted_at ms
      -ℤ signals_since tid iid cutoff counted_at ys ms)

  -- `none` also where the item does not exist: the query then has no row.
  unfoldable pub on_hand :
      (tid iid : ℕ)
      → (reconciliation_cutoff : Option ℕ) → List Item
      → List YieldFactor
      → List Movement
      → Option ℤ
  on_hand tid iid cutoff items ys ms =
      elim (find_first (λ i. i.tenant_id == tid && (i.id == iid)) items) [
        | none ↦ none
        | some i ↦
            quantity_of tid iid cutoff i.inventory_mode i.last_count_at i.last_count_quantity ys ms
      ]
