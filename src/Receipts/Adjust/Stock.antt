-- ===== src/Receipts/Adjust/Stock.antt =====
-- What create_adjustment (receipts/services.py) changes of the stock on hand.
use reorder_os.Prelude.{
  ℕ, ◌≡◌, refl, ap, inl, inr, Bool, true, false, ◌&&◌, Option, none, some, List, ◌∷◌, arith, ◌==◌,
  ==_refl, Bool-cases, Option-cases,
}
use reorder_os.Prelude.Int.{ℤ, pos, ◌+ℤ◌, int_laws}
use reorder_os.Prelude.Decimal.{Decimals}
use reorder_os.Prelude.Result.{ok, AllOk}
use reorder_os.Schema.{count_anchored, Movement, YieldFactor}
use reorder_os.Inventory.OnHand.{
  live_yield, sum_where, ledger_sum, delta_of, is_receipt, is_signal, receipts_since, signals_since,
  is_signal_since, quantity_of,
}
use reorder_os.Inventory.Receipt.{is_committed}
use reorder_os.Receipts.{Receipt}
use reorder_os.Receipts.Desk.{
  Desk, Adjustment, AdjustmentType, correction, count_fix, return, damage, find_receipt,
}
use reorder_os.Receipts.Adjust.{
  AdjustRequest, is_known_item, is_known_line, movement_type_of, insert_adjustment,
  create_adjustment,
}

abbrev pub is_count_fix : AdjustmentType → Bool
is_count_fix count_fix = true
is_count_fix _ = false

-- A compensating entry: nothing that was there is changed, the new row and the new adjustment name
-- each other, and the sum of the item's ledger moves by the signed quantity.
pub record Compensated (tid rid : ℕ) (a : AdjustRequest) (d d' : Desk) : Type 0 where
  pub row : Movement
  pub adjustment : Adjustment
  pub adjustments : d'.adjustments ≡ adjustment ∷ d.adjustments
  pub names : adjustment.compensating_movement_id ≡ row.id
  pub named : row.source_id ≡ some adjustment.id
  pub movements : d'.store.ledger.movements ≡ row ∷ d.store.ledger.movements
  pub receipts : d'.store.receipts ≡ d.store.receipts
  pub lines : d'.store.lines ≡ d.store.lines
  pub sum :
      ledger_sum tid a.inventory_item_id d'.store.ledger.movements
      ≡ a.delta_quantity +ℤ ledger_sum tid a.inventory_item_id d.store.ledger.movements
  pub others :
      (iid : ℕ)
      → (a.inventory_item_id == iid) ≡ false
      → ledger_sum tid iid d'.store.ledger.movements ≡ ledger_sum tid iid d.store.ledger.movements

no_signal : (k : AdjustmentType) → is_signal (movement_type_of k) ≡ false
no_signal correction = refl
no_signal count_fix = refl
no_signal return = refl
no_signal damage = refl

-- A count_fix has the type of a count's own movement; the others have types that Mode B reads not.
no_receipt : (k : AdjustmentType) → is_count_fix k ≡ false → is_receipt (movement_type_of k) ≡ false
no_receipt correction h = refl
no_receipt count_fix h = absurd (ground arith)
no_receipt return h = refl
no_receipt damage h = refl

zero_add : (x : ℤ) → pos 0 +ℤ x ≡ x
zero_add x = grind int_laws

module _ (tid rid : ℕ) (a : AdjustRequest) where
  sum-own :
      (d : Desk)
      → ledger_sum tid a.inventory_item_id (insert_adjustment tid rid a d).store.ledger.movements
        ≡ a.delta_quantity +ℤ ledger_sum tid a.inventory_item_id d.store.ledger.movements
  unfolding ledger_sum sum_where insert_adjustment
  sum-own d = rw (==_refl tid, ==_refl a.inventory_item_id, no_signal a.kind) refl

  sum-others :
      (d : Desk) (iid : ℕ)
      → (a.inventory_item_id == iid) ≡ false
      → ledger_sum tid iid (insert_adjustment tid rid a d).store.ledger.movements
        ≡ ledger_sum tid iid d.store.ledger.movements
  unfolding ledger_sum sum_where insert_adjustment
  sum-others d iid h = rw (==_refl tid, h) (zero_add _)

  -- An adjustment of a committed receipt, whose item is known and whose line, if it has one, is
  -- known, succeeds and is a compensating entry: it puts one movement in front of the ledger and
  -- one row in front of the adjustments, which name each other, and changes no movement,
  -- adjustment, receipt or line that was there; the sum of the item's ledger moves by the signed
  -- quantity, and that of no other item moves.
  pub create_adjustment-Compensated :
      (d : Desk) (r : Receipt)
      → find_receipt tid rid d ≡ some r
      → is_committed r.commit_state ≡ true
      → is_known_item a.inventory_item_id d ≡ true
      → is_known_line a.receipt_line_id d ≡ true
      → (d' : Desk) × (create_adjustment tid rid a d ≡ ok d') × Compensated tid rid a d d'
  unfolding create_adjustment insert_adjustment
  create_adjustment-Compensated d r found done item line = (
    insert_adjustment tid rid a d,
    rw (create_adjustment, found, done, item, line) refl,
    record {
      row = _;
      adjustment = _;
      adjustments = refl;
      names = refl;
      named = refl;
      movements = refl;
      receipts = refl;
      lines = refl;
      sum = sum-own d;
      others = sum-others d;
    },
  )

  module _ ⦃dec : Decimals⦄ (iid : ℕ) (counted_at : Option ℕ) where
    receipts_since-kept :
        (cutoff : Option ℕ) (d : Desk)
        → is_count_fix a.kind ≡ false
        → receipts_since tid iid cutoff counted_at
            (insert_adjustment tid rid a d).store.ledger.movements
          ≡ receipts_since tid iid cutoff counted_at d.store.ledger.movements
    unfolding receipts_since sum_where insert_adjustment
    receipts_since-kept cutoff d other = elim (Bool-cases (a.inventory_item_id == iid)) [
      | inl y ↦ rw (==_refl tid, y, no_receipt a.kind other) (zero_add _)
      | inr n ↦ rw (==_refl tid, n) (zero_add _)
    ]

    signal_sum-kept :
        (cutoff : Option ℕ) (value : Movement → ℤ) (d : Desk)
        → sum_where
            (is_signal_since tid iid cutoff counted_at)
            value
            (insert_adjustment tid rid a d).store.ledger.movements
          ≡ sum_where (is_signal_since tid iid cutoff counted_at) value d.store.ledger.movements
    unfolding sum_where insert_adjustment
    signal_sum-kept cutoff value d = elim (Bool-cases (a.inventory_item_id == iid)) [
      | inl y ↦ rw (==_refl tid, y, no_signal a.kind) (zero_add _)
      | inr n ↦ rw (==_refl tid, n) (zero_add _)
    ]

    signals_since-kept :
        (cutoff : Option ℕ) (ys : List YieldFactor) (d : Desk)
        → signals_since tid iid cutoff counted_at ys
            (insert_adjustment tid rid a d).store.ledger.movements
          ≡ signals_since tid iid cutoff counted_at ys d.store.ledger.movements
    unfolding signals_since
    signals_since-kept none ys d =
        ap (λ x. dec.sql_mul x (live_yield tid iid ys)) (signal_sum-kept none delta_of d)
    signals_since-kept (some c) ys d = signal_sum-kept (some c) _ d

    quantity_of-kept :
        (cutoff : Option ℕ) (anchor : Option ℤ) (ys : List YieldFactor) (d : Desk)
        → is_count_fix a.kind ≡ false
        → quantity_of tid iid cutoff count_anchored counted_at anchor ys
            (insert_adjustment tid rid a d).store.ledger.movements
          ≡ quantity_of tid iid cutoff count_anchored counted_at anchor ys d.store.ledger.movements
    unfolding quantity_of
    quantity_of-kept cutoff none ys d other = refl
    quantity_of-kept cutoff (some n) ys d other =
        rw (receipts_since-kept cutoff d other, signals_since-kept cutoff ys d) refl

    -- An adjustment that is no count_fix leaves the stock on hand of a count-anchored item, the one
    -- that it names or another, as it was.
    pub create_adjustment_unseen :
        (cutoff : Option ℕ) (anchor : Option ℤ) (ys : List YieldFactor) (d : Desk)
        → is_count_fix a.kind ≡ false
        → AllOk
            (λ d'.
              quantity_of tid iid cutoff count_anchored counted_at anchor ys
                d'.store.ledger.movements
              ≡ quantity_of tid iid cutoff count_anchored counted_at anchor ys
                  d.store.ledger.movements)
            (create_adjustment tid rid a d)
    unfolding create_adjustment
    create_adjustment_unseen cutoff anchor ys d other =
        elim (Option-cases (find_receipt tid rid d)) [
          | inl n ↦ rw (create_adjustment, n) tt
          | inr (r, y) ↦ elim (Bool-cases (is_committed r.commit_state)) [
            | inl c ↦
                elim (Bool-cases
                  (is_known_item a.inventory_item_id d && is_known_line a.receipt_line_id d)) [
                    | inl k ↦
                        rw (create_adjustment, y, c, k) (quantity_of-kept cutoff anchor ys d other)
                    | inr k ↦ rw (create_adjustment, y, c, k) tt
                  ]
            | inr c ↦ rw (create_adjustment, y, c) tt
          ]
        ]
