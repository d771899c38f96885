-- ===== src/Inventory/Opening/Once.antt =====
-- record_opening_balance of inventory/services.py, and on_hand after it.
use reorder_os.Prelude.{
  ℕ, ◌+◌, ◌≡◌, refl, ap, inl, inr, Bool, true, false, Option, none, some, List, [], ◌∷◌, arith, any,
  All, find_first, Option-cases,
}
use reorder_os.Prelude.Int.{ℤ, pos, int_laws}
use reorder_os.Prelude.Result.{Result, ok}
use reorder_os.Schema.{Mode, opening_balance, opening, Ledger, Item, Movement, key_eq, part_eq}
use reorder_os.Depletion.Writer.{has_key, coalesce, insert_or_nothing}
use reorder_os.Inventory.OnHand.{sum_where}
use reorder_os.Inventory.Stock.{Stock, StockError, is_item, insert_movement}
use reorder_os.Inventory.Opening.{
  opening_key, set_anchor, anchor_opening, open_item, record_opening_balance,
}

pub any-find_first {ℓ} :
    {A : Type ℓ} (p : A → Bool) (xs : List A) → find_first p xs ≡ none → any p xs ≡ false
any-find_first p [] h = refl
any-find_first p (x ∷ xs) h = ground (arith, any-find_first p xs)

-- The row of an opening balance.
abbrev pub opening_row : (tid iid : ℕ) (quantity : ℤ) (at : ℕ) → Ledger → Movement
opening_row tid iid quantity at l = record {
  id = l.next_id;
  tenant_id = tid;
  inventory_item_id = iid;
  movement_type = opening_balance;
  delta = quantity;
  source_type = opening;
  source_id = none;
  idempotency_key = opening_key iid;
  yield_factor_applied = none;
  recorded_at = at;
  created_at = l.now;
}

-- The tables after the first opening balance of an item in a mode.
abbrev pub opened_with : (tid iid : ℕ) (quantity : ℤ) (at : ℕ) → Mode → Stock → Stock
opened_with tid iid quantity at mode s = record s {
  ledger = record s.ledger {
    next_id = s.ledger.next_id + 1;
    movements = opening_row tid iid quantity at s.ledger ∷ s.ledger.movements;
  };
  items = anchor_opening mode tid iid quantity at s.items;
}

module _ (tid iid : ℕ) (quantity : ℤ) (recorded_at : Option ℕ) (s : Stock) where
  -- The first opening balance of an existing item is one movement of the item, and in Mode B the
  -- anchor of its count, both at the given instant or now.
  pub record_opening_balance_new :
      (i : Item)
      → find_first (has_key tid (opening_key iid)) s.ledger.movements ≡ none
      → find_first (is_item tid iid) s.items ≡ some i
      → record_opening_balance tid iid quantity recorded_at s
        ≡ ok (
          opened_with tid iid quantity (coalesce recorded_at s.ledger.now) i.inventory_mode s,
          s.ledger.next_id,
        )
  unfolding record_opening_balance open_item insert_movement insert_or_nothing
  record_opening_balance_new i fresh found =
      rw (fresh, record_opening_balance)
        (rw (found, open_item)
          (rw (any-find_first (has_key tid (opening_key iid)) s.ledger.movements fresh) refl))

  opening_row-has_key :
      (at : ℕ) (l : Ledger)
      → has_key tid (opening_key iid) (opening_row tid iid quantity at l) ≡ true
  unfolding has_key key_eq part_eq
  opening_row-has_key at l = ground arith

  module _ (s' : Stock) (id : ℕ)
      (done : record_opening_balance tid iid quantity recorded_at s ≡ ok (s', id)) where
    recorded_row :
        (m : Movement) × (find_first (has_key tid (opening_key iid)) s'.ledger.movements ≡ some m)
        × (m.id ≡ id)
    unfolding record_opening_balance open_item
    recorded_row =
        elim (Option-cases (find_first (has_key tid (opening_key iid)) s.ledger.movements)) [
          | inr (m, found) ↦
              let same : (s ≡ s') × (m.id ≡ id) = (ground arith, ground arith) in
              (m, rw (← same.0) found, same.1)
          | inl fresh ↦ elim (Option-cases (find_first (is_item tid iid) s.items)) [
            | inl missing ↦ absurd (ground arith)
            | inr (i, found) ↦
                let at = coalesce recorded_at s.ledger.now in
                let new = record_opening_balance_new i fresh found in
                let same_s : opened_with tid iid quantity at i.inventory_mode s ≡ s' = cc (new) in
                let same_id : s.ledger.next_id ≡ id = cc (new) in
                (
                  opening_row tid iid quantity at s.ledger,
                  rw (← same_s) (rw (opening_row-has_key at s.ledger) refl),
                  same_id,
                )
          ]
        ]

    -- Once an opening balance is recorded, recording another for the item, of whatever quantity and
    -- instant, changes nothing and returns the id of the first.
    pub record_opening_balance_replay :
        (quantity' : ℤ) (recorded_at' : Option ℕ)
        → record_opening_balance tid iid quantity' recorded_at' s' ≡ ok (s', id)
    unfolding record_opening_balance
    record_opening_balance_replay quantity' recorded_at' =
        let row = recorded_row in
        rw (row.1, record_opening_balance)
          (ap {B = Result StockError (Stock × ℕ)} (λ k. ok (s', k)) row.2)

sum_where_none :
    (p : Movement → Bool) (value : Movement → ℤ) (ms : List Movement)
    → All (λ m. p m ≡ false) ms
    → sum_where p value ms ≡ pos 0
unfolding sum_where
sum_where_none p value [] h = refl
sum_where_none p value (m ∷ ms) h = rw (h.0, sum_where_none p value ms h.1) (omega int_laws)

pub find_first-set_anchor :
    (tid iid : ℕ) (quantity : ℤ) (at : ℕ) (items : List Item) (i : Item)
    → find_first (is_item tid iid) items ≡ some i
    → find_first (is_item tid iid) (set_anchor tid iid quantity at items)
      ≡ some (record i { last_count_at = some at; last_count_quantity = some quantity })
find_first-set_anchor tid iid quantity at [] i e = cc
find_first-set_anchor tid iid quantity at (x ∷ items) i e =
    ground (arith, find_first-set_anchor tid iid quantity at items i)
