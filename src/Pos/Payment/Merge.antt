-- ===== src/Pos/Payment/Merge.antt =====
-- The payment state and the amounts of an order under _upsert_order of pos/worker.py.
use mathlib.Core.List.{Perm, Permᴰ}
use mathlib.Core.Logic.{∥∥₁_elim}
use reorder_os.Prelude.{
  ℕ, ◌≤◌, ◌≡◌, ◌≢◌, refl, ◌∙◌, ap, ◌⊎◌, some, List, [], ◌∷◌, arith, find_first, update_where,
  String,
}
use reorder_os.Prelude.Int.{◌-ℤ◌}
use reorder_os.Schema.{PaymentState}
use reorder_os.Pos.Payment.{
  OrderData, OrderRecord, priority, merge, is_order, on_conflict, values_of, upsert_order, safe_int,
  derive_payment_state,
}

-- The stored state never loses priority: the merged state is one of the two, and its priority is
-- the higher of theirs.
pub merge-priority :
    (a b : PaymentState)
    → (priority a ≤ priority (merge a b))
      × (priority b ≤ priority (merge a b))
      × ((merge a b ≡ a) ⊎ (merge a b ≡ b))
unfolding merge
merge-priority a b = ground arith

merge_swap : (s a b : PaymentState) → merge (merge s a) b ≡ merge (merge s b) a
unfolding merge
merge_swap s a b = ground arith

-- The state after a sequence of events.
abbrev pub merge_all : PaymentState → List PaymentState → PaymentState
merge_all s [] = s
merge_all s (e ∷ es) = merge_all (merge s e) es

merge_all-perm :
    (es es' : List PaymentState)
    → Permᴰ es es'
    → (s : PaymentState) → merge_all s es ≡ merge_all s es'
merge_all-perm es es' Permᴰ.nil s = refl
merge_all-perm es es' (Permᴰ.cons {a} {b} {l₁} {l₂} e p) s =
    rw e (merge_all-perm l₁ l₂ p (merge s b))
merge_all-perm es es' (Permᴰ.swap {a} {b} {a'} {b'} {l} e f) s =
    rw (e, f) (ap (λ t. merge_all t l) (merge_swap s b' a'))
merge_all-perm es es' (Permᴰ.trans {l₁} {l₂} {l₃} p q) s =
    merge_all-perm l₁ l₂ p s ∙ merge_all-perm l₂ l₃ q s

PaymentState-set : IsSet PaymentState
PaymentState-set = hlevel

-- Deliveries of the same events in different orders leave the same payment state.
pub merge_all_order :
    (s : PaymentState) (es es' : List PaymentState) → Perm es es' → merge_all s es ≡ merge_all s es'
merge_all_order s es es' h = ∥∥₁_elim h (PaymentState-set _ _) (λ p. merge_all-perm es es' p s)

find-update :
    (tid : ℕ) (key : String) (x : OrderRecord) (rows : List OrderRecord) (r : OrderRecord)
    → find_first (is_order tid key) rows ≡ some r
    → find_first (is_order tid key) (update_where (is_order tid key) (on_conflict x) rows)
      ≡ some (on_conflict x r)
unfolding on_conflict
find-update tid key x [] r e = cc
find-update tid key x (y ∷ rows) r e = ground (arith, find-update tid key x rows r)

module _ (new_id tid inbox_id now : ℕ) (o : OrderData) (rows : List OrderRecord) (r : OrderRecord)
    (stored : find_first (is_order tid o.clover_order_id) rows ≡ some r) where
  abbrev excluded : OrderRecord
  excluded = values_of new_id tid inbox_id now o

  -- The upsert of an order that is stored keeps its row and its id, and the row found afterwards
  -- has the merged payment state and the old one as the previous, the amounts of the event but
  -- for the subtotal, and the subtotal of the first insert.
  pub upsert_order_stored :
      let (rows', id) = upsert_order new_id tid inbox_id now o rows in
      (r' : OrderRecord) × (find_first (is_order tid o.clover_order_id) rows' ≡ some r')
      × (id ≡ r.id)
      × (r'.id ≡ r.id)
      × (r'.payment_state ≡ merge r.payment_state (derive_payment_state o))
      × (r'.payment_state_previous ≡ some r.payment_state)
      × (r'.total_amount_cents ≡ safe_int o.total)
      × (r'.tax_amount_cents ≡ safe_int o.tax_amount)
      × (r'.discount_amount_cents ≡ safe_int o.discount_amount)
      × (r'.subtotal_cents ≡ r.subtotal_cents)
  unfolding upsert_order on_conflict values_of
  upsert_order_stored =
      rw (stored, upsert_order)
        (
          on_conflict excluded r,
          find-update tid o.clover_order_id excluded rows r stored,
          refl,
          refl,
          refl,
          refl,
          refl,
          refl,
          refl,
          refl,
        )

  -- After the upsert of a stored order whose event has another total - tax - discount than the stored
  -- subtotal, the row has a subtotal that is not its total - tax - discount.
  pub upsert_order_stale_subtotal :
      r.subtotal_cents ≢ (safe_int o.total -ℤ safe_int o.tax_amount -ℤ safe_int o.discount_amount)
      → (r' : OrderRecord) × (find_first
            (is_order tid o.clover_order_id)
            (upsert_order new_id tid inbox_id now o rows).0
          ≡ some r')
        × (r'.subtotal_cents
            ≢ (r'.total_amount_cents -ℤ r'.tax_amount_cents -ℤ r'.discount_amount_cents))
  unfolding upsert_order on_conflict values_of
  upsert_order_stale_subtotal changed =
      rw (stored, upsert_order)
        (on_conflict excluded r, find-update tid o.clover_order_id excluded rows r stored, changed)
