-- ===== src/Inventory/OnHand/Netting.antt =====
-- The sums of on_hand (inventory/services.py) after reverse_line (depletion/handler.py).
use reorder_os.Prelude.{
  ℕ, ◌<◌, ◌≡◌, refl, ◌∙◌, inl, inr, Bool, true, false, Option, some, List, [], ◌∷◌, arith, any,
  select, All, if◌then◌else◌, Bool-cases,
}
use reorder_os.Prelude.Int.{ℤ, pos, ◌+ℤ◌, ◌-ℤ◌, int_laws}
use reorder_os.Prelude.Result.{ok}
use reorder_os.Prelude.Decimal.{Decimals}
use reorder_os.Schema.{reversal, Movement, Ledger, key_eq, part_eq, YieldFactor}
use reorder_os.Depletion.Writer.{has_key, insert_or_nothing, reversal_key}
use reorder_os.Depletion.Writer.Rows.{IsBelow, IdsDistinct, IsValid}
use reorder_os.Depletion.Handler.{is_forward, reverse_line}
use reorder_os.Depletion.Handler.Reverse.{
  reversal_of, reversed_one, reversed_all, reverse_line-ReversedAll,
}
use reorder_os.Inventory.OnHand.{
  delta_of, sum_where, ledger_sum, signals_since, is_signal_since, signal_value, is_ledger,
}

module _ ⦃dec : Decimals⦄ (tid now : ℕ) where
  -- The row that the reversal of `m` adds.
  abbrev pub reversal_row : ℕ → Movement → Movement
  reversal_row id m = record {
    id = id;
    tenant_id = tid;
    inventory_item_id = m.inventory_item_id;
    movement_type = reversal_of m.movement_type;
    delta = dec.neg m.delta;
    source_type = reversal;
    source_id = some m.id;
    idempotency_key = reversal_key m.id m.inventory_item_id;
    yield_factor_applied = m.yield_factor_applied;
    recorded_at = now;
    created_at = now;
  }

  -- In a sum the reversal counts where the row counts, with the opposite value.
  abbrev pub Cancels : (Movement → Bool) → (Movement → ℤ) → Movement → Type 0
  Cancels p value m =
      (id : ℕ)
      → (p (reversal_row id m) ≡ p m) × (p m ≡ true → value (reversal_row id m) ≡ pos 0 -ℤ value m)

  abbrev pub IsUnreversed : List Movement → Movement → Type 0
  IsUnreversed ms m = any (has_key tid (reversal_key m.id m.inventory_item_id)) ms ≡ false

  module _ (p : Movement → Bool) (value : Movement → ℤ) where
    row_nets :
        (m : Movement) (id : ℕ) (total : ℤ)
        → Cancels p value m
        → (if p (reversal_row id m) then value (reversal_row id m) else pos 0) +ℤ total
          ≡ total -ℤ (if p m then value m else pos 0)
    row_nets m id total c = elim (Bool-cases (p m)) [
      | inl e ↦ rw (c id).0 (rw e (rw ((c id).1 e) (omega int_laws)))
      | inr e ↦ rw (c id).0 (rw e (omega int_laws))
    ]

    one_nets :
        (m : Movement) (l : Ledger)
        → l.now ≡ now
        → IsUnreversed l.movements m
        → Cancels p value m
        → sum_where p value (reversed_one tid m l).0.movements
          ≡ sum_where p value l.movements -ℤ (if p m then value m else pos 0)
    unfolding insert_or_nothing sum_where
    one_nets m l clock fresh c =
        rw (fresh, clock) (row_nets m l.next_id (sum_where p value l.movements) c)

  still-IsUnreversed :
      (m k : Movement) (l : Ledger)
      → k.id < m.id
      → IsUnreversed l.movements k
      → IsUnreversed (reversed_one tid m l).0.movements k
  unfolding insert_or_nothing has_key key_eq part_eq
  still-IsUnreversed m k l lt h = ground arith

  clock_one : (m : Movement) (l : Ledger) → (reversed_one tid m l).0.now ≡ l.now
  unfolding insert_or_nothing
  clock_one m l = ground arith

  All-IsUnreversed :
      (m : Movement) (fs : List Movement) (l : Ledger)
      → IsBelow m.id fs
      → All (IsUnreversed l.movements) fs
      → All (IsUnreversed (reversed_one tid m l).0.movements) fs
  All-IsUnreversed m [] l b h = tt
  All-IsUnreversed m (k ∷ fs) l b h =
      (still-IsUnreversed m k l b.0 h.0, All-IsUnreversed m fs l b.1 h.1)

  pub reversed_all_nets :
      (p : Movement → Bool) (value : Movement → ℤ) (fs : List Movement) (l : Ledger)
      → l.now ≡ now
      → IdsDistinct fs
      → All (IsUnreversed l.movements) fs
      → All (Cancels p value) fs
      → sum_where p value (reversed_all tid fs l).movements
        ≡ sum_where p value l.movements -ℤ sum_where p value fs
  unfolding sum_where
  reversed_all_nets p value [] l clock d h c = omega int_laws
  reversed_all_nets p value (m ∷ fs) l clock d h c =
      let rest =
        reversed_all_nets p value fs (reversed_one tid m l).0 (clock_one m l ∙ clock) d.1
          (All-IsUnreversed m fs l d.0 h.1) c.1 in
      let here = one_nets p value m l clock h.0 c.0 in rw (rest, here) (omega int_laws)

select-IsBelow :
    (q : Movement → Bool) (n : ℕ) (ms : List Movement) → IsBelow n ms → IsBelow n (select q ms)
select-IsBelow q n [] b = tt
select-IsBelow q n (m ∷ ms) b = elim (Bool-cases (q m)) [
  | inl e ↦ rw e (b.0, select-IsBelow q n ms b.1)
  | inr e ↦ rw e (select-IsBelow q n ms b.1)
]

select-IdsDistinct :
    (q : Movement → Bool) (ms : List Movement) → IdsDistinct ms → IdsDistinct (select q ms)
select-IdsDistinct q [] d = tt
select-IdsDistinct q (m ∷ ms) d = elim (Bool-cases (q m)) [
  | inl e ↦ rw e (select-IsBelow q m.id ms d.0, select-IdsDistinct q ms d.1)
  | inr e ↦ rw e (select-IdsDistinct q ms d.1)
]

-- What holds of every row holds of every selected row, and each passed the test.
pub select-All {ℓ} :
    {A : Type ℓ} (q : A → Bool) (P Q : A → Type 0) (xs : List A)
    → ((a : A) → q a ≡ true → P a → Q a)
    → All P (select q xs)
    → All Q (select q xs)
select-All q P Q [] f h = tt
select-All q P Q (x ∷ xs) f h = elim (Bool-cases (q x)) [
  | inl e ↦ rw e (f x e (rw e at h).0, select-All q P Q xs f (rw e at h).1)
  | inr e ↦ rw e (select-All q P Q xs f (rw e at h))
]

module _ ⦃dec : Decimals⦄ (tid sli iid : ℕ) (l l' : Ledger) (n : ℕ) (valid : IsValid l)
    (reversed : reverse_line tid sli l ≡ ok (l', n))
    (unreversed : All
      (IsUnreversed tid l.now l.movements)
      (select (is_forward tid sli) l.movements)) where
  nets :
      (p : Movement → Bool) (value : Movement → ℤ)
      → All (Cancels tid l.now p value) (select (is_forward tid sli) l.movements)
      → sum_where p value l'.movements
        ≡ sum_where p value l.movements
          -ℤ sum_where p value (select (is_forward tid sli) l.movements)
  nets p value c =
      let r = reverse_line-ReversedAll tid sli l valid in
      let same : r.l' ≡ l' = cc (r.returned) in
      rw (← same, r.folded)
        (reversed_all_nets tid l.now p value (select (is_forward tid sli) l.movements) l refl
          (select-IdsDistinct (is_forward tid sli) l.movements valid.ids) unreversed c)

  -- Mode A: for every item, after reverse_line the ledger's sum is what it was, less the forward
  -- movements of the line; the ledger is well formed, none of those movements was reversed
  -- before, and their deltas have at most the 28 digits of Python's decimals.
  pub reverse_line_nets :
      All (λ m. dec.fits m.delta ≡ true) (select (is_forward tid sli) l.movements)
      → ledger_sum tid iid l'.movements
        ≡ ledger_sum tid iid l.movements
          -ℤ ledger_sum tid iid (select (is_forward tid sli) l.movements)
  unfolding ledger_sum
  reverse_line_nets fits = nets _ delta_of (
      select-All (is_forward tid sli) (λ m. dec.fits m.delta ≡ true)
        (Cancels tid l.now (is_ledger tid iid) delta_of) l.movements
        (λ m fwd f id. unfold is_forward in ground (arith, dec.neg-exact m.delta f)) fits)

  -- Mode B under a watermark: for every item, after reverse_line the sum of the signals after the
  -- cutoff, times their own yield factors, is what it was, less that of the line's forward
  -- movements; the ledger is well formed, none of those movements was reversed before, their deltas
  -- have at most the 28 digits of Python's decimals, and they and the reversal are after the cutoff.
  pub reverse_line_nets_signals :
      (cutoff : ℕ) (counted_at : Option ℕ) (ys : List YieldFactor)
      → cutoff < l.now
      → All
          (λ m. (dec.fits m.delta ≡ true) × (cutoff < m.created_at))
          (select (is_forward tid sli) l.movements)
      → signals_since tid iid (some cutoff) counted_at ys l'.movements
        ≡ signals_since tid iid (some cutoff) counted_at ys l.movements
          -ℤ signals_since tid iid
              (some cutoff)
              counted_at
              ys
              (select (is_forward tid sli) l.movements)
  unfolding signals_since
  reverse_line_nets_signals cutoff counted_at ys lt h = nets _ _ (
      select-All (is_forward tid sli) (λ m. (dec.fits m.delta ≡ true) × (cutoff < m.created_at))
        (Cancels tid l.now (is_signal_since tid iid (some cutoff) counted_at)
          (signal_value tid iid ys))
        l.movements
        (λ m fwd f id.
          unfold is_forward in
          (ground arith, λ e. rw (dec.neg-exact m.delta f.0) (dec.sql_mul-neg m.delta _)))
        h)
