-- ===== src/Depletion/Handler/Reverse.antt =====
-- reverse_line of depletion/handler.py: its loop over the forward movements of a line.
use reorder_os.Prelude.{
  ℕ, ◌+◌, ◌≡◌, refl, ap, ◌∙◌, inl, inr, true, Option, none, some, List, [], ◌∷◌, arith, any, select,
  find_first, All, Bool-cases,
}
use reorder_os.Prelude.Result.{Result, ok}
use reorder_os.Prelude.Decimal.{Decimals}
use reorder_os.Schema.{
  MovementType, sale_signal, sale_depletion_reversal, sale_signal_reversal, reversal, Movement,
  Ledger,
}
use reorder_os.Depletion.Writer.{
  has_key, has_id, insert_or_nothing, reverse_row, reversal_key, record_sale_reversal,
  ReversalError,
}
use reorder_os.Depletion.Writer.Rows.{
  IsBelow, IdsDistinct, IsValid, Grows, Grows-refl, Grows-trans, insert-IsValid, insert-Grows,
  insert_present,
}
use reorder_os.Depletion.Writer.Replay.{Grows-any, found-lt, found_after_insert}
use reorder_os.Depletion.Handler.{is_forward, is_forward_type, added, reverse_all, reverse_line}

-- The reversal's SELECT finds the row, and can reverse it.
abbrev pub IsFindable : ℕ → List Movement → Movement → Type 0
IsFindable tid ms m =
    (find_first (has_id tid m.id) ms ≡ some m) × (is_forward_type m.movement_type ≡ true)

pub All-map {ℓ} :
    {A : Type ℓ} (P Q : A → Type 0) (xs : List A) → ((a : A) → P a → Q a) → All P xs → All Q xs
All-map P Q [] f h = tt
All-map P Q (x ∷ xs) f h = (f x h.0, All-map P Q xs f h.1)

found_behind :
    (tid : ℕ) (x : Movement) (ms : List Movement)
    → IsBelow x.id ms
    → (m : Movement) → IsFindable tid ms m
    → IsFindable tid (x ∷ ms) m
unfolding has_id
found_behind tid x ms b m h = ground (arith, found-lt tid m.id x.id ms m b h.0)

found_here :
    (tid sli : ℕ) (x : Movement) (ms : List Movement)
    → is_forward tid sli x ≡ true
    → IsFindable tid (x ∷ ms) x
unfolding has_id is_forward
found_here tid sli x ms h = ground arith

-- In a well-formed ledger each forward movement of the line is found by its identifier.
pub select-IsFindable :
    (tid sli : ℕ) (ms : List Movement)
    → IdsDistinct ms
    → All (IsFindable tid ms) (select (is_forward tid sli) ms)
select-IsFindable tid sli [] d = tt
select-IsFindable tid sli (x ∷ ms) d =
    let rest =
      All-map (IsFindable tid ms) (IsFindable tid (x ∷ ms)) (select (is_forward tid sli) ms)
        (found_behind tid x ms d.0) (select-IsFindable tid sli ms d.1) in
    elim (Bool-cases (is_forward tid sli x)) [
      | inl e ↦ rw e (found_here tid sli x ms e, rest)
      | inr e ↦ rw e rest
    ]

abbrev pub reversal_of : MovementType → MovementType
reversal_of sale_signal = sale_signal_reversal
reversal_of _ = sale_depletion_reversal

abbrev pub HasReversal : ℕ → List Movement → Movement → Type 0
HasReversal tid ms m = any (has_key tid (reversal_key m.id m.inventory_item_id)) ms ≡ true

module _ ⦃dec : Decimals⦄ (tid : ℕ) where
  -- The ledger and the identifier after the reversal of `m`.
  abbrev pub reversed_one : Movement → Ledger → Ledger × Option ℕ
  reversed_one m l =
      insert_or_nothing tid m.inventory_item_id (reversal_of m.movement_type) (dec.neg m.delta)
        reversal (some m.id) (reversal_key m.id m.inventory_item_id) m.yield_factor_applied l.now l

  pub record_sale_reversal-eq :
      (m : Movement) (l : Ledger)
      → IsFindable tid l.movements m
      → record_sale_reversal tid m.id m.inventory_item_id l ≡ ok (reversed_one m l)
  unfolding record_sale_reversal reverse_row
  record_sale_reversal-eq m l h = ground arith

  IsFindable-reversed_one :
      (m : Movement) (l : Ledger)
      → IsValid l
      → (k : Movement) → IsFindable tid l.movements k
      → IsFindable tid (reversed_one m l).0.movements k
  IsFindable-reversed_one m l v k h = (
    found_after_insert tid k.id m.inventory_item_id (reversal_of m.movement_type) (dec.neg m.delta)
        reversal (some m.id) (reversal_key m.id m.inventory_item_id) m.yield_factor_applied l.now l
        k v.below h.0,
    h.1,
  )

  reversed_one-IsValid : (m : Movement) (l : Ledger) → IsValid l → IsValid (reversed_one m l).0
  reversed_one-IsValid m l v = insert-IsValid _ _ _ _ _ _ _ _ _ l v

  reversed_one-Grows : (m : Movement) (l : Ledger) → Grows tid l (reversed_one m l).0
  reversed_one-Grows m l = insert-Grows _ _ _ _ _ _ _ _ _ l

  reversed_one-HasReversal :
      (m : Movement) (l : Ledger) → HasReversal tid (reversed_one m l).0.movements m
  reversed_one-HasReversal m l = insert_present _ _ _ _ _ _ _ _ _ l

  -- A reversal is no forward movement.
  select-reversed_one :
      (sli : ℕ) (m : Movement) (l : Ledger)
      → select (is_forward tid sli) (reversed_one m l).0.movements
        ≡ select (is_forward tid sli) l.movements
  unfolding insert_or_nothing is_forward
  select-reversed_one sli m l = ground arith

  -- The ledger after the loop, with no exception.
  abbrev pub reversed_all : List Movement → Ledger → Ledger
  reversed_all [] l = l
  reversed_all (m ∷ fs) l = reversed_all fs (reversed_one m l).0

  -- What the loop over `fs` has done to a ledger.
  pub record ReversedAll (sli : ℕ) (fs : List Movement) (l : Ledger)
      (r : Result ReversalError (Ledger × ℕ)) : Type 0 where
    pub l' : Ledger
    pub n : ℕ
    pub returned : r ≡ ok (l', n)
    pub folded : l' ≡ reversed_all fs l
    pub valid : IsValid l'
    pub grows : Grows tid l l'
    pub findable : (k : Movement) → IsFindable tid l.movements k → IsFindable tid l'.movements k
    pub present : All (HasReversal tid l'.movements) fs
    pub forward : select (is_forward tid sli) l'.movements ≡ select (is_forward tid sli) l.movements

  pub reverse_all-ReversedAll :
      (sli : ℕ) (fs : List Movement) (l : Ledger)
      → IsValid l
      → All (IsFindable tid l.movements) fs
      → ReversedAll sli fs l (reverse_all tid fs l)
  unfolding reverse_all
  reverse_all-ReversedAll sli [] l v h = record {
    l' = l;
    n = 0;
    returned = refl;
    folded = refl;
    valid = v;
    grows = Grows-refl tid l;
    findable = λ k f. f;
    present = tt;
    forward = refl;
  }
  reverse_all-ReversedAll sli (m ∷ fs) l v h =
      let one = reversed_one m l in
      let rest = reverse_all-ReversedAll sli fs one.0 (reversed_one-IsValid m l v) (
        All-map (IsFindable tid l.movements) (IsFindable tid one.0.movements) fs
          (IsFindable-reversed_one m l v) h.1) in
      record {
        l' = rest.l';
        n = added one.1 + rest.n;
        returned =
            rw (record_sale_reversal-eq m l h.0, reverse_all)
              (rw (rest.returned, reverse_all) refl);
        folded = rest.folded;
        valid = rest.valid;
        grows = Grows-trans (reversed_one-Grows m l) rest.grows;
        findable = λ k f. rest.findable k (IsFindable-reversed_one m l v k f);
        present = (
          Grows-any tid (has_key tid (reversal_key m.id m.inventory_item_id)) one.0 rest.l'
              rest.grows (reversed_one-HasReversal m l),
          rest.present,
        );
        forward = rest.forward ∙ select-reversed_one sli m l;
      }

  reversed_one-known :
      (m : Movement) (l : Ledger) → HasReversal tid l.movements m → reversed_one m l ≡ (l, none)
  unfolding insert_or_nothing
  reversed_one-known m l h = ground arith

  -- With every reversal in the ledger the loop writes nothing.
  reverse_all_known :
      (fs : List Movement) (l : Ledger)
      → All (IsFindable tid l.movements) fs
      → All (HasReversal tid l.movements) fs
      → reverse_all tid fs l ≡ ok (l, 0)
  unfolding reverse_all
  reverse_all_known [] l f h = refl
  reverse_all_known (m ∷ fs) l f h =
      rw (record_sale_reversal-eq m l f.0, reverse_all)
        (rw (reversed_one-known m l h.0) (
          rw (reverse_all_known fs l f.1 h.1, reverse_all)
            (ap {B = Result ReversalError (Ledger × ℕ)} (λ p. ok (l, added p.1 + 0))
              (reversed_one-known m l h.0))))

  -- In a well-formed ledger reverse_line always returns; the ledger stays well formed and grows
  -- only by rows of the tenant, every forward movement of the line has its reversal, and none is
  -- added or lost.
  pub reverse_line-ReversedAll :
      (sli : ℕ) (l : Ledger)
      → IsValid l
      → ReversedAll sli (select (is_forward tid sli) l.movements) l (reverse_line tid sli l)
  unfolding reverse_line
  reverse_line-ReversedAll sli l v =
      reverse_all-ReversedAll sli (select (is_forward tid sli) l.movements) l v
        (select-IsFindable tid sli l.movements v.ids)

  -- A second refund event writes no reversal: after reverse_line has returned, another call
  -- returns 0 and the same ledger.
  pub reverse_line_replay :
      (sli : ℕ) (l l' : Ledger) (n : ℕ)
      → IsValid l
      → reverse_line tid sli l ≡ ok (l', n)
      → reverse_line tid sli l' ≡ ok (l', 0)
  unfolding reverse_line
  reverse_line_replay sli l l' n v e =
      let r = reverse_line-ReversedAll sli l v in
      let same : r.l' ≡ l' = cc (r.returned) in
      let again : reverse_line tid sli r.l' ≡ ok (r.l', 0) =
        rw (reverse_line, r.forward)
          (reverse_all_known (select (is_forward tid sli) l.movements) r.l'
            (All-map (IsFindable tid l.movements) (IsFindable tid r.l'.movements)
              (select (is_forward tid sli) l.movements) r.findable
              (select-IsFindable tid sli l.movements v.ids))
            r.present) in
      rw same at again
