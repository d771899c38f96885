-- ===== src/Depletion/Writer/Replay.antt =====
-- The writers of depletion/writer.py under repeated keys, and reversals.
use reorder_os.Prelude.{
  ℕ, ◌<◌, ◌≡◌, ◌↔◌, inl, inr, refl, Bool, true, false, ◌||◌, Option, none, some, List, [], ◌∷◌, ap,
  arith, any, find_first, Bool-cases, Option-cases,
}
use reorder_os.Prelude.Finds.{any-append}
use reorder_os.Prelude.Int.{ℤ}
use reorder_os.Prelude.Result.{ok}
use reorder_os.Prelude.Decimal.{Decimals}
use reorder_os.Schema.{MovementType, SourceType, reversal, Key, Movement, Ledger}
use reorder_os.Depletion.Writer.{
  has_key, has_id, insert_or_nothing, legacy_present, write_movement, coalesce, reverse_row,
  reversal_key, reversal_type, record_sale_reversal,
}
use reorder_os.Depletion.Writer.Rows.{
  IsBelow, IsValid, Grows, Grows-refl, insert-IsValid, insert-Grows, insert_present,
}

pub Grows-any :
    (tid : ℕ) (p : Movement → Bool) (l l' : Ledger)
    → Grows tid l l'
    → any p l.movements ≡ true
    → any p l'.movements ≡ true
Grows-any tid p l l' g h = rw (g.rows) (any-append p g.new l.movements h)

-- The key or the legacy key is in the tenant's ledger.
abbrev pub is_known : ℕ → Key → Option Key → List Movement → Bool
is_known tid key legacy_key ms = legacy_present tid legacy_key ms || any (has_key tid key) ms

or_true : (a : Bool) {b : Bool} → b ≡ true → (a || b) ≡ true
or_true true h = refl
or_true false h = h

pub Grows-is_known :
    (tid : ℕ) (key : Key) (legacy_key : Option Key) (l l' : Ledger)
    → Grows tid l l'
    → is_known tid key legacy_key l.movements ≡ true
    → is_known tid key legacy_key l'.movements ≡ true
unfolding legacy_present
Grows-is_known tid key none l l' g h = Grows-any tid (has_key tid key) l l' g h
Grows-is_known tid key (some k) l l' g h = elim (Bool-cases (any (has_key tid k) l.movements)) [
  | inl e ↦ rw (Grows-any tid (has_key tid k) l l' g e) refl
  | inr e ↦ or_true _ (Grows-any tid (has_key tid key) l l' g (rw e at h))
]

module _ (tid : ℕ) (key : Key) (legacy_key : Option Key) (item : ℕ) (mtype : MovementType)
    (delta yf : ℤ) (stype : SourceType) (sid : ℕ) (at : Option ℕ) (l : Ledger) where
  -- A write keeps a ledger well formed: identifiers and idempotency keys stay unique.
  pub write_movement-IsValid :
      IsValid l → IsValid (write_movement tid key legacy_key item mtype delta yf stype sid at l).0
  unfolding write_movement
  write_movement-IsValid v = elim (Bool-cases (legacy_present tid legacy_key l.movements)) [
    | inl e ↦ rw e v
    | inr e ↦
        rw e (
          insert-IsValid tid item mtype delta stype (some sid) key (some yf) (coalesce at l.now) l
            v)
  ]

  -- A write leaves the old rows as they are, behind at most new rows of the tenant.
  pub write_movement-Grows :
      Grows tid l (write_movement tid key legacy_key item mtype delta yf stype sid at l).0
  unfolding write_movement
  write_movement-Grows = elim (Bool-cases (legacy_present tid legacy_key l.movements)) [
    | inl e ↦ rw e (Grows-refl tid l)
    | inr e ↦
        rw e
          (insert-Grows tid item mtype delta stype (some sid) key (some yf) (coalesce at l.now) l)
  ]

  -- No movement is written exactly when its key or its legacy key is in the tenant's ledger.
  pub write_movement_iff :
      let r = write_movement tid key legacy_key item mtype delta yf stype sid at l in
      (r.1 ≡ none) ↔ (is_known tid key legacy_key l.movements ≡ true)
  unfolding write_movement insert_or_nothing
  write_movement_iff = (λ h. ground arith, λ h. ground arith)

  write_movement_known :
      is_known tid key legacy_key l.movements ≡ true
      → write_movement tid key legacy_key item mtype delta yf stype sid at l ≡ (l, none)
  unfolding write_movement insert_or_nothing
  write_movement_known h = ground arith

  pub write_movement-is_known :
      is_known tid key legacy_key
        (write_movement tid key legacy_key item mtype delta yf stype sid at l).0.movements
      ≡ true
  unfolding write_movement
  write_movement-is_known = elim (Bool-cases (legacy_present tid legacy_key l.movements)) [
    | inl e ↦ rw (e, e) refl
    | inr e ↦ rw e (
        or_true _ (
          insert_present tid item mtype delta stype (some sid) key (some yf) (coalesce at l.now) l))
  ]

module _ (tid : ℕ) (key : Key) (legacy_key : Option Key) (item : ℕ) (mtype : MovementType)
    (delta yf : ℤ) (stype : SourceType) (sid : ℕ) (at : Option ℕ) (l : Ledger) where
  abbrev after : Ledger
  after = (write_movement tid key legacy_key item mtype delta yf stype sid at l).0

  -- A second write under the same keys, whatever else it carries, leaves the ledger as it is and
  -- reports that nothing was written.
  pub write_movement_replay :
      (item' : ℕ) (mtype' : MovementType) (delta' yf' : ℤ) (stype' : SourceType) (sid' : ℕ)
      (at' : Option ℕ)
      → let l' = (write_movement tid key legacy_key item mtype delta yf stype sid at l).0 in
        write_movement tid key legacy_key item' mtype' delta' yf' stype' sid' at' l' ≡ (l', none)
  write_movement_replay item' mtype' delta' yf' stype' sid' at' =
      write_movement_known tid key legacy_key item' mtype' delta' yf' stype' sid' at' after
        (write_movement-is_known tid key legacy_key item mtype delta yf stype sid at l)

-- An identifier in the table lies below the generator's next one.
pub found-lt :
    (tid oid n : ℕ) (ms : List Movement) (m : Movement)
    → IsBelow n ms
    → find_first (has_id tid oid) ms ≡ some m
    → oid < n
unfolding has_id
found-lt tid oid n [] m b e = cc
found-lt tid oid n (x ∷ ms) m b e = ground (arith, found-lt tid oid n ms m b.1)

-- The table after the INSERT of a reversal still has the reversed row where it was.
pub found_after_insert :
    (tid oid item : ℕ) (mtype : MovementType) (delta : ℤ) (stype : SourceType) (sid : Option ℕ)
    (key : Key) (yf : Option ℤ) (at : ℕ) (l : Ledger) (m : Movement)
    → IsBelow l.next_id l.movements
    → find_first (has_id tid oid) l.movements ≡ some m
    → find_first
        (has_id tid oid)
        (insert_or_nothing tid item mtype delta stype sid key yf at l).0.movements
      ≡ some m
unfolding insert_or_nothing has_id
found_after_insert tid oid item mtype delta stype sid key yf at l m b e =
    ground (arith, found-lt tid oid l.next_id l.movements m b e)

module _ ⦃dec : Decimals⦄ (tid oid item : ℕ) (l : Ledger) where
  -- What a successful reversal has done.
  pub record Reversed (l' : Ledger) (r : Option ℕ) : Type 0 where
    pub original : Movement
    pub rtype : MovementType
    pub found : find_first (has_id tid oid) l.movements ≡ some original
    pub matches : reversal_type original.movement_type ≡ some rtype
    pub inserted :
        insert_or_nothing tid item rtype
          (dec.neg original.delta)
          reversal
          (some oid)
          (reversal_key oid item)
          original.yield_factor_applied
          l.now
          l
        ≡ (l', r)

  -- A reversal that returns found a row of the tenant with the id, of a type that can be reversed,
  -- and did the INSERT of its negation with the original's yield factor, under the reversal key.
  pub record_sale_reversal-Reversed :
      (l' : Ledger) (r : Option ℕ)
      → record_sale_reversal tid oid item l ≡ ok (l', r)
      → Reversed l' r
  unfolding record_sale_reversal reverse_row
  record_sale_reversal-Reversed l' r e =
      elim (Option-cases (find_first (has_id tid oid) l.movements)) [
        | inl absent ↦ absurd (ground arith)
        | inr (m, found) ↦ elim (Option-cases (reversal_type m.movement_type)) [
          | inl bad ↦ absurd (ground arith)
          | inr (rtype, good) ↦ record {
            original = m;
            rtype = rtype;
            found = found;
            matches = good;
            inserted = ground arith;
          }
        ]
      ]

  pub Reversed-IsValid : {l' : Ledger} {r : Option ℕ} → IsValid l → Reversed l' r → IsValid l'
  Reversed-IsValid v h = rw (ap (λ (p : Ledger × Option ℕ). p.0) h.inserted) at (
      insert-IsValid tid item h.rtype (dec.neg h.original.delta) reversal (some oid)
        (reversal_key oid item) h.original.yield_factor_applied l.now l v)

  pub Reversed-Grows : {l' : Ledger} {r : Option ℕ} → Reversed l' r → Grows tid l l'
  Reversed-Grows h = rw (ap (λ (p : Ledger × Option ℕ). p.0) h.inserted) at (
      insert-Grows tid item h.rtype (dec.neg h.original.delta) reversal (some oid)
        (reversal_key oid item) h.original.yield_factor_applied l.now l)

  -- In a ledger that was well formed, the same reversal once more finds its key in the ledger and writes nothing.
  pub Reversed-replay :
      {l' : Ledger} {r : Option ℕ}
      → IsValid l
      → Reversed l' r
      → record_sale_reversal tid oid item l' ≡ ok (l', none)
  unfolding record_sale_reversal reverse_row insert_or_nothing
  Reversed-replay {l'} v h =
      let found : find_first (has_id tid oid) l'.movements ≡ some h.original =
        rw (ap (λ (p : Ledger × Option ℕ). p.0.movements) h.inserted) at (
          found_after_insert tid oid item h.rtype (dec.neg h.original.delta) reversal (some oid)
            (reversal_key oid item) h.original.yield_factor_applied l.now l h.original v.below
            h.found) in
      let present : any (has_key tid (reversal_key oid item)) l'.movements ≡ true =
        rw (ap (λ (p : Ledger × Option ℕ). p.0.movements) h.inserted) at (
          insert_present tid item h.rtype (dec.neg h.original.delta) reversal (some oid)
            (reversal_key oid item) h.original.yield_factor_applied l.now l) in
      rw (found, record_sale_reversal)
        (rw (h.matches, reverse_row) (rw (present, insert_or_nothing) refl))
