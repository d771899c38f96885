-- ===== src/Depletion/Writer/Rows.antt =====
-- The table inventory_movements under the INSERT of depletion/writer.py.
use mathlib.Core.List.{append_assoc}
use reorder_os.Prelude.{
  ℕ, ◌+◌, ◌≤◌, ◌<◌, ◌≡◌, refl, sym, ◌∙◌, inl, inr, true, false, Option, List, [], ◌∷◌, ◌++◌, arith,
  any, All, Bool-cases, str_eq_iff,
}
use reorder_os.Prelude.Finds.{All-append}
use reorder_os.Prelude.Int.{ℤ}
use reorder_os.Schema.{
  MovementType, SourceType, Key, word, uuid, instant, part_eq, key_eq, Movement, Ledger,
}
use reorder_os.Depletion.Writer.{has_key, insert_or_nothing}

abbrev pub IsBelow : ℕ → List Movement → Type 0
IsBelow n [] = Unit
IsBelow n (m ∷ ms) = (m.id < n) × IsBelow n ms

abbrev pub KeysDistinct : List Movement → Type 0
KeysDistinct [] = Unit
KeysDistinct (m ∷ ms) = (any (has_key m.tenant_id m.idempotency_key) ms ≡ false) × KeysDistinct ms

-- PRIMARY KEY (id): the identifiers come from the generator and fall along the list.
abbrev pub IdsDistinct : List Movement → Type 0
IdsDistinct [] = Unit
IdsDistinct (m ∷ ms) = IsBelow m.id ms × IdsDistinct ms

-- PRIMARY KEY (id) and UNIQUE (tenant_id, idempotency_key), and the next identifier is new.
pub record IsValid (l : Ledger) : Type 0 where
  pub below : IsBelow l.next_id l.movements
  pub ids : IdsDistinct l.movements
  pub keys : KeysDistinct l.movements

-- `l'` is `l` with rows of the tenant in front.
pub record Grows (tid : ℕ) (l l' : Ledger) : Type 0 where
  pub new : List Movement
  pub rows : l'.movements ≡ new ++ l.movements
  pub own : All (λ m. m.tenant_id ≡ tid) new
  pub clock : l'.now ≡ l.now

pub key_eq_refl : (k : Key) → key_eq k k ≡ true
unfolding key_eq part_eq
key_eq_refl [] = refl
key_eq_refl (word w ∷ k) = ground (arith, str_eq_iff w w, key_eq_refl k)
key_eq_refl (uuid i ∷ k) = ground (arith, key_eq_refl k)
key_eq_refl (instant i ∷ k) = ground (arith, key_eq_refl k)

pub has_key_self : (m : Movement) → has_key m.tenant_id m.idempotency_key m ≡ true
unfolding has_key
has_key_self m = ground (arith, key_eq_refl m.idempotency_key)

IsBelow-mono : (n k : ℕ) (ms : List Movement) → n ≤ k → IsBelow n ms → IsBelow k ms
IsBelow-mono n k [] h b = tt
IsBelow-mono n k (m ∷ ms) h b = (omega arith, IsBelow-mono n k ms h b.1)

pub Grows-refl : (tid : ℕ) (l : Ledger) → Grows tid l l
Grows-refl tid l = record { new = []; rows = refl; own = tt; clock = refl }

pub Grows-trans : {tid : ℕ} {a b c : Ledger} → Grows tid a b → Grows tid b c → Grows tid a c
Grows-trans {tid} {a} {b} {c} f g = record {
  new = g.new ++ f.new;
  rows = rw (g.rows, f.rows) (sym (append_assoc g.new f.new a.movements));
  own = All-append (λ m. m.tenant_id ≡ tid) g.new f.new g.own f.own;
  clock = g.clock ∙ f.clock;
}

module _ (tid item : ℕ) (mtype : MovementType) (delta : ℤ) (stype : SourceType) (sid : Option ℕ)
    (key : Key) (yf : Option ℤ) (at : ℕ) (l : Ledger) where
  pub insert-IsValid :
      IsValid l → IsValid (insert_or_nothing tid item mtype delta stype sid key yf at l).0
  unfolding insert_or_nothing
  insert-IsValid v = elim (Bool-cases (any (has_key tid key) l.movements)) [
    | inl present ↦ rw present v
    | inr absent ↦ rw absent (record {
      below =
          (omega arith, IsBelow-mono l.next_id (l.next_id + 1) l.movements (omega arith) v.below);
      ids = (v.below, v.ids);
      keys = (absent, v.keys);
    })
  ]

  pub insert-Grows : Grows tid l (insert_or_nothing tid item mtype delta stype sid key yf at l).0
  unfolding insert_or_nothing
  insert-Grows = elim (Bool-cases (any (has_key tid key) l.movements)) [
    | inl present ↦ rw present (Grows-refl tid l)
    | inr absent ↦ rw absent (record {
      new =
          (record {
            id = l.next_id;
            tenant_id = tid;
            inventory_item_id = item;
            movement_type = mtype;
            delta = delta;
            source_type = stype;
            source_id = sid;
            idempotency_key = key;
            yield_factor_applied = yf;
            recorded_at = at;
            created_at = l.now;
          })
          ∷ [];
      rows = refl;
      own = (refl, tt);
      clock = refl;
    })
  ]

  pub insert_present :
      any
        (has_key tid key)
        (insert_or_nothing tid item mtype delta stype sid key yf at l).0.movements
      ≡ true
  unfolding insert_or_nothing has_key
  insert_present = ground (arith, key_eq_refl key)
