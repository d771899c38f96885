-- ===== src/Pos/Lines/Frozen.antt =====
-- A second ingestion of an order's line items.
use reorder_os.Prelude.{
  ℕ, ◌≡◌, refl, sym, ◌∙◌, inl, inr, String, true, ◌||◌, Option, none, some, List, [], ◌∷◌, ◌++◌,
  map, arith, any, str_eq, str_eq_iff, Bool-cases, All,
}
use mathlib.Core.List.{append_assoc}
use reorder_os.Prelude.Finds.{any-append, All-append}
use reorder_os.Prelude.Int.{ℤ}
use reorder_os.Schema.{SaleLine, pending}
use reorder_os.Pos.Payment.{LineItem}
use reorder_os.Pos.Lines.{
  Floats, Menu, Modifier, Sales, has_clover_id, line_of, insert_line_item, insert_slim,
  insert_slims, ingest_with, snapshot_modifiers, snapshot_new, ingest_lines,
}

-- The line is skipped, or has its row.
abbrev pub IsIngested : ℕ → Option String → List SaleLine → Type 0
IsIngested tid none lines = Unit
IsIngested tid (some li_id) lines = (str_eq li_id "" || any (has_clover_id tid li_id) lines) ≡ true

-- `lines'` is `lines` behind new rows, each of the tenant and the order, and pending.
pub record Extends (tid order_id : ℕ) (lines lines' : List SaleLine) : Type 0 where
  pub new : List SaleLine
  pub rows : lines' ≡ new ++ lines
  pub fresh :
      All
        (λ l. (l.tenant_id ≡ tid) × (l.order_id ≡ order_id) × (l.depletion_status ≡ some pending))
        new

module _ (floats : Floats) (tid order_id : ℕ) where
  insert_slim-lines :
      (sli : ℕ) (pid : String) (qty : ℤ) (modifiers : List Modifier) (s : Sales)
      → (insert_slim floats tid sli pid qty modifiers s).lines ≡ s.lines
  unfolding insert_slim
  insert_slim-lines sli pid qty modifiers s = ground arith

  insert_slims-lines :
      (sli : ℕ) (counts : List (String × ℤ)) (modifiers : List Modifier) (s : Sales)
      → (insert_slims floats tid sli counts modifiers s).lines ≡ s.lines
  unfolding insert_slims
  insert_slims-lines sli [] modifiers s = refl
  insert_slims-lines sli ((pid, qty) ∷ counts) modifiers s =
      insert_slims-lines sli counts modifiers (insert_slim floats tid sli pid qty modifiers s)
      ∙ insert_slim-lines sli pid qty modifiers s

  snapshot_new-lines :
      (new_id : Option ℕ) (li : LineItem) (modifiers : List Modifier) (s : Sales)
      → (snapshot_new floats tid new_id li modifiers s).lines ≡ s.lines
  unfolding snapshot_modifiers
  snapshot_new-lines none li modifiers s = refl
  snapshot_new-lines (some sli) li modifiers s = insert_slims-lines sli _ modifiers s

  -- A line that was ingested is left as it is, and its modifiers too.
  ingest_with_known :
      (id : Option String) (li : LineItem) (menu : Menu) (s : Sales)
      → IsIngested tid id s.lines
      → ingest_with floats tid order_id id li menu s ≡ s
  unfolding ingest_with insert_line_item
  ingest_with_known none li menu s h = refl
  ingest_with_known (some li_id) li menu s h = elim (Bool-cases (str_eq li_id "")) [
    | inl e ↦ rw e refl
    | inr n ↦ let h' : any (has_clover_id tid li_id) s.lines ≡ true = (rw n at h) in rw (n, h') refl
  ]

  has_clover_id-line_of :
      (id : ℕ) (li_id : String) (li : LineItem) (menu : Menu)
      → has_clover_id tid li_id (line_of floats id tid order_id li_id li menu.items) ≡ true
  unfolding has_clover_id line_of
  has_clover_id-line_of id li_id li menu = ground (arith, str_eq_iff li_id li_id)

  -- After its turn a line is ingested.
  ingest_with-IsIngested :
      (id : Option String) (li : LineItem) (menu : Menu) (s : Sales)
      → IsIngested tid id (ingest_with floats tid order_id id li menu s).lines
  unfolding ingest_with insert_line_item
  ingest_with-IsIngested none li menu s = tt
  ingest_with-IsIngested (some li_id) li menu s = elim (Bool-cases (str_eq li_id "")) [
    | inl e ↦ rw e refl
    | inr n ↦ elim (Bool-cases (any (has_clover_id tid li_id) s.lines)) [
      | inl present ↦ rw (n, present) present
      | inr absent ↦
          rw (n, absent)
            (rw (snapshot_new-lines _ li menu.modifiers _)
              (rw (has_clover_id-line_of s.next_id li_id li menu) refl))
    ]
  ]

  -- One turn only adds pending lines of the order in front.
  ingest_with-Extends :
      (id : Option String) (li : LineItem) (menu : Menu) (s : Sales)
      → Extends tid order_id s.lines (ingest_with floats tid order_id id li menu s).lines
  unfolding ingest_with insert_line_item line_of
  ingest_with-Extends none li menu s = record { new = []; rows = refl; fresh = tt }
  ingest_with-Extends (some li_id) li menu s = elim (Bool-cases (str_eq li_id "")) [
    | inl e ↦ rw e (record { new = []; rows = refl; fresh = tt })
    | inr n ↦ elim (Bool-cases (any (has_clover_id tid li_id) s.lines)) [
      | inl present ↦ rw (n, present) (record { new = []; rows = refl; fresh = tt })
      | inr absent ↦
          rw (n, absent)
            (record {
              new = line_of floats s.next_id tid order_id li_id li menu.items ∷ [];
              rows = snapshot_new-lines (some s.next_id) li menu.modifiers _;
              fresh = ((refl, refl, refl), tt);
            })
    ]
  ]

  Extends-trans :
      {a b c : List SaleLine}
      → Extends tid order_id a b
      → Extends tid order_id b c
      → Extends tid order_id a c
  Extends-trans {a} {b} {c} f g = record {
    new = g.new ++ f.new;
    rows = rw (g.rows, f.rows) (sym (append_assoc g.new f.new a));
    fresh = All-append _ g.new f.new g.fresh f.fresh;
  }

  pub ingest_lines-Extends :
      (lis : List LineItem) (menu : Menu) (s : Sales)
      → Extends tid order_id s.lines (ingest_lines floats tid order_id lis menu s).lines
  unfolding ingest_lines
  ingest_lines-Extends [] menu s = record { new = []; rows = refl; fresh = tt }
  ingest_lines-Extends (li ∷ lis) menu s =
      Extends-trans (ingest_with-Extends li.line_item_id li menu s)
        (ingest_lines-Extends lis menu _)

  IsIngested-Extends :
      (id : Option String) (a b : List SaleLine)
      → Extends tid order_id a b
      → IsIngested tid id a
      → IsIngested tid id b
  IsIngested-Extends none a b f h = tt
  IsIngested-Extends (some li_id) a b f h = elim (Bool-cases (str_eq li_id "")) [
    | inl e ↦ rw e refl
    | inr n ↦ rw n (rw f.rows (any-append (has_clover_id tid li_id) f.new a (rw n at h)))
  ]

  ingest_lines-IsIngested :
      (lis : List LineItem) (menu : Menu) (s : Sales)
      → All
          (λ li. IsIngested tid li.line_item_id (ingest_lines floats tid order_id lis menu s).lines)
          lis
  unfolding ingest_lines
  ingest_lines-IsIngested [] menu s = tt
  ingest_lines-IsIngested (li ∷ lis) menu s =
      let s' = ingest_with floats tid order_id li.line_item_id li menu s in
      (
        IsIngested-Extends li.line_item_id s'.lines _ (ingest_lines-Extends lis menu s')
            (ingest_with-IsIngested li.line_item_id li menu s),
        ingest_lines-IsIngested lis menu s',
      )

  ingest_lines_known :
      (lis : List LineItem) (menu : Menu) (s : Sales)
      → All (λ li. IsIngested tid li.line_item_id s.lines) lis
      → ingest_lines floats tid order_id lis menu s ≡ s
  unfolding ingest_lines
  ingest_lines_known [] menu s h = refl
  ingest_lines_known (li ∷ lis) menu s h =
      rw (ingest_with_known li.line_item_id li menu s h.0) (ingest_lines_known lis menu s h.1)

  All-same_ids :
      (lis lis' : List LineItem) (lines : List SaleLine)
      → map (λ li. li.line_item_id) lis' ≡ map (λ li. li.line_item_id) lis
      → All (λ li. IsIngested tid li.line_item_id lines) lis
      → All (λ li. IsIngested tid li.line_item_id lines) lis'
  All-same_ids [] [] lines e h = tt
  All-same_ids (li ∷ lis) [] lines e h = tt
  All-same_ids [] (li ∷ lis) lines e h = cc
  All-same_ids (li ∷ lis) (li' ∷ lis') lines e h =
      let first : li'.line_item_id ≡ li.line_item_id = cc (e) in
      let rest : map (λ x. x.line_item_id) lis' ≡ map (λ x. x.line_item_id) lis = cc (e) in
      (rw first h.0, All-same_ids lis lis' lines rest h.1)

  -- The ingest freezes lines: when the lines of an order are ingested a second time with the same
  -- ids, whatever else they say and whatever the menu has become, no line and no modifier changes.
  pub ingest_lines_frozen :
      (lis lis' : List LineItem) (menu menu' : Menu) (s : Sales)
      → map (λ li. li.line_item_id) lis' ≡ map (λ li. li.line_item_id) lis
      → ingest_lines floats tid order_id lis' menu' (ingest_lines floats tid order_id lis menu s)
        ≡ ingest_lines floats tid order_id lis menu s
  ingest_lines_frozen lis lis' menu menu' s e =
      ingest_lines_known lis' menu' _
        (All-same_ids lis lis' _ e (ingest_lines-IsIngested lis menu s))
