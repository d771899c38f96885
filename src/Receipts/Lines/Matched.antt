-- ===== src/Receipts/Lines/Matched.antt =====
-- The assignments of update_line (receipts/services.py), and the item of a matched line.
use reorder_os.Prelude.{
  ℕ, ◌≡◌, refl, ◌∙◌, inl, inr, Bool, true, false, Option, none, some, List, [], ◌∷◌, ◌++◌, All,
  arith, is_some, Bool-cases,
}
use reorder_os.Prelude.Finds.{All-append}
use reorder_os.Receipts.{MatchStatus, matched, created, ReceiptLine}
use reorder_os.Receipts.Lines.{
  LineUpdate, Assignment, set_item, set_status, set_corrected, set_quantity, set_unit, set_cost,
  set_name, assign, assign_all, set_of, field_sets, corrected_sets, edits_fields, is_line_row,
}

-- A line that is matched or created has its item.
abbrev pub is_well_matched : MatchStatus → Option ℕ → Bool
is_well_matched matched item = is_some item
is_well_matched created item = is_some item
is_well_matched _ item = true

abbrev pub IsMatched : ReceiptLine → Type 0
IsMatched ln = is_well_matched ln.match_status ln.inventory_item_id ≡ true

-- The assignments that touch neither the item nor the status.
abbrev is_plain : Assignment → Bool
is_plain (set_item x) = false
is_plain (set_status x) = false
is_plain _ = true

assign-IsMatched :
    (a : Assignment) (ln : ReceiptLine) → is_plain a ≡ true → IsMatched ln → IsMatched (assign a ln)
assign-IsMatched (set_corrected x) ln p h = h
assign-IsMatched (set_quantity x) ln p h = h
assign-IsMatched (set_unit x) ln p h = h
assign-IsMatched (set_cost x) ln p h = h
assign-IsMatched (set_name x) ln p h = h
assign-IsMatched (set_item x) ln p h = absurd (ground arith)
assign-IsMatched (set_status x) ln p h = absurd (ground arith)

assign_all-IsMatched :
    (sets : List Assignment) (ln : ReceiptLine)
    → All (λ a. is_plain a ≡ true) sets
    → IsMatched ln
    → IsMatched (assign_all sets ln)
unfolding assign_all
assign_all-IsMatched [] ln p h = h
assign_all-IsMatched (a ∷ more) ln p h =
    assign_all-IsMatched more (assign a ln) p.1 (assign-IsMatched a ln p.0 h)

set_of-plain :
    {A : Type 0} (f : A → Assignment)
    → ((a : A) → is_plain (f a) ≡ true)
    → (o : Option A) → All (λ a. is_plain a ≡ true) (set_of f o)
set_of-plain f h none = tt
set_of-plain f h (some a) = (h a, tt)

corrected_sets-plain : (p : LineUpdate) → All (λ a. is_plain a ≡ true) (corrected_sets p)
corrected_sets-plain p = elim (Bool-cases (edits_fields p)) [
  | inl y ↦ rw y (refl, tt)
  | inr n ↦ rw n tt
]

pub field_sets-plain :
    (p : LineUpdate) → All (λ a. is_plain a ≡ true) (field_sets p ++ corrected_sets p)
unfolding field_sets
field_sets-plain p =
    let P : Assignment → Type 0 = λ a. is_plain a ≡ true in
    All-append P (field_sets p) _
      (All-append P (set_of set_quantity p.received_quantity) _
        (set_of-plain set_quantity (λ a. refl) p.received_quantity)
        (All-append P (set_of set_unit p.extracted_unit) _
          (set_of-plain set_unit (λ a. refl) p.extracted_unit)
          (All-append P (set_of set_cost p.unit_cost_cents) _
            (set_of-plain set_cost (λ a. refl) p.unit_cost_cents)
            (set_of-plain set_name (λ a. refl) p.extracted_name))))
      (corrected_sets-plain p)

assign-row :
    (tid rid lid : ℕ) (a : Assignment) (ln : ReceiptLine)
    → is_line_row tid rid lid (assign a ln) ≡ is_line_row tid rid lid ln
assign-row tid rid lid (set_item x) ln = refl
assign-row tid rid lid (set_status x) ln = refl
assign-row tid rid lid (set_corrected x) ln = refl
assign-row tid rid lid (set_quantity x) ln = refl
assign-row tid rid lid (set_unit x) ln = refl
assign-row tid rid lid (set_cost x) ln = refl
assign-row tid rid lid (set_name x) ln = refl

pub assign_all-row :
    (tid rid lid : ℕ) (sets : List Assignment) (ln : ReceiptLine)
    → is_line_row tid rid lid (assign_all sets ln) ≡ is_line_row tid rid lid ln
unfolding assign_all
assign_all-row tid rid lid [] ln = refl
assign_all-row tid rid lid (a ∷ more) ln =
    assign_all-row tid rid lid more (assign a ln) ∙ assign-row tid rid lid a ln

-- The list of an update behind assignments to item and status.
pub sets-IsMatched :
    (status : List Assignment) (p : LineUpdate) (ln : ReceiptLine)
    → IsMatched (assign_all status ln)
    → IsMatched (assign_all (status ++ (field_sets p ++ corrected_sets p)) ln)
unfolding assign_all
sets-IsMatched [] p ln h = assign_all-IsMatched _ ln (field_sets-plain p) h
sets-IsMatched (a ∷ status) p ln h = sets-IsMatched status p (assign a ln) h
