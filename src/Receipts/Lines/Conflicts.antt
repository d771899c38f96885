-- ===== src/Receipts/Lines/Conflicts.antt =====
-- Edits that update_line (receipts/services.py) refuses although LineUpdate accepts them.
use reorder_os.Prelude.{
  ℕ, ◌≡◌, refl, ◌∙◌, ◌⊎◌, inl, inr, Bool, true, false, ◌||◌, ◌==◌, Option, none, some, List, [],
  ◌∷◌, ◌++◌, any, arith, find_first, Bool-cases,
}
use reorder_os.Prelude.Finds.{any-append}
use reorder_os.Prelude.Result.{Result, ok, err}
use reorder_os.Receipts.{MatchStatus, matched, unmatched, ReceiptLine, Store}
use reorder_os.Inventory.Resolver.{Texts, ResolveError, resolve_inventory_item}
use reorder_os.Receipts.Desk.{Desk, DeskError, lock_editable_receipt, multiple_assignments}
use reorder_os.Receipts.Lines.{
  LineUpdate, NewItem, is_given, Assignment, set_item, set_status, set_corrected, column,
  has_duplicate, check_sets, field_sets, corrected_sets, edits_fields, links_item, creates_item,
  is_coherent, item_sets, status_sets, is_line_row, edit_line, update_line, is_active_item,
  resolved,
}

-- The field edits bring their own assignment of manually_corrected.
corrected-any :
    (p : LineUpdate)
    → edits_fields p ≡ true
    → any (λ b. column b == 2) (field_sets p ++ corrected_sets p) ≡ true
corrected-any p h =
    rw h (any-append (λ b. column b == 2) (field_sets p) (set_corrected true ∷ []) refl)

-- The three assignments of a branch on the item.
abbrev triple : Option ℕ → MatchStatus → Bool → List Assignment
triple item st b = set_item item ∷ set_status st ∷ set_corrected b ∷ []

triple_twice :
    (p : LineUpdate) (item : Option ℕ) (st : MatchStatus) (b : Bool)
    → edits_fields p ≡ true
    → check_sets (triple item st b ++ (field_sets p ++ corrected_sets p)) ≡ err multiple_assignments
unfolding check_sets has_duplicate
triple_twice p item st b h = ground (arith, corrected-any p h)

-- The branch raises, or makes the three assignments.
abbrev IsTriple : Result DeskError (Desk × List Assignment) → Type 0
IsTriple r =
    ((e : DeskError) × (r ≡ err e))
    ⊎ ((d : Desk) × (item : Option ℕ) × (st : MatchStatus) × (b : Bool) × (r
          ≡ ok (d, triple item st b)))

resolved-IsTriple : (d : Desk) (r : Result ResolveError (Store × ℕ)) → IsTriple (resolved d r)
resolved-IsTriple d (err e) = inl (_, refl)
resolved-IsTriple d (ok (s, iid)) = inr (_, _, _, _, refl)

module _ (t : Texts) (tid : ℕ) where
  item_sets-IsTriple :
      (item : Option (Option ℕ)) (new_item : Option (Option NewItem)) (d : Desk)
      → (is_given item || is_given new_item) ≡ true
      → IsTriple (item_sets t tid item new_item d)
  item_sets-IsTriple none none d h = absurd (ground arith)
  item_sets-IsTriple none (some none) d h = absurd (ground arith)
  item_sets-IsTriple none (some (some x)) d h =
      resolved-IsTriple d (resolve_inventory_item t tid x.name x.unit d.store)
  item_sets-IsTriple (some none) new_item d h = inr (d, none, unmatched, false, refl)
  item_sets-IsTriple (some (some iid)) new_item d h =
      elim (Bool-cases (is_active_item tid iid d.store.items)) [
        | inl y ↦ rw y (inr (d, some iid, matched, true, refl))
        | inr n ↦ rw n (inl (_, refl))
      ]

  status_sets-absent :
      (p : LineUpdate) (ln : ReceiptLine) (d : Desk) (b : Option Bool)
      → b ≡ none
      → status_sets t tid p ln b d ≡ item_sets t tid p.inventory_item_id p.new_item d
  status_sets-absent p ln d none h = refl
  status_sets-absent p ln d (some b) h = absurd (ground arith)

  -- A request that the validator of LineUpdate accepts, and that both links or creates an item and
  -- edits a field of the line, fails on a line of a receipt that may be edited, where the item is
  -- found or created: the UPDATE assigns manually_corrected twice, which PostgreSQL refuses.
  pub update_line_raises :
      (rid lid : ℕ) (p : LineUpdate) (d d' : Desk) (ln : ReceiptLine) (sets : List Assignment)
      → is_coherent p ≡ true
      → (links_item p || creates_item p) ≡ true
      → edits_fields p ≡ true
      → lock_editable_receipt tid rid d ≡ ok tt
      → find_first (is_line_row tid rid lid) d.store.lines ≡ some ln
      → item_sets t tid p.inventory_item_id p.new_item d ≡ ok (d', sets)
      → update_line t tid rid lid p d ≡ err multiple_assignments
  unfolding update_line edit_line is_coherent
  update_line_raises rid lid p d d' ln sets coherent links edits lock row done =
      let absent : p.skipped ≡ none = ground arith in
      let same = status_sets-absent p ln d p.skipped absent in
      elim (item_sets-IsTriple p.inventory_item_id p.new_item d links) [
        | inl (e, c) ↦ absurd (let no : err e ≡ ok (d', sets) = (rw c at done) in ground arith)
        | inr (d'', item, st, b, c) ↦
            rw (update_line, lock, row, edit_line, same ∙ c, triple_twice p item st b edits) refl
      ]
