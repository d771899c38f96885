-- ===== src/Receipts/Lines/Edited.antt =====
-- What update_line (receipts/services.py) leaves of a line, and where it raises.
use reorder_os.Prelude.{
  ℕ, ◌≡◌, refl, ◌∙◌, inl, inr, Bool, true, false, not, Option, none, some, List, [], ◌++◌, select,
  find_first, is_some, Bool-cases,
}
use reorder_os.Prelude.Finds.{find_updated, others_kept}
use reorder_os.Prelude.Result.{Result, ok, err, AllOk, Result-cases}
use reorder_os.Receipts.{matched, Receipt, ReceiptLine, Store}
use reorder_os.Inventory.Receipt.{is_receipt_row}
use reorder_os.Inventory.Resolver.{Texts, ResolveError}
use reorder_os.Inventory.Resolver.Names.{IsSame, resolve_inventory_item-IsSame}
use reorder_os.Receipts.Lines.Matched.{IsMatched, sets-IsMatched, assign_all-row}
use reorder_os.Receipts.Desk.{
  Desk, find_receipt, is_editable, or_now, now_of, lock_editable_receipt, touch_review,
  update_receipt,
}
use reorder_os.Receipts.Lines.{
  LineUpdate, NewItem, Assignment, assign_all, check_sets, field_sets, corrected_sets, skip_sets,
  link_sets, clear_sets, item_sets, status_sets, is_line_row, write_line, edit_line, update_line,
  is_active_item, resolved,
}

-- What the branches on the item and the status leave.
pub record Chosen (d : Desk) (ln : ReceiptLine) (out : Desk × List Assignment) : Type 0 where
  pub same : IsSame d.store out.0.store
  pub linked : IsMatched ln → IsMatched (assign_all out.1 ln)

unchanged :
    (d : Desk) (ln : ReceiptLine) (sets : List Assignment)
    → (IsMatched ln → IsMatched (assign_all sets ln))
    → Chosen d ln (d, sets)
unchanged d ln sets h = record { same = (refl, refl, refl); linked = h }

resolved-Chosen :
    (d : Desk) (ln : ReceiptLine) (r : Result ResolveError (Store × ℕ))
    → AllOk (λ x. IsSame d.store x.0) r
    → AllOk (Chosen d ln) (resolved d r)
unfolding assign_all
resolved-Chosen d ln (err e) h = tt
resolved-Chosen d ln (ok (s, iid)) h = record { same = h; linked = λ k. refl }

module _ (t : Texts) (tid : ℕ) where
  item_sets-Chosen :
      (item : Option (Option ℕ)) (new_item : Option (Option NewItem)) (d : Desk) (ln : ReceiptLine)
      → AllOk (Chosen d ln) (item_sets t tid item new_item d)
  unfolding assign_all
  item_sets-Chosen none none d ln = unchanged d ln [] (λ h. h)
  item_sets-Chosen none (some none) d ln = unchanged d ln [] (λ h. h)
  item_sets-Chosen none (some (some x)) d ln =
      resolved-Chosen d ln _ (resolve_inventory_item-IsSame t tid x.name x.unit d.store)
  item_sets-Chosen (some none) new_item d ln = unchanged d ln clear_sets (λ h. refl)
  item_sets-Chosen (some (some iid)) new_item d ln =
      elim (Bool-cases (is_active_item tid iid d.store.items)) [
        | inl y ↦ rw y (unchanged d ln (link_sets matched iid) (λ h. refl))
        | inr n ↦ rw n tt
      ]

  skip_sets-Chosen : (b : Bool) (d : Desk) (ln : ReceiptLine) → Chosen d ln (d, skip_sets b ln)
  unfolding assign_all
  skip_sets-Chosen true d ln = unchanged d ln _ (λ h. refl)
  skip_sets-Chosen false d ln = elim (Bool-cases (is_some ln.inventory_item_id)) [
    | inl y ↦ rw y (unchanged d ln _ (λ h. y))
    | inr n ↦ rw n (unchanged d ln _ (λ h. refl))
  ]

  status_sets-Chosen :
      (p : LineUpdate) (b : Option Bool) (d : Desk) (ln : ReceiptLine)
      → AllOk (Chosen d ln) (status_sets t tid p ln b d)
  status_sets-Chosen p (some b) d ln = skip_sets-Chosen b d ln
  status_sets-Chosen p none d ln = item_sets-Chosen p.inventory_item_id p.new_item d ln

module _ (t : Texts) (tid rid lid : ℕ) where
  -- What an edit leaves: the line, still with its item if it is matched; the other lines; and the
  -- receipt, under review and without its affirmation.
  pub record Edited (d : Desk) (r : Receipt) (ln : ReceiptLine) (d' : Desk) : Type 0 where
    pub line : ReceiptLine
    pub found : find_first (is_line_row tid rid lid) d'.store.lines ≡ some line
    pub linked : IsMatched ln → IsMatched line
    pub others :
        select (λ x. not (is_line_row tid rid lid x)) d'.store.lines
        ≡ select (λ x. not (is_line_row tid rid lid x)) d.store.lines
    pub receipt :
        find_receipt tid rid d'
        ≡ some (record r {
          review_started_at = or_now r.review_started_at (now_of d);
          reviewed_affirmation = false;
        })

  written-Edited :
      (p : LineUpdate) (sets : List Assignment) (d d' : Desk) (r : Receipt) (ln : ReceiptLine)
      → find_receipt tid rid d ≡ some r
      → find_first (is_line_row tid rid lid) d.store.lines ≡ some ln
      → IsSame d.store d'.store
      → (IsMatched ln → IsMatched (assign_all sets ln))
      → Edited d r ln (touch_review tid rid (write_line tid rid lid sets d'))
  unfolding touch_review update_receipt write_line
  written-Edited p sets d d' r ln found row same linked = record {
    line = assign_all sets ln;
    found = rw same.0 (
        find_updated (is_line_row tid rid lid) _ (λ a h. assign_all-row tid rid lid sets a ∙ h)
          d.store.lines ln row);
    linked = linked;
    others = rw same.0 (
        others_kept (is_line_row tid rid lid) _ (λ a. assign_all-row tid rid lid sets a)
          d.store.lines);
    receipt =
        rw (same.1, same.2)
          (find_updated (is_receipt_row tid rid) _ (λ a h. h) d.store.receipts r found);
  }

  edit_line-Edited :
      (p : LineUpdate) (d : Desk) (r : Receipt) (ln : ReceiptLine)
      → find_receipt tid rid d ≡ some r
      → find_first (is_line_row tid rid lid) d.store.lines ≡ some ln
      → AllOk (Edited d r ln) (edit_line t tid rid lid p ln d)
  unfolding edit_line
  edit_line-Edited p d r ln found row = elim (Result-cases (status_sets t tid p ln p.skipped d)) [
    | inl (e, c) ↦ rw c tt
    | inr ((d₁, status), c) ↦
        let all = status_sets-Chosen t tid p p.skipped d ln in
        let chosen : Chosen d ln (d₁, status) = (rw c at all) in
        let sets = status ++ (field_sets p ++ corrected_sets p) in
        elim (Result-cases (check_sets sets)) [
          | inl (e, k) ↦ rw (c, k) tt
          | inr (u, k) ↦
              rw (c, k)
                (written-Edited p sets d d₁ r ln found row chosen.same
                  (λ m. sets-IsMatched status p ln (chosen.linked m)))
        ]
  ]

  -- An edit that succeeds found a receipt that may still be edited. It leaves the line with an item
  -- if its status says so and did before, changes no other line, starts the review where none was
  -- under way, and takes the affirmation back.
  pub update_line-Edited :
      (p : LineUpdate) (d : Desk) (r : Receipt) (ln : ReceiptLine)
      → find_receipt tid rid d ≡ some r
      → find_first (is_line_row tid rid lid) d.store.lines ≡ some ln
      → AllOk
          (λ d'. (is_editable r.commit_state ≡ true) × Edited d r ln d')
          (update_line t tid rid lid p d)
  unfolding update_line lock_editable_receipt
  update_line-Edited p d r ln found row = elim (Bool-cases (is_editable r.commit_state)) [
    | inr n ↦ rw (update_line, lock_editable_receipt, found, n) tt
    | inl y ↦ elim (Result-cases (edit_line t tid rid lid p ln d)) [
      | inl (e, c) ↦ rw (update_line, lock_editable_receipt, found, y, row, c) tt
      | inr (d', c) ↦
          let all = edit_line-Edited p d r ln found row in
          let edited : Edited d r ln d' = (rw c at all) in
          rw (update_line, lock_editable_receipt, found, y, row, c) (refl, edited)
    ]
  ]
