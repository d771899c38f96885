-- ===== src/Receipts/Lines.antt =====
-- The edits of a receipt's lines: update_line and add_line of
-- backend/app/modules/receipts/services.py, and the validator of LineUpdate in schemas.py.
pub mod Matched
pub mod Edited
pub mod Conflicts
use reorder_os.Prelude.{
  ℕ, String, Bool, true, false, not, ◌&&◌, ◌||◌, Option, none, some, List, [], ◌∷◌, ◌++◌, any,
  find_first, update_where, is_some, ◌==◌, if◌then◌else◌,
}
use reorder_os.Prelude.Int.{ℤ}
use reorder_os.Prelude.Result.{Result, ok, err, ◌>>=◌, ◌>>◌, raise_if}
use reorder_os.Schema.{Item}
use reorder_os.Receipts.{MatchStatus, matched, created, unmatched, skipped, ReceiptLine, Store}
use reorder_os.Inventory.Receipt.{is_line_of}
use reorder_os.Inventory.Resolver.{Texts, ResolveError, resolve_inventory_item}
use reorder_os.Receipts.Desk.{
  Desk, DeskError, line_not_found, unknown_inventory_item, resolve_raised, syntax_error,
  multiple_assignments, with_store, lock_editable_receipt, touch_review,
}

-- new_item_name and new_item_unit.
pub record NewItem : Type 0 where
  pub name : String
  pub unit : String

-- A LineUpdate that the field validators have passed. A field of the request that is absent is
-- none, one that is null is `some none`. The two fields of a new item are one.
pub record LineUpdate : Type 0 where
  pub inventory_item_id : Option (Option ℕ)
  pub new_item : Option (Option NewItem)
  pub received_quantity : Option ℤ
  pub extracted_unit : Option (Option String)
  pub unit_cost_cents : Option (Option ℤ)
  pub extracted_name : Option (Option String)
  pub skipped : Option Bool

abbrev pub edits_fields : LineUpdate → Bool
edits_fields p =
    is_some p.received_quantity
    || is_some p.extracted_unit
    || is_some p.unit_cost_cents
    || is_some p.extracted_name

abbrev pub is_given {ℓ} : {A : Type ℓ} → Option (Option A) → Bool
is_given (some (some a)) = true
is_given _ = false

abbrev is_null {ℓ} : {A : Type ℓ} → Option (Option A) → Bool
is_null (some none) = true
is_null _ = false

abbrev pub links_item : LineUpdate → Bool
links_item p = is_given p.inventory_item_id

abbrev pub clears_item : LineUpdate → Bool
clears_item p = is_null p.inventory_item_id

abbrev pub creates_item : LineUpdate → Bool
creates_item p = is_given p.new_item

-- LineUpdate._coherent
unfoldable pub is_coherent : LineUpdate → Bool
is_coherent p =
    (is_some p.inventory_item_id || is_some p.new_item || edits_fields p || is_some p.skipped)
    && not (creates_item p && (links_item p || clears_item p))
    && not
        (is_some p.skipped && (links_item p || clears_item p || creates_item p || edits_fields p))
    && not (clears_item p && edits_fields p)

-- The entries of `sets`.
pub data Assignment : Type 0 where
  set_item : Option ℕ → Assignment
  set_status : MatchStatus → Assignment
  set_corrected : Bool → Assignment
  set_quantity : ℤ → Assignment
  set_unit : Option String → Assignment
  set_cost : Option ℤ → Assignment
  set_name : Option String → Assignment

-- The column that is assigned, by its place.
abbrev pub column : Assignment → ℕ
column (set_item x) = 0
column (set_status x) = 1
column (set_corrected x) = 2
column (set_quantity x) = 3
column (set_unit x) = 4
column (set_cost x) = 5
column (set_name x) = 6

unfoldable pub has_duplicate : List Assignment → Bool
has_duplicate [] = false
has_duplicate (a ∷ more) = any (λ b. column b == column a) more || has_duplicate more

abbrev pub assign : Assignment → ReceiptLine → ReceiptLine
assign (set_item x) ln = record ln { inventory_item_id = x }
assign (set_status x) ln = record ln { match_status = x }
assign (set_corrected x) ln = record ln { manually_corrected = x }
assign (set_quantity x) ln = record ln { received_quantity = x }
assign (set_unit x) ln = record ln { extracted_unit = x }
assign (set_cost x) ln = record ln { unit_cost_cents = x }
assign (set_name x) ln = record ln { extracted_name = x }

unfoldable pub assign_all : List Assignment → ReceiptLine → ReceiptLine
assign_all [] ln = ln
assign_all (a ∷ more) ln = assign_all more (assign a ln)

-- PostgreSQL parses the SET list before it updates.
unfoldable pub check_sets : List Assignment → Result DeskError (Unit {0})
check_sets [] = err syntax_error
check_sets (a ∷ more) = raise_if (has_duplicate (a ∷ more)) multiple_assignments

abbrev pub set_of {ℓ} : {A : Type ℓ} → (A → Assignment) → Option A → List Assignment
set_of f none = []
set_of f (some a) = f a ∷ []

-- `field_edits`, whose order is a set's; the columns are distinct.
unfoldable pub field_sets : LineUpdate → List Assignment
field_sets p =
    set_of set_quantity p.received_quantity
    ++ (set_of set_unit p.extracted_unit
        ++ (set_of set_cost p.unit_cost_cents ++ set_of set_name p.extracted_name))

abbrev pub corrected_sets : LineUpdate → List Assignment
corrected_sets p = if edits_fields p then set_corrected true ∷ [] else []

abbrev pub skip_sets : Bool → ReceiptLine → List Assignment
skip_sets true ln = set_status skipped ∷ []
skip_sets false ln = set_status (if is_some ln.inventory_item_id then matched else unmatched) ∷ []

abbrev pub link_sets : MatchStatus → ℕ → List Assignment
link_sets st iid = set_item (some iid) ∷ set_status st ∷ set_corrected true ∷ []

abbrev pub clear_sets : List Assignment
clear_sets = set_item none ∷ set_status unmatched ∷ set_corrected false ∷ []

-- _assert_active_item
unfoldable pub is_active_item : (tid iid : ℕ) → List Item → Bool
is_active_item tid iid items = any (λ i. i.tenant_id == tid && (i.id == iid) && i.active) items

abbrev pub resolved :
    Desk → Result ResolveError (Store × ℕ) → Result DeskError (Desk × List Assignment)
resolved d (err e) = err (resolve_raised e)
resolved d (ok (s, iid)) = ok (record d { store = s }, link_sets created iid)

abbrev pub create_sets :
    Texts → (tid : ℕ) → Option (Option NewItem) → Desk → Result DeskError (Desk × List Assignment)
create_sets t tid (some (some x)) d =
    resolved d (resolve_inventory_item t tid x.name x.unit d.store)
create_sets t tid _ d = ok (d, [])

-- The branches on the item, where `skipped` is absent.
abbrev pub item_sets :
    Texts
    → (tid : ℕ) → Option (Option ℕ)
    → Option (Option NewItem)
    → Desk
    → Result DeskError (Desk × List Assignment)
item_sets t tid none new_item d = create_sets t tid new_item d
item_sets t tid (some none) new_item d = ok (d, clear_sets)
item_sets t tid (some (some iid)) new_item d = do
  raise_if (not (is_active_item tid iid d.store.items)) unknown_inventory_item
  ok (d, link_sets matched iid)

abbrev pub status_sets :
    Texts
    → (tid : ℕ) → LineUpdate
    → ReceiptLine
    → Option Bool
    → Desk
    → Result DeskError (Desk × List Assignment)
status_sets t tid p ln (some b) d = ok (d, skip_sets b ln)
status_sets t tid p ln none d = item_sets t tid p.inventory_item_id p.new_item d

abbrev pub is_line_row : (tid rid lid : ℕ) → ReceiptLine → Bool
is_line_row tid rid lid ln = is_line_of tid rid ln && (ln.id == lid)

unfoldable pub write_line : (tid rid lid : ℕ) → List Assignment → Desk → Desk
write_line tid rid lid sets =
    with_store
      (λ s. record s { lines = update_where (is_line_row tid rid lid) (assign_all sets) s.lines })

unfoldable pub edit_line :
    Texts → (tid rid lid : ℕ) → LineUpdate → ReceiptLine → Desk → Result DeskError Desk
edit_line t tid rid lid p ln d = do
  (d', status) ← status_sets t tid p ln p.skipped d
  let sets = status ++ (field_sets p ++ corrected_sets p)
  check_sets sets
  ok (touch_review tid rid (write_line tid rid lid sets d'))

unfoldable pub update_line : Texts → (tid rid lid : ℕ) → LineUpdate → Desk → Result DeskError Desk
update_line t tid rid lid p d = do
  lock_editable_receipt tid rid d
  elim (find_first (is_line_row tid rid lid) d.store.lines) [
    | none ↦ err line_not_found
    | some ln ↦ edit_line t tid rid lid p ln d
  ]
