-- ===== src/Pos/Lines.antt =====
-- The line items of an order: _insert_line_item and _snapshot_modifiers of
-- backend/app/modules/pos/worker.py, and the loop over `lineItems` in process_event. The sums and
-- products of Python's floats are parameters.
pub mod Frozen
use reorder_os.Prelude.{
  ℕ, ◌+◌, String, Bool, true, false, not, ◌&&◌, Option, none, some, List, [], ◌∷◌, any, find_first,
  is_some, str_eq, ◌==◌, if◌then◌else◌,
}
use reorder_os.Prelude.Int.{ℤ, pos, negsuc}
use reorder_os.Schema.{LineModifier, SaleLine, DepletionStatus, pending}
use reorder_os.Pos.Payment.{LineItem, Modification, safe_int, is_truthy}

-- Float arithmetic: 1.0, the sum, and int(price * quantity - discount).
pub record Floats : Type 0 where
  pub one : ℤ
  pub add : ℤ → ℤ → ℤ
  pub net_revenue : (price quantity discount : ℤ) → ℤ

-- The columns of menu_items and modifiers that the worker reads.
pub record MenuItem : Type 0 where
  pub id : ℕ
  pub tenant_id : ℕ
  pub pos_item_id : String
  pub recipe_version_id : Option ℕ

pub record Modifier : Type 0 where
  pub id : ℕ
  pub tenant_id : ℕ
  pub pos_modifier_id : String
  pub is_additive : Bool
  pub current_version_id : Option ℕ

-- The catalog of the till, which operators change.
pub record Menu : Type 0 where
  pub items : List MenuItem
  pub modifiers : List Modifier

-- sale_line_items and sale_line_item_modifiers, with the generators of their ids.
pub record Sales : Type 0 where
  pub next_id : ℕ
  pub lines : List SaleLine
  pub slims : List LineModifier

-- uq_sli_clover
unfoldable pub has_clover_id : (tid : ℕ) → String → SaleLine → Bool
has_clover_id tid li_id l = l.tenant_id == tid && str_eq l.clover_line_item_id li_id

abbrev is_zero : ℤ → Bool
is_zero (pos n) = n == 0
is_zero (negsuc n) = false

-- `x or default`
abbrev or_number : Option ℤ → ℤ → ℤ
or_number none d = d
or_number (some n) d = if is_zero n then d else n

abbrev or_unknown : Option String → String
or_unknown none = "Unknown"
or_unknown (some s) = if str_eq s "" then "Unknown" else s

-- The SELECT of the menu item, which is made only where the line names an item.
abbrev menu_item_of : (tid : ℕ) → Option String → List MenuItem → Option MenuItem
menu_item_of tid none items = none
menu_item_of tid (some pid) items =
    if str_eq pid ""
    then none
    else find_first (λ m. m.tenant_id == tid && str_eq m.pos_item_id pid) items

abbrev item_pointers : Option MenuItem → Option ℕ × Option ℕ
item_pointers none = (none, none)
item_pointers (some m) = (some m.id, m.recipe_version_id)

module _ (floats : Floats) where
  unfoldable pub line_of : (id tid order_id : ℕ) → String → LineItem → List MenuItem → SaleLine
  line_of id tid order_id li_id li items =
      let quantity = or_number li.unit_qty floats.one in
      let price = safe_int li.price in
      let discount = safe_int li.discount_amount in
      let (menu_item, version) = item_pointers (menu_item_of tid li.item_id items) in
      record {
        id = id;
        tenant_id = tid;
        order_id = order_id;
        clover_line_item_id = li_id;
        menu_item_id = menu_item;
        name_at_sale = or_unknown li.name;
        quantity = quantity;
        price_cents_at_sale = price;
        discount_amount_cents = discount;
        net_revenue_cents = floats.net_revenue price quantity discount;
        is_refunded = li.refunded;
        is_voided = li.exchanged;
        recipe_version_id = version;
        depletion_status = some pending;
        depletion_reason = none;
      }

  -- The id of a new row, none on a conflict.
  unfoldable pub insert_line_item :
      (tid order_id : ℕ) → String → LineItem → List MenuItem → Sales → Sales × Option ℕ
  insert_line_item tid order_id li_id li items s =
      if any (has_clover_id tid li_id) s.lines then (s, none) else (
        record s {
          next_id = s.next_id + 1;
          lines = line_of s.next_id tid order_id li_id li items ∷ s.lines;
        },
        some s.next_id,
      )

  -- counts[pos_mid] = counts.get(pos_mid, 0.0) + qty
  unfoldable pub add_count : String → ℤ → List (String × ℤ) → List (String × ℤ)
  add_count pid n [] = (pid, n) ∷ []
  add_count pid n ((k, m) ∷ counts) =
      if str_eq k pid then (k, floats.add m n) ∷ counts else (k, m) ∷ add_count pid n counts

  abbrev count_one : Option String → Option ℤ → List (String × ℤ) → List (String × ℤ)
  count_one none n counts = counts
  count_one (some pid) n counts =
      if str_eq pid "" then counts else add_count pid (or_number n floats.one) counts

  unfoldable pub count_modifiers : List Modification → List (String × ℤ) → List (String × ℤ)
  count_modifiers [] counts = counts
  count_modifiers (m ∷ ms) counts = count_modifiers ms (count_one m.modifier_id m.quantity counts)

  -- The WHERE clause of the SELECT from modifiers.
  unfoldable pub is_confirmed_additive : (tid : ℕ) → String → Modifier → Bool
  is_confirmed_additive tid pid m =
      m.tenant_id == tid
      && str_eq m.pos_modifier_id pid
      && m.is_additive
      && is_some m.current_version_id

  abbrev slim_of :
      (id tid sli mid : ℕ)
      → (version : Option ℕ) → String
      → ℤ
      → List LineModifier
      → List LineModifier
  slim_of id tid sli mid none pid qty slims = slims
  slim_of id tid sli mid (some mv) pid qty slims =
      record {
        id = id;
        tenant_id = tid;
        sale_line_item_id = sli;
        modifier_id = mid;
        modifier_version_id = mv;
        quantity = qty;
        pos_modifier_id = pid;
      }
      ∷ slims

  unfoldable pub insert_slim : (tid sli : ℕ) → String → ℤ → List Modifier → Sales → Sales
  insert_slim tid sli pid qty modifiers s =
      elim (find_first (is_confirmed_additive tid pid) modifiers) [
        | none ↦ s
        | some m ↦ record s {
          next_id = s.next_id + 1;
          slims = slim_of s.next_id tid sli m.id m.current_version_id pid qty s.slims;
        }
      ]

  -- for pos_mid, qty in counts.items()
  unfoldable pub insert_slims : (tid sli : ℕ) → List (String × ℤ) → List Modifier → Sales → Sales
  insert_slims tid sli [] modifiers s = s
  insert_slims tid sli ((pid, qty) ∷ counts) modifiers s =
      insert_slims tid sli counts modifiers (insert_slim tid sli pid qty modifiers s)

  unfoldable pub snapshot_modifiers : (tid sli : ℕ) → LineItem → List Modifier → Sales → Sales
  snapshot_modifiers tid sli li modifiers s =
      insert_slims tid sli (count_modifiers li.modifications []) modifiers s

  -- Only a new line has its modifiers frozen.
  abbrev snapshot_new : (tid : ℕ) → Option ℕ → LineItem → List Modifier → Sales → Sales
  snapshot_new tid none li modifiers s = s
  snapshot_new tid (some sli) li modifiers s = snapshot_modifiers tid sli li modifiers s

  -- A line without an id is skipped.
  unfoldable pub ingest_with : (tid order_id : ℕ) → Option String → LineItem → Menu → Sales → Sales
  ingest_with tid order_id none li menu s = s
  ingest_with tid order_id (some li_id) li menu s =
      if str_eq li_id ""
      then s
      else (let (s', new_id) = insert_line_item tid order_id li_id li menu.items s in
          snapshot_new tid new_id li menu.modifiers s')

  -- One turn of the loop.
  abbrev pub ingest_line : (tid order_id : ℕ) → LineItem → Menu → Sales → Sales
  ingest_line tid order_id li menu s = ingest_with tid order_id li.line_item_id li menu s

  unfoldable pub ingest_lines : (tid order_id : ℕ) → List LineItem → Menu → Sales → Sales
  ingest_lines tid order_id [] menu s = s
  ingest_lines tid order_id (li ∷ lis) menu s =
      ingest_lines tid order_id lis menu (ingest_line tid order_id li menu s)
