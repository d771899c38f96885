-- ===== src/Receipts/Extraction/Payloads.antt =====
-- _apply and the coercions of backend/app/modules/receipts/extraction_worker.py: the lines and
-- the header of a receipt from the payload of the language model.
use reorder_os.Prelude.{
  ℕ, suc, zero, String, Bool, true, false, Option, none, some, List, [], ◌∷◌, ltb, str_eq,
  if◌then◌else◌,
}
use reorder_os.Prelude.Int.{ℤ, pos, negsuc}
use reorder_os.Depletion.Units.{is_canonical}
use reorder_os.Receipts.{Invoice, ReceiptLine, ExtractionStatus, unmatched}
use reorder_os.Receipts.Jobs.{Job, JobStatus, Payload, RawLine, Value, terminal}
use reorder_os.Receipts.Desk.{Desk, now_of, fresh_id, with_store, take_id, update_receipt}

-- What Decimal() makes of a text.
pub data Number : Type 0 where
  finite : ℤ → Number
  not_finite no_number : Number

-- What float() makes of a value. A finite one is a count of the least positive float, of which
-- every finite float is a multiple.
pub data Float : Type 0 where
  finite_float : ℤ → Float
  infinity minus_infinity nan no_float : Float

-- Python's str, Decimal, float, int and str.strip, on the JSON text of a value; 1.0 and 0.4 as
-- counts of the least float.
pub record Coercions : Type 0 where
  pub str : String → String
  pub decimal : String → Number
  pub float : String → Float
  pub int : String → Option ℤ
  pub strip : String → String
  pub one : ℕ
  pub low_confidence : ℕ

-- raw_line.get(key)
abbrev pub json : Value → String
json none = "null"
json (some v) = v

-- str(raw_line.get(key, ""))
abbrev text_or_empty : Coercions → Value → String
text_or_empty c none = ""
text_or_empty c (some v) = c.str v

-- `s or None`
abbrev non_empty : String → Option String
non_empty u = if str_eq u "" then none else some u

-- _to_decimal
unfoldable pub to_decimal : Number → ℤ
to_decimal (finite d) = d
to_decimal _ = pos 0

-- max(0.0, min(1.0, f)): a NaN is smaller than nothing, so min keeps 1.0.
abbrev clamp : (one : ℕ) → ℤ → ℕ
clamp one (pos n) = if ltb n one then n else one
clamp one (negsuc n) = zero

-- _to_float
unfoldable pub to_float : (one : ℕ) → Float → ℕ
to_float one (finite_float f) = clamp one f
to_float one infinity = one
to_float one minus_infinity = zero
to_float one nan = one
to_float one no_float = zero

abbrev pub confidence_of : Coercions → RawLine → ℕ
confidence_of c raw = to_float c.one (c.float (json raw.confidence))

-- CHECK (received_quantity > 0)
abbrev pub is_positive : ℤ → Bool
is_positive (pos n) = ltb 0 n
is_positive (negsuc n) = false

-- The row of the INSERT. Its confidence is before the column's rounding to three places.
unfoldable pub extracted_line : Coercions → (id ordinal : ℕ) → Job → RawLine → ReceiptLine
extracted_line c id ordinal j raw =
    let unit = text_or_empty c raw.unit in
    record {
      id = id;
      tenant_id = j.tenant_id;
      receipt_id = j.receipt_id;
      inventory_item_id = none;
      received_quantity = to_decimal (c.decimal (c.str (json raw.qty)));
      purchase_unit_id = none;
      unit_cost_cents = c.int (json raw.unit_price_cents);
      idempotency_key = none;
      match_status = unmatched;
      manually_corrected = false;
      extracted_name = non_empty (c.strip (text_or_empty c raw.name));
      extracted_unit = if is_canonical unit then some unit else non_empty unit;
      confidence = some (confidence_of c raw);
      extraction_job_id = some j.id;
      job_attempt = some j.job_attempt;
      line_ordinal = some ordinal;
      emits_movement_id = none;
    }

abbrev pub add_extracted : ReceiptLine → Desk → Desk
add_extracted ln d = with_store (λ s. record s { lines = ln ∷ s.lines }) (take_id d)

-- The INSERTs in order, with the confidences; none where one raises: a line that is no object has
-- no `get`, and a quantity must be positive.
unfoldable pub insert_extracted :
    Coercions → (ordinal : ℕ) → Job → List (Option RawLine) → Desk → Option (Desk × List ℕ)
insert_extracted c ordinal j [] d = some (d, [])
insert_extracted c ordinal j (none ∷ raws) d = none
insert_extracted c ordinal j (some raw ∷ raws) d =
    let ln = extracted_line c (fresh_id d) ordinal j raw in
    let rest = insert_extracted c (suc ordinal) j raws (add_extracted ln d) in
    if is_positive ln.received_quantity
    then elim rest [
      | none ↦ none
      | some (d', confidences) ↦ some (d', confidence_of c raw ∷ confidences)
    ]
    else none

-- min(confidences) if confidences else None
unfoldable pub least : List ℕ → Option ℕ
least [] = none
least (x ∷ xs) = elim (least xs) [ none ↦ some x | some y ↦ if ltb y x then some y else some x ]

-- agg is None or agg < _LOW_CONFIDENCE
unfoldable pub is_manual : (low : ℕ) → Option ℕ → Bool
is_manual low none = true
is_manual low (some agg) = ltb agg low

abbrev or_old {ℓ} : {A : Type ℓ} → Option A → Option A → Option A
or_old (some a) old = some a
or_old none old = old

-- COALESCE(:new, column) for each column
unfoldable pub merge_invoice : (new old : Invoice) → Invoice
merge_invoice new old = record {
  supplier_name = or_old new.supplier_name old.supplier_name;
  invoice_number = or_old new.invoice_number old.invoice_number;
  invoice_date = or_old new.invoice_date old.invoice_date;
  subtotal_cents = or_old new.subtotal_cents old.subtotal_cents;
  tax_cents = or_old new.tax_cents old.tax_cents;
  total_cents = or_old new.total_cents old.total_cents;
}

-- _terminal(s, jid, token, "complete", None)
abbrev pub complete_job : (token : ℕ) → Job → Desk → Desk × Bool
complete_job token j d =
    let (jobs, held) = terminal (now_of d) j.id token JobStatus.complete none none d.jobs in
    (record d { jobs = jobs }, held)

unfoldable pub suppress : Job → Desk → Desk
suppress j = update_receipt j.tenant_id j.receipt_id (λ r. record r {
  is_suppressed = true;
  extraction_status = ExtractionStatus.complete;
  quota_blocked = false;
})

unfoldable pub complete_receipt : Coercions → Job → Payload → List ℕ → Desk → Desk
complete_receipt c j payload confidences = update_receipt j.tenant_id j.receipt_id (λ r. record r {
  extraction_status = ExtractionStatus.complete;
  extraction_confidence = least confidences;
  manual_entry_required = is_manual c.low_confidence (least confidences);
  quota_blocked = false;
  invoice = merge_invoice payload.invoice r.invoice;
})

-- `raw_lines if isinstance(raw_lines, list) else []`
abbrev pub lines_of : Payload → List (Option RawLine)
lines_of payload = elim payload.lines [ none ↦ [] | some raws ↦ raws ]

-- _apply: the database, and whether the fence held; none where it raises.
unfoldable pub apply_payload : Coercions → (token : ℕ) → Job → Payload → Desk → Option (Desk × Bool)
apply_payload c token j payload d =
    let inserted = insert_extracted c 0 j (lines_of payload) d in
    if str_eq (c.str (json payload.document_type)) "not_invoice"
    then some (complete_job token j (suppress j d))
    else elim inserted [
      | none ↦ none
      | some (d', confidences) ↦
          some (complete_job token j (complete_receipt c j payload confidences d'))
    ]
