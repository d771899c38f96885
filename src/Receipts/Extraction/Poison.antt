-- ===== src/Receipts/Extraction/Poison.antt =====
-- A payload that receipts/extraction_worker.py cannot store.
use reorder_os.Prelude.{
  ℕ, suc, ◌≡◌, refl, inl, inr, Bool, true, false, not, Option, none, some, List, [], ◌∷◌, any,
  arith, str_eq, Bool-cases,
}
use reorder_os.Receipts.Jobs.{Job, Payload, RawLine, holds_lease, fenced, checkpoint}
use reorder_os.Receipts.Desk.{Desk}
use reorder_os.Receipts.Extraction.Payloads.{
  Coercions, to_decimal, json, is_positive, extracted_line, insert_extracted, lines_of,
  apply_payload,
}
use reorder_os.Receipts.Extraction.{
  Env, Office, extracted, is_reviewed, finish_job, checkpoint_job, use_answer,
}

-- No object, or a quantity that is missing, no number, zero or less.
abbrev pub is_bad : Coercions → Option RawLine → Bool
is_bad c none = true
is_bad c (some raw) = not (is_positive (to_decimal (c.decimal (c.str (json raw.qty)))))

insert_extracted-bad :
    (c : Coercions) (ordinal : ℕ) (j : Job) (raws : List (Option RawLine)) (d : Desk)
    → any (is_bad c) raws ≡ true
    → insert_extracted c ordinal j raws d ≡ none
unfolding insert_extracted extracted_line
insert_extracted-bad c ordinal j [] d h = absurd (ground arith)
insert_extracted-bad c ordinal j (none ∷ raws) d h = refl
insert_extracted-bad c ordinal j (some raw ∷ raws) d h =
    elim (Bool-cases (is_positive (to_decimal (c.decimal (c.str (json raw.qty)))))) [
      | inr n ↦ rw n refl
      | inl y ↦
          let h' : any (is_bad c) raws ≡ true = (rw y at h) in
          rw (y, insert_extracted-bad c (suc ordinal) j raws _ h') refl
    ]

-- Where the answer of the model is an invoice with a line that is no object or whose quantity is no
-- positive number, the whole transaction is rolled back, although the lease is held: neither an
-- attempt nor the quota nor the answer is recorded.
pub use_answer_bad :
    (env : Env) (token : ℕ) (j : Job) (payload : Payload) (before o : Office)
    → is_reviewed j.tenant_id j.receipt_id o.desk ≡ false
    → any (holds_lease j.id token) o.desk.jobs ≡ true
    → str_eq (env.coercions.str (json payload.document_type)) "not_invoice" ≡ false
    → any (is_bad env.coercions) (lines_of payload) ≡ true
    → use_answer env token j (extracted payload) before o ≡ before
unfolding use_answer checkpoint_job checkpoint fenced finish_job apply_payload
use_answer_bad env token j payload before o unread held invoice bad =
    rw (held, unread, invoice, insert_extracted-bad env.coercions 0 j (lines_of payload) _ bad) refl
