-- ===== src/Inventory/Idempotency/Requests.antt =====
-- The life of a key of inventory/idempotency.py.
use reorder_os.Prelude.{
  ℕ, String, ◌≡◌, refl, inl, inr, true, none, some, List, [], ◌∷◌, arith, find_first, str_eq,
  str_eq_iff, if◌then◌else◌, Option-cases,
}
use reorder_os.Prelude.Result.{ok, err}
use reorder_os.Inventory.Idempotency.{
  KeyRow, proceed, cached, key_conflict, request_in_flight, is_row, answer, check_and_lock,
  store_response,
}

find-store :
    (tid : ℕ) (key : String) (status : ℕ) (body : String) (rows : List KeyRow) (r : KeyRow)
    → find_first (is_row tid key) rows ≡ some r
    → find_first (is_row tid key) (store_response tid key status body rows)
      ≡ some (record r { response_status = some status; response_body = some body })
unfolding store_response
find-store tid key status body [] r e = cc
find-store tid key status body (x ∷ rows) r e =
    ground (arith, find-store tid key status body rows r)

abbrev new_row : (tid : ℕ) (key fp : String) → KeyRow
new_row tid key fp = record {
  tenant_id = tid;
  key = key;
  request_fingerprint = fp;
  response_status = none;
  response_body = none;
}

new_row-is_row : (tid : ℕ) (key fp : String) → is_row tid key (new_row tid key fp) ≡ true
new_row-is_row tid key fp = ground (arith, str_eq_iff key key)

module _ (tid : ℕ) (key fp : String) (rows rows' : List KeyRow)
    (locked : check_and_lock tid key fp rows ≡ (rows', ok proceed)) where
  -- A request that may proceed has left a row with its fingerprint and no response.
  locked_row :
      (r : KeyRow) × (find_first (is_row tid key) rows' ≡ some r)
      × (r.request_fingerprint ≡ fp)
      × (r.response_status ≡ none)
  unfolding check_and_lock answer
  locked_row = elim (Option-cases (find_first (is_row tid key) rows)) [
    | inl absent ↦
        let same : (new_row tid key fp ∷ rows) ≡ rows' = ground arith in
        (new_row tid key fp, rw (← same) (rw (new_row-is_row tid key fp) refl), refl, refl)
    | inr (r, found) ↦ absurd (ground arith)
  ]

  -- While the first request of a key runs, a second with the same fingerprint is refused as in
  -- flight and one with another fingerprint as a conflict; neither changes the table.
  pub check_and_lock_in_flight :
      (fp' : String)
      → check_and_lock tid key fp' rows'
        ≡ (rows', if str_eq fp fp' then err request_in_flight else err key_conflict)
  unfolding check_and_lock answer
  check_and_lock_in_flight fp' =
      let row = locked_row in rw (row.1, check_and_lock) (rw (row.2) (rw (row.3) refl))

  -- Once its response is stored, a request with the same fingerprint gets that response, and one
  -- with another fingerprint is refused as a conflict.
  pub check_and_lock_cached :
      (fp' body : String) (status : ℕ)
      → let stored = store_response tid key status body rows' in
        check_and_lock tid key fp' stored
        ≡ (stored, if str_eq fp fp' then ok (cached status (some body)) else err key_conflict)
  unfolding check_and_lock answer
  check_and_lock_cached fp' body status =
      let row = locked_row in
      let stored = find-store tid key status body rows' row.0 row.1 in
      rw (stored, check_and_lock) (rw (row.2) refl)
