-- ===== src/Inventory/Idempotency.antt =====
-- backend/app/modules/inventory/idempotency.py: the keys of requests. A fingerprint is a parameter
-- (SHA-256 of the canonical request), compared only for equality.
pub mod Requests
use reorder_os.Prelude.{
  ℕ, String, Bool, ◌&&◌, Option, none, some, List, [], ◌∷◌, find_first, update_where, any, str_eq,
  ◌==◌, if◌then◌else◌,
}
use reorder_os.Prelude.Result.{Result, ok, err}

-- A row of idempotency_keys; the response's body is its text.
pub record KeyRow : Type 0 where
  pub tenant_id : ℕ
  pub key : String
  pub request_fingerprint : String
  pub response_status : Option ℕ
  pub response_body : Option String

pub data IdempotencyState : Type 0 where
  proceed : IdempotencyState
  cached : ℕ → Option String → IdempotencyState

-- The two HTTP 409.
pub data Conflict : Type 0 where
  key_conflict request_in_flight : Conflict

abbrev pub is_row : ℕ → String → KeyRow → Bool
is_row tid key r = r.tenant_id == tid && str_eq r.key key

unfoldable pub answer : String → KeyRow → Result Conflict IdempotencyState
answer fingerprint r =
    if str_eq r.request_fingerprint fingerprint
    then elim r.response_status [
      | none ↦ err request_in_flight
      | some status ↦ ok (cached status r.response_body)
    ]
    else err key_conflict

-- The INSERT inside the savepoint fails on the unique (tenant_id, key); the row is then read. (That
-- another process deletes it between the two statements is not modelled.)
unfoldable pub check_and_lock :
    (tid : ℕ) (key fingerprint : String)
    → List KeyRow
    → List KeyRow × Result Conflict IdempotencyState
check_and_lock tid key fingerprint rows = elim (find_first (is_row tid key) rows) [
  | none ↦ (
    record {
      tenant_id = tid;
      key = key;
      request_fingerprint = fingerprint;
      response_status = none;
      response_body = none;
    }
        ∷ rows,
    ok proceed,
  )
  | some r ↦ (rows, answer fingerprint r)
]

unfoldable pub store_response :
    (tid : ℕ) (key : String) (status : ℕ) (body : String) → List KeyRow → List KeyRow
store_response tid key status body =
    update_where (is_row tid key)
      (λ r. record r { response_status = some status; response_body = some body })
