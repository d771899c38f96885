-- ===== src/Pos/Webhook.antt =====
-- handle_clover_webhook of backend/app/modules/pos/webhook.py: the answer to a delivery, and the
-- rows that it puts into pos_event_inbox. A number of the JSON is a natural; compare_digest is
-- equality, as it is of ASCII texts. The row's connection and raw payload are left out.
pub mod Replay
mod Tests
use text.Mathlib.Text.{find?}
use Prim.Native.String.{len, slice}
use reorder_os.Prelude.{
  ℕ, zero, suc, ◌+◌, String, Bool, true, false, ◌&&◌, ◌||◌, Option, none, some, List, ◌∷◌, any, not,
  is_some, find_first, str_eq, ltb, ◌==◌, if◌then◌else◌,
}
use reorder_os.Prelude.Result.{Result, ok, err, ◌>>=◌}
use reorder_os.Pos.Inbox.{EventType, create, update, delete, pending, Event}

-- What json.loads returns.
mutual
  pub data Json : Type 0 where
    null : Json
    flag : Bool → Json
    number : ℕ → Json
    str : String → Json
    array : Items → Json
    dict : Fields → Json

  pub data Items : Type 0 where
    no_items : Items
    item : Json → Items → Items

  pub data Fields : Type 0 where
    no_fields : Fields
    field : String → Json → Fields → Fields

-- A row of tenant_pos_connections. `is_open` is state IN ('active', 'error').
pub record PosConnection : Type 0 where
  pub tenant_id : ℕ
  pub merchant_id : String
  pub is_open : Bool

-- pos_event_inbox, and the generator of ids.
pub record Inbox : Type 0 where
  pub events : List Event
  pub next_id : ℕ

pub data WebhookError : Type 0 where
  -- Python's TypeError and AttributeError and the database's range error, which nothing catches
  raised : WebhookError

-- The echo of a code, 200, and 401.
pub data Answer : Type 0 where
  echo : Json → Answer
  accepted unauthorized : Answer

pub record Settings : Type 0 where
  pub auth_code : Option String
  pub connections : List PosConnection

-- dict.get
unfoldable pub get : String → Fields → Json
get key no_fields = null
get key (field k v fs) = if str_eq k key then v else get key fs

unfoldable pub has_key : String → Fields → Bool
has_key key no_fields = false
has_key key (field k v fs) = str_eq k key || has_key key fs

abbrev is_text : String → Json → Bool
is_text s (str t) = str_eq t s
is_text s _ = false

-- `s in items`
unfoldable pub has_text : String → Items → Bool
has_text s no_items = false
has_text s (item j is) = is_text s j || has_text s is

-- `":" not in object_id` and split(":", 1), of a text
unfoldable pub split_id : String → Option (String × String)
split_id s = elim (find? s ":") [
  | none ↦ none
  | some i ↦ some (slice s 0 i, slice s (i + 1) (len s))
]

-- The two parts of the object's id; none where the event is passed over.
unfoldable pub object_of : Json → Result WebhookError (Option (String × String))
object_of null = ok none
object_of (flag true) = err raised
object_of (flag false) = ok none
object_of (number zero) = ok none
object_of (number (suc n)) = err raised
object_of (str s) = ok (split_id s)
object_of (array is) = if has_text ":" is then err raised else ok none
object_of (dict fs) = if has_key ":" fs then err raised else ok none

abbrev type_named : String → EventType
type_named s = if str_eq s "CREATE" then create else if str_eq s "DELETE" then delete else update

unfoldable pub type_of : Json → EventType
type_of (str s) = type_named s
type_of _ = update

-- int(event.get("ts") or 0), and 0 where it raises. `int_of` is int of a text.
unfoldable pub ts_of : (int_of : String → Option ℕ) → Json → ℕ
ts_of int_of (flag true) = 1
ts_of int_of (number n) = n
ts_of int_of (str s) = if str_eq s "" then 0 else elim (int_of s) [ none ↦ 0 | some n ↦ n ]
ts_of int_of _ = 0

abbrev pub type_eq : EventType → EventType → Bool
type_eq create create = true
type_eq update update = true
type_eq delete delete = true
type_eq _ _ = false

-- pos_inbox_dedup_unique
abbrev pub is_duplicate : (tid : ℕ) → String → EventType → (ts : ℕ) → Event → Bool
is_duplicate tid id kind ts e =
    e.tenant_id == tid
    && (str_eq e.vendor_event_id id && (type_eq e.event_type kind && (e.vendor_ts == ts)))

-- INSERT ... ON CONFLICT DO NOTHING
unfoldable pub insert_event : (now tid : ℕ) → String → EventType → (ts : ℕ) → Inbox → Inbox
insert_event now tid id kind ts s = record {
  next_id = suc s.next_id;
  events =
      if any (is_duplicate tid id kind ts) s.events
      then s.events
      else record {
        inbox_id = s.next_id;
        tenant_id = tid;
        vendor_event_id = id;
        is_order = true;
        event_type = kind;
        vendor_ts = ts;
        state = pending;
        received_at = now;
        next_attempt_at = none;
        processing_started_at = none;
        claim_expires_at = none;
        processed_at = none;
        retry_count = 0;
        last_error = "";
        fetched_payload = none;
      }
        ∷ s.events;
}

abbrev pub is_merchant : String → PosConnection → Bool
is_merchant merchant c = str_eq c.merchant_id merchant && c.is_open

-- `not expected_auth or not received_auth`, and compare_digest
abbrev pub is_authorized : (received : String) → Option String → Bool
is_authorized received none = false
is_authorized received (some expected) =
    not (str_eq expected "") && (not (str_eq received "") && str_eq received expected)

abbrev pub answer_with : Answer → Result WebhookError Inbox → Result WebhookError (Inbox × Answer)
answer_with a (ok s) = ok (s, a)
answer_with a (err e) = err e

-- The greatest bigint
abbrev pub max_bigint : ℕ
max_bigint = 9223372036854775807

-- `Response(content=code)`, which encodes a text, or nothing for a null, and raises on the rest
abbrev pub encodes : Json → Bool
encodes null = true
encodes (str t) = true
encodes _ = false

-- The INSERT, whose vendor_ts is a bigint.
unfoldable pub store_row :
    (tid : ℕ) → String → EventType → (ts now : ℕ) → Inbox → Result WebhookError Inbox
store_row tid id kind ts now s =
    if ltb max_bigint ts then err raised else ok (insert_event now tid id kind ts s)

module _ (int_of : String → Option ℕ) where
  -- `obj_type != "O"` is passed over.
  unfoldable pub store_object :
      (tid : ℕ) → Fields → Option (String × String) → (now : ℕ) → Inbox → Result WebhookError Inbox
  store_object tid fs none now s = ok s
  store_object tid fs (some (kind, id)) now s =
      if str_eq kind "O"
      then store_row tid id (type_of (get "type" fs)) (ts_of int_of (get "ts" fs)) now s
      else ok s

  unfoldable pub store_fields : (tid : ℕ) → Fields → (now : ℕ) → Inbox → Result WebhookError Inbox
  store_fields tid fs now s = object_of (get "objectId" fs) >>= λ o. store_object tid fs o now s

  -- One event of the list.
  abbrev pub store_event : (tid : ℕ) → Json → (now : ℕ) → Inbox → Result WebhookError Inbox
  store_event tid (dict fs) now s = store_fields tid fs now s
  store_event tid _ now s = ok s

  unfoldable pub store_events : (tid : ℕ) → Items → (now : ℕ) → Inbox → Result WebhookError Inbox
  store_events tid no_items now s = ok s
  store_events tid (item e es) now s = store_event tid e now s >>= λ s'. store_events tid es now s'

  -- lookup_tenant_by_merchant, and the events of one merchant
  unfoldable pub store_merchant :
      List PosConnection → String → Json → (now : ℕ) → Inbox → Result WebhookError Inbox
  store_merchant connections merchant (array es) now s =
      elim (find_first (is_merchant merchant) connections) [
        | none ↦ ok s
        | some c ↦ store_events c.tenant_id es now s
      ]
  store_merchant connections merchant _ now s = ok s

  unfoldable pub store_merchants :
      List PosConnection → Fields → (now : ℕ) → Inbox → Result WebhookError Inbox
  store_merchants connections no_fields now s = ok s
  store_merchants connections (field merchant events fs) now s =
      store_merchant connections merchant events now s >>= λ s'.
      store_merchants connections fs now s'

  -- `payload.get("merchants", {})`
  abbrev pub store_payload :
      List PosConnection → Json → (now : ℕ) → Inbox → Result WebhookError Inbox
  store_payload connections (dict merchants) now s = store_merchants connections merchants now s
  store_payload connections _ now s = ok s

  unfoldable pub accept :
      Settings → Bool → Json → (now : ℕ) → Inbox → Result WebhookError (Inbox × Answer)
  accept c false payload now s = ok (s, unauthorized)
  accept c true (dict fs) now s =
      answer_with accepted (store_payload c.connections (get "merchants" fs) now s)
  accept c true _ now s = err raised

  unfoldable pub handle_clover_webhook :
      Settings
      → (received : String) → Json
      → (now : ℕ) → Inbox
      → Result WebhookError (Inbox × Answer)
  handle_clover_webhook c received (dict fs) now s =
      if has_key "verificationCode" fs
      then (if encodes (get "verificationCode" fs)
          then ok (s, echo (get "verificationCode" fs))
          else err raised)
      else accept c (is_authorized received c.auth_code) (dict fs) now s
  handle_clover_webhook c received (array is) now s =
      if has_text "verificationCode" is
      then err raised
      else accept c (is_authorized received c.auth_code) (array is) now s
  handle_clover_webhook c received (str t) now s =
      if is_some (find? t "verificationCode")
      then err raised
      else accept c (is_authorized received c.auth_code) (str t) now s
  handle_clover_webhook c received _ now s = err raised
