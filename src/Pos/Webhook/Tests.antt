-- ===== src/Pos/Webhook/Tests.antt =====
-- A delivery with an order, an item and an event of an unknown merchant.
use reorder_os.Prelude.{ℕ, ◌≡◌, refl, String, true, Option, none, some, [], ◌∷◌, length}
use reorder_os.Prelude.Result.{ok, err, AllOk}
use reorder_os.Pos.Webhook.{
  Json, str, number, array, dict, Items, no_items, item, no_fields, field, Inbox, raised, accepted,
  Settings, get, has_key, split_id, object_of, type_of, ts_of, insert_event, store_row,
  store_object, store_fields, store_events, store_merchant, store_merchants, accept,
  handle_clover_webhook,
}
use reorder_os.Pos.Webhook.Replay.{handle_clover_webhook_again}

-- int of a text; no delivery here has one.
abbrev int_of : String → Option ℕ
int_of s = none

abbrev event : Json → Json
event object =
    dict (field "objectId" object (field "type" (str "CREATE") (field "ts" (number 5) no_fields)))

abbrev delivery : Items → Json
delivery es =
    dict
      (field "merchants" (dict (field "M1" (array es) (field "M2" (array es) no_fields))) no_fields)

abbrev settings : Settings
settings = record {
  auth_code = some "secret";
  connections = record { tenant_id = 1; merchant_id = "M1"; is_open = true } ∷ [];
}

abbrev inbox : Inbox
inbox = record { events = []; next_id = 9 }

abbrev good : Json
good = delivery (item (event (str "O:A1")) (item (event (str "I:B2")) no_items))

abbrev bad : Json
bad = delivery (item (event (str "O:A1")) (item (event (number 7)) no_items))

handle_clover_webhook_again_example :
    AllOk
      (λ r.
        (later : ℕ)
        → (t : Inbox) × ((handle_clover_webhook int_of settings "secret" good later r.0
              ≡ ok (t, r.1))
            × (t.events ≡ r.0.events)))
      (handle_clover_webhook int_of settings "secret" good 100 inbox)
handle_clover_webhook_again_example =
    handle_clover_webhook_again int_of settings "secret" good 100 inbox

-- The one order is stored. An id that is a number fails the request with the good event in it.
good-run :
    AllOk
      (λ r. (length r.0.events ≡ 1) × (r.1 ≡ accepted))
      (handle_clover_webhook int_of settings "secret" good 100 inbox)
unfolding handle_clover_webhook accept store_merchants store_merchant store_events store_fields
    store_object store_row insert_event object_of split_id type_of ts_of get has_key
good-run = (refl, refl)

bad-run : handle_clover_webhook int_of settings "secret" bad 100 inbox ≡ err raised
unfolding handle_clover_webhook accept store_merchants store_merchant store_events store_fields
    store_object store_row insert_event object_of split_id type_of ts_of get has_key
bad-run = refl
