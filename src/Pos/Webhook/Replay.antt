-- ===== src/Pos/Webhook/Replay.antt =====
-- The second delivery of a payload (pos/webhook.py).
use text.Mathlib.Text.{find?}
use reorder_os.Prelude.{
  ℕ, String, ◌≡◌, refl, sym, subst, ◌∙◌, inl, inr, Bool, true, false, Option, none, some, List, any,
  find_first, str_eq, ltb, str_eq_iff, ==_refl, is_some, Bool-cases, Option-cases, arith,
}
use reorder_os.Prelude.Result.{Result, ok, ◌>>=◌, AllOk, Result-cases}
use reorder_os.Pos.Inbox.{EventType, create, update, delete}
use reorder_os.Pos.Webhook.{
  Json, null, flag, number, str, get, type_eq, is_merchant, dict, array, Items, no_items, item,
  Fields, no_fields, field, PosConnection, Inbox, WebhookError, Settings, Answer, echo,
  unauthorized, accept, is_authorized, has_text, has_key, handle_clover_webhook, is_duplicate,
  insert_event, store_row, max_bigint, encodes, object_of, store_object, store_fields, store_event,
  store_events, store_merchant, store_merchants, store_payload,
}

-- Every key of s is one of t.
abbrev pub Covers : Inbox → Inbox → Type 0
Covers t s =
    (tid : ℕ) (id : String) (kind : EventType) (ts : ℕ)
    → any (is_duplicate tid id kind ts) s.events ≡ true
    → any (is_duplicate tid id kind ts) t.events ≡ true

-- The step returns, and adds no row.
abbrev pub AddsNothing : Inbox → Result WebhookError Inbox → Type 0
AddsNothing t r = (t' : Inbox) × ((r ≡ ok t') × (t'.events ≡ t.events))

-- Where a step succeeded it adds nothing at any later time, and it removes no key.
abbrev pub Replayable : (ℕ → Inbox → Result WebhookError Inbox) → Type 0
Replayable f =
    (now : ℕ) (s : Inbox)
    → AllOk
        (λ s'. Covers s' s × ((later : ℕ) (t : Inbox) → Covers t s' → AddsNothing t (f later t)))
        (f now s)

idle : Replayable (λ now s. ok s)
idle now s = ((λ tid id kind ts h. h), (λ later t c. (t, (refl, refl))))

-- Of two steps, the second behind the first.
Replayable-then :
    (f g : ℕ → Inbox → Result WebhookError Inbox)
    → Replayable f
    → Replayable g
    → Replayable (λ now s. f now s >>= λ s'. g now s')
Replayable-then f g rf rg now s = elim (Result-cases (f now s)) [
  | inl (e, x) ↦ rw x tt
  | inr (s₁, x) ↦
      let one : Covers s₁ s × ((later : ℕ) (t : Inbox) → Covers t s₁ → AddsNothing t (f later t)) =
        subst (AllOk _) x (rf now s) in
      elim (Result-cases (g now s₁)) [
        | inl (e, y) ↦ rw (x, y) tt
        | inr (s₂, y) ↦
            let two : Covers s₂ s₁
                × ((later : ℕ) (t : Inbox) → Covers t s₂ → AddsNothing t (g later t)) =
              subst (AllOk _) y (rg now s₁) in
            rw (x, y)
              (
                (λ tid id kind ts h. two.0 tid id kind ts (one.0 tid id kind ts h)),
                (λ later t c.
                    let (t₁, (fe, same)) =
                      one.1 later t
                        (λ tid id kind ts h. c tid id kind ts (two.0 tid id kind ts h)) in
                    let covers : Covers t₁ s₂ = (λ tid id kind ts h.
                      subst (λ es. any (is_duplicate tid id kind ts) es ≡ true) (sym same)
                        (c tid id kind ts h)) in
                    let (t₂, (ge, same')) = two.1 later t₁ covers in
                    (t₂, (rw (fe, ge) refl, same' ∙ same))),
              )
      ]
]

type_eq_refl : (kind : EventType) → type_eq kind kind ≡ true
type_eq_refl create = refl
type_eq_refl update = refl
type_eq_refl delete = refl

insert_event-any :
    (now tid : ℕ) (id : String) (kind : EventType) (ts : ℕ) (s : Inbox)
    → any (is_duplicate tid id kind ts) (insert_event now tid id kind ts s).events ≡ true
unfolding insert_event
insert_event-any now tid id kind ts s =
    elim (Bool-cases (any (is_duplicate tid id kind ts) s.events)) [
      | inl y ↦ rw (y, y) refl
      | inr n ↦ rw (n, ==_refl tid, (str_eq_iff id id).1 refl, type_eq_refl kind, ==_refl ts) refl
    ]

insert_event-Covers :
    (now tid : ℕ) (id : String) (kind : EventType) (ts : ℕ) (s : Inbox)
    → Covers (insert_event now tid id kind ts s) s
unfolding insert_event
insert_event-Covers now tid id kind ts s tid' id' kind' ts' h =
    elim (Bool-cases (any (is_duplicate tid id kind ts) s.events)) [
      | inl y ↦ rw (y, h) refl
      | inr n ↦ rw (n, h) (ground arith)
    ]

insert_event_there :
    (now tid : ℕ) (id : String) (kind : EventType) (ts : ℕ) (s : Inbox)
    → any (is_duplicate tid id kind ts) s.events ≡ true
    → (insert_event now tid id kind ts s).events ≡ s.events
unfolding insert_event
insert_event_there now tid id kind ts s h = rw h refl

insert_event-Replayable :
    (tid : ℕ) (id : String) (kind : EventType) (ts : ℕ)
    → Replayable (λ now s. ok (insert_event now tid id kind ts s))
insert_event-Replayable tid id kind ts now s = (
  insert_event-Covers now tid id kind ts s,
  (λ later t c. (
    insert_event later tid id kind ts t,
    (
      refl,
      insert_event_there later tid id kind ts t
          (c tid id kind ts (insert_event-any now tid id kind ts s)),
    ),
  )),
)

store_row-Replayable :
    (tid : ℕ) (id : String) (kind : EventType) (ts : ℕ) → Replayable (store_row tid id kind ts)
unfolding store_row
store_row-Replayable tid id kind ts = elim (Bool-cases (ltb max_bigint ts)) [
  | inl y ↦ rw y (λ now s. tt)
  | inr n ↦ rw n (insert_event-Replayable tid id kind ts)
]

module _ (int_of : String → Option ℕ) where
  store_object-Replayable :
      (tid : ℕ) (fs : Fields) (o : Option (String × String))
      → Replayable (store_object int_of tid fs o)
  unfolding store_object
  store_object-Replayable tid fs none = idle
  store_object-Replayable tid fs (some (kind, id)) = elim (Bool-cases (str_eq kind "O")) [
    | inl y ↦ rw y (store_row-Replayable tid id _ _)
    | inr n ↦ rw n idle
  ]

  store_fields-Replayable : (tid : ℕ) (fs : Fields) → Replayable (store_fields int_of tid fs)
  unfolding store_fields
  store_fields-Replayable tid fs = elim (Result-cases (object_of (get "objectId" fs))) [
    | inl (e, x) ↦ rw x (λ now s. tt)
    | inr (o, x) ↦ rw x (store_object-Replayable tid fs o)
  ]

  store_event-Replayable : (tid : ℕ) (e : Json) → Replayable (store_event int_of tid e)
  store_event-Replayable tid (dict fs) = store_fields-Replayable tid fs
  store_event-Replayable tid null = idle
  store_event-Replayable tid (flag b) = idle
  store_event-Replayable tid (number n) = idle
  store_event-Replayable tid (str t) = idle
  store_event-Replayable tid (array is) = idle

  store_events-Replayable : (tid : ℕ) (es : Items) → Replayable (store_events int_of tid es)
  unfolding store_events
  store_events-Replayable tid no_items = idle
  store_events-Replayable tid (item e es) =
      Replayable-then (store_event int_of tid e) (store_events int_of tid es)
        (store_event-Replayable tid e) (store_events-Replayable tid es)

  store_merchant-Replayable :
      (cs : List PosConnection) (merchant : String) (events : Json)
      → Replayable (store_merchant int_of cs merchant events)
  unfolding store_merchant
  store_merchant-Replayable cs merchant (array es) =
      elim (Option-cases (find_first (is_merchant merchant) cs)) [
        | inl n ↦ rw (store_merchant, n) idle
        | inr (c, y) ↦ rw (store_merchant, y) (store_events-Replayable c.tenant_id es)
      ]
  store_merchant-Replayable cs merchant null = idle
  store_merchant-Replayable cs merchant (flag b) = idle
  store_merchant-Replayable cs merchant (number n) = idle
  store_merchant-Replayable cs merchant (str t) = idle
  store_merchant-Replayable cs merchant (dict fs) = idle

  store_merchants-Replayable :
      (cs : List PosConnection) (fs : Fields) → Replayable (store_merchants int_of cs fs)
  unfolding store_merchants
  store_merchants-Replayable cs no_fields = idle
  store_merchants-Replayable cs (field merchant events fs) =
      Replayable-then (store_merchant int_of cs merchant events) (store_merchants int_of cs fs)
        (store_merchant-Replayable cs merchant events) (store_merchants-Replayable cs fs)

  store_payload-Replayable :
      (cs : List PosConnection) (j : Json) → Replayable (store_payload int_of cs j)
  store_payload-Replayable cs (dict fs) = store_merchants-Replayable cs fs
  store_payload-Replayable cs null = idle
  store_payload-Replayable cs (flag b) = idle
  store_payload-Replayable cs (number n) = idle
  store_payload-Replayable cs (str t) = idle
  store_payload-Replayable cs (array is) = idle

  -- The same answer, and no row more.
  abbrev IsAgain : (ℕ → Inbox → Result WebhookError (Inbox × Answer)) → Inbox × Answer → Type 0
  IsAgain f r = (later : ℕ) → (t : Inbox) × ((f later r.0 ≡ ok (t, r.1)) × (t.events ≡ r.0.events))

  silent-IsAgain : (a : Answer) (s : Inbox) → IsAgain (λ now t. ok (t, a)) (s, a)
  silent-IsAgain a s later = (s, (refl, refl))

  accept-IsAgain :
      (c : Settings) (authorized : Bool) (payload : Json) (now : ℕ) (s : Inbox)
      → AllOk
          (IsAgain (accept int_of c authorized payload))
          (accept int_of c authorized payload now s)
  unfolding accept
  accept-IsAgain c false payload now s = silent-IsAgain unauthorized s
  accept-IsAgain c true null now s = tt
  accept-IsAgain c true (flag b) now s = tt
  accept-IsAgain c true (number n) now s = tt
  accept-IsAgain c true (str t) now s = tt
  accept-IsAgain c true (array is) now s = tt
  accept-IsAgain c true (dict fs) now s =
      let merchants = get "merchants" fs in
      elim (Result-cases (store_payload int_of c.connections merchants now s)) [
        | inl (e, x) ↦ rw x tt
        | inr (s', x) ↦
            let all : Covers s' s
                × ((later : ℕ) (t : Inbox)
                    → Covers t s'
                    → AddsNothing t (store_payload int_of c.connections merchants later t)) =
              subst (AllOk _) x (store_payload-Replayable c.connections merchants now s) in
            rw x (λ later.
              let (t, (run, same)) = all.1 later s' (λ tid id kind ts h. h) in
              (t, (rw run refl, same)))
      ]

  -- A delivery that was answered is answered the same when it is repeated at any later time, and the repetition
  -- adds no row to the inbox.
  pub handle_clover_webhook_again :
      (c : Settings) (received : String) (payload : Json) (now : ℕ) (s : Inbox)
      → AllOk
          (λ r.
            (later : ℕ)
            → (t : Inbox) × ((handle_clover_webhook int_of c received payload later r.0
                  ≡ ok (t, r.1))
                × (t.events ≡ r.0.events)))
          (handle_clover_webhook int_of c received payload now s)
  unfolding handle_clover_webhook
  handle_clover_webhook_again c received null now s = tt
  handle_clover_webhook_again c received (flag b) now s = tt
  handle_clover_webhook_again c received (number n) now s = tt
  handle_clover_webhook_again c received (str t) now s =
      elim (Bool-cases (is_some (find? t "verificationCode"))) [
        | inl y ↦ rw (handle_clover_webhook, y) tt
        | inr n ↦
            rw (handle_clover_webhook, n)
              (accept-IsAgain c (is_authorized received c.auth_code) (str t) now s)
      ]
  handle_clover_webhook_again c received (array is) now s =
      elim (Bool-cases (has_text "verificationCode" is)) [
        | inl y ↦ rw (handle_clover_webhook, y) tt
        | inr n ↦
            rw (handle_clover_webhook, n)
              (accept-IsAgain c (is_authorized received c.auth_code) (array is) now s)
      ]
  handle_clover_webhook_again c received (dict fs) now s =
      elim (Bool-cases (has_key "verificationCode" fs)) [
        | inl y ↦ elim (Bool-cases (encodes (get "verificationCode" fs))) [
          | inl k ↦
              rw (handle_clover_webhook, y, k) (silent-IsAgain (echo (get "verificationCode" fs)) s)
          | inr k ↦ rw (handle_clover_webhook, y, k) tt
        ]
        | inr n ↦
            rw (handle_clover_webhook, n)
              (accept-IsAgain c (is_authorized received c.auth_code) (dict fs) now s)
      ]
