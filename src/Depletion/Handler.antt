-- ===== src/Depletion/Handler.antt =====
-- backend/app/modules/inventory/depletion/handler.py: one sale line to a terminal status, and the
-- reversal of a line. All writes are in the caller's transaction.
pub mod Writes
pub mod Once
pub mod Replay
pub mod Reverse
use reorder_os.Prelude.{
  ℕ, ◌+◌, ◌-◌, ◌/◌, ◌%◌, Bool, true, false, ◌&&◌, Option, none, some, List, [], ◌∷◌, ◌++◌, any,
  select, find_first, update_where, ltb, leb, ◌==◌, if◌then◌else◌,
}
use reorder_os.Prelude.Result.{Result, ok, err}
use reorder_os.Prelude.Decimal.{Decimals}
use reorder_os.Monitoring.{Alert, upsert_alert, warn, late_signal}
use reorder_os.Schema.{
  MovementType, sale_depletion, sale_signal, Key, word, uuid, part_eq, Movement, Ledger,
  LineModifier, SaleLine, CountEvent, PaymentState, OrderState, DepletionStatus, pending, depleted,
  failed, unmapped, skipped, Reason,
}
use reorder_os.Depletion.Conversions.{ConvertError}
use reorder_os.Depletion.Resolver.{resolve_eligibility}
use reorder_os.Depletion.Writer.{write_movement, record_sale_reversal, ReversalError}
use reorder_os.Depletion.Walker.{Catalog, PlannedMovement, WalkOutcome, walk_base, walk_modifiers}

-- The columns of orders that the handler reads.
pub record OrderRow : Type 0 where
  pub id : ℕ
  pub payment_state : PaymentState
  pub state : OrderState

pub record Db : Type 0 where
  pub ledger : Ledger
  pub catalog : Catalog
  pub orders : List OrderRow
  pub lines : List SaleLine
  pub slims : List LineModifier
  pub counts : List CountEvent
  pub alerts : List Alert

-- Python's round(seconds) of a span in microseconds: to the nearest, ties to even.
abbrev round_seconds : ℕ → ℕ
round_seconds us =
    let q = us / 1000000 in
    let r = us % 1000000 in if ltb r 500000 then q else if ltb 500000 r then q + 1 else q + q % 2

abbrev crosses : ℕ → ℕ → ℕ → Bool
crosses rec_at now t = ltb rec_at t && leb t now

-- The WHERE clause of the boundary query.
unfoldable pub is_boundary : (tid item rec_at now : ℕ) → CountEvent → Bool
is_boundary tid item rec_at now c =
    c.tenant_id == tid && (c.inventory_item_id == item) && elim c.reconciliation_cutoff_created_at [
      | some cutoff ↦ crosses rec_at now cutoff
      | none ↦ crosses rec_at now c.counted_at
    ]

unfoldable pub maybe_late_signal_alert : (tid item movement_id recorded_at : ℕ) → Db → Db
maybe_late_signal_alert tid item movement_id recorded_at db =
    let now = db.ledger.now in
    if leb now (recorded_at + 1800000000)
    then db
    else if any (is_boundary tid item recorded_at now) db.counts
    then record db {
      alerts =
          upsert_alert false now tid "late_signal_reconciliation" warn
            (late_signal item movement_id recorded_at now (round_seconds (now - recorded_at)))
            db.alerts;
    }
    else db

-- WHERE id = :sli AND tenant_id = :tid
unfoldable pub is_line : (tid sli : ℕ) → SaleLine → Bool
is_line tid sli s = s.id == sli && (s.tenant_id == tid)

unfoldable pub set_status : (tid sli : ℕ) → DepletionStatus → Option Reason → Db → Db
set_status tid sli s r db = record db {
  lines =
      update_where (is_line tid sli)
        (λ l. record l { depletion_status = some s; depletion_reason = r }) db.lines;
}

-- `dep_status in ("depleted", "failed", "unmapped", "skipped")`
abbrev pub terminal : Option DepletionStatus → Option DepletionStatus
terminal none = none
terminal (some pending) = none
terminal (some depleted) = some depleted
terminal (some failed) = some failed
terminal (some unmapped) = some unmapped
terminal (some skipped) = some skipped

abbrev pub is_depleted : DepletionStatus → Bool
is_depleted depleted = true
is_depleted pending = false
is_depleted failed = false
is_depleted unmapped = false
is_depleted skipped = false

pub data ProcessError : Type 0 where
  line_not_found : ProcessError
  walk_raised : ConvertError → ProcessError

abbrev pub Outcome : Type 0
Outcome = DepletionStatus × Option Reason

-- The alert is considered only for a new row, and only where recorded_at is given.
abbrev pub alert_if_new : (tid item : ℕ) → Option ℕ → Option ℕ → Db → Db
alert_if_new tid item (some movement_id) (some recorded_at) db =
    maybe_late_signal_alert tid item movement_id recorded_at db
alert_if_new tid item (some movement_id) none db = db
alert_if_new tid item none recorded_at db = db

unfoldable pub write_one : (tid : ℕ) → Option ℕ → PlannedMovement → Db → Db
write_one tid recorded_at mv db =
    let (ledger, new_id) =
      write_movement tid mv.idempotency_key mv.legacy_key mv.inventory_item_id mv.movement_type
        mv.delta mv.yield_factor_applied mv.source_type mv.source_id recorded_at db.ledger in
    alert_if_new tid mv.inventory_item_id new_id recorded_at (record db { ledger = ledger })

-- for mv in (*base.movements, *mods.movements)
unfoldable pub write_all : (tid : ℕ) → Option ℕ → List PlannedMovement → Db → Db
write_all tid recorded_at [] db = db
write_all tid recorded_at (mv ∷ mvs) db =
    write_all tid recorded_at mvs (write_one tid recorded_at mv db)

-- FROM sale_line_items s JOIN orders o ON o.id = s.order_id
unfoldable pub read_line : (tid sli : ℕ) → Db → Option (SaleLine × OrderRow)
read_line tid sli db = elim (find_first (is_line tid sli) db.lines) [
  | none ↦ none
  | some s ↦ elim (find_first (λ o. o.id == s.order_id) db.orders) [
    | none ↦ none
    | some o ↦ some (s, o)
  ]
]

-- After both walks: a verdict of the modifiers, or every movement and status 'depleted'.
unfoldable pub finish_line :
    (tid sli : ℕ) → Option ℕ → (base mods : WalkOutcome) → Db → Db × Outcome
finish_line tid sli recorded_at base mods db =
    if is_depleted mods.status
    then (
      set_status tid sli depleted none
          (write_all tid recorded_at (base.movements ++ mods.movements) db),
      (depleted, none),
    )
    else (set_status tid sli mods.status mods.reason db, (mods.status, mods.reason))

module _ ⦃dec : Decimals⦄ where
  -- The two walks of an eligible line, and what follows.
  unfoldable pub deplete_line :
      (tid sli : ℕ) → SaleLine → Option ℕ → Db → Result ProcessError (Db × Outcome)
  deplete_line tid sli s recorded_at db =
      elim (walk_base db.catalog tid sli s.recipe_version_id s.quantity) [
        | err e ↦ err (walk_raised e)
        | ok base ↦
            if is_depleted base.status
            then elim (walk_modifiers db.catalog db.slims tid sli s.quantity) [
              | err e ↦ err (walk_raised e)
              | ok mods ↦ ok (finish_line tid sli recorded_at base mods db)
            ]
            else ok (set_status tid sli base.status base.reason db, (base.status, base.reason))
      ]

  -- A line that is neither missing nor terminal.
  unfoldable pub process_pending :
      (tid sli : ℕ)
      → SaleLine
      → OrderRow
      → Option ℕ
      → Bool
      → Db
      → Result ProcessError (Db × Outcome)
  process_pending tid sli s o recorded_at partial db =
      let verdict = resolve_eligibility o.payment_state o.state s.is_voided s.is_refunded partial in
      if verdict.eligible
      then deplete_line tid sli s recorded_at db
      else ok (set_status tid sli failed verdict.reason db, (failed, verdict.reason))

  unfoldable pub process_line :
      (tid sli : ℕ)
      → (recorded_at : Option ℕ) → (partial_refunds_enabled : Bool) → Db
      → Result ProcessError (Db × Outcome)
  process_line tid sli recorded_at partial db = elim (read_line tid sli db) [
    | none ↦ err line_not_found
    | some (s, o) ↦ elim (terminal s.depletion_status) [
      | some done ↦ ok (db, (done, s.depletion_reason))
      | none ↦ process_pending tid sli s o recorded_at partial db
    ]
  ]

-- idempotency_key LIKE 'sale_line:' || :sli || ':%'. (The underscore of the pattern matches any
-- character; no key of the program differs from it there.)
abbrev sale_line_prefix : ℕ → Key → Bool
sale_line_prefix sli (word w ∷ uuid i ∷ p ∷ k) =
    part_eq (word w) (word "sale_line") && part_eq (uuid i) (uuid sli)
sale_line_prefix sli _ = false

abbrev pub is_forward_type : MovementType → Bool
is_forward_type sale_depletion = true
is_forward_type sale_signal = true
is_forward_type _ = false

-- The WHERE clause of reverse_line.
unfoldable pub is_forward : (tid sli : ℕ) → Movement → Bool
is_forward tid sli m =
    m.tenant_id == tid && is_forward_type m.movement_type && sale_line_prefix sli m.idempotency_key

abbrev pub added : Option ℕ → ℕ
added none = 0
added (some id) = 1

module _ ⦃dec : Decimals⦄ where
  -- The loop over the forward movements; the count is that of the new rows.
  unfoldable pub reverse_all :
      (tid : ℕ) → List Movement → Ledger → Result ReversalError (Ledger × ℕ)
  reverse_all tid [] l = ok (l, 0)
  reverse_all tid (m ∷ ms) l = elim (record_sale_reversal tid m.id m.inventory_item_id l) [
    | err e ↦ err e
    | ok (l', new_id) ↦ elim (reverse_all tid ms l') [
      | err e ↦ err e
      | ok (l'', n) ↦ ok (l'', added new_id + n)
    ]
  ]

  unfoldable pub reverse_line : (tid sli : ℕ) → Ledger → Result ReversalError (Ledger × ℕ)
  reverse_line tid sli l = reverse_all tid (select (is_forward tid sli) l.movements) l
