-- ===== src/Depletion/Handler/Writes.antt =====
-- The write phase of process_line of depletion/handler.py.
use reorder_os.Prelude.{
  ℕ, ◌+◌, ◌≡◌, refl, ◌∙◌, Option, none, some, List, [], ◌∷◌, any, leb, Bool-cases, inl, inr,
}
use reorder_os.Monitoring.{Alert}
use reorder_os.Schema.{Ledger}
use reorder_os.Depletion.Walker.{PlannedMovement}
use reorder_os.Depletion.Writer.Rows.{IsValid, Grows, Grows-refl, Grows-trans}
use reorder_os.Depletion.Writer.Replay.{write_movement-IsValid, write_movement-Grows}
use reorder_os.Depletion.Handler.{
  Db, is_boundary, maybe_late_signal_alert, alert_if_new, write_one, write_all,
}

-- From `db` to `db'` only the ledger and the alerts may change.
pub record Writes (tid : ℕ) (db db' : Db) : Type 0 where
  pub grows : Grows tid db.ledger db'.ledger
  pub valid : IsValid db.ledger → IsValid db'.ledger
  pub catalog : db'.catalog ≡ db.catalog
  pub orders : db'.orders ≡ db.orders
  pub lines : db'.lines ≡ db.lines
  pub slims : db'.slims ≡ db.slims
  pub counts : db'.counts ≡ db.counts

pub Writes-refl : (tid : ℕ) (db : Db) → Writes tid db db
Writes-refl tid db = record {
  grows = Grows-refl tid db.ledger;
  valid = λ v. v;
  catalog = refl;
  orders = refl;
  lines = refl;
  slims = refl;
  counts = refl;
}

pub Writes-trans : {tid : ℕ} {a b c : Db} → Writes tid a b → Writes tid b c → Writes tid a c
Writes-trans f g = record {
  grows = Grows-trans f.grows g.grows;
  valid = λ v. g.valid (f.valid v);
  catalog = g.catalog ∙ f.catalog;
  orders = g.orders ∙ f.orders;
  lines = g.lines ∙ f.lines;
  slims = g.slims ∙ f.slims;
  counts = g.counts ∙ f.counts;
}

same_tables-Writes :
    (tid : ℕ) (db : Db) (rows : List Alert) → Writes tid db (record db { alerts = rows })
same_tables-Writes tid db rows = record {
  grows = Grows-refl tid db.ledger;
  valid = λ v. v;
  catalog = refl;
  orders = refl;
  lines = refl;
  slims = refl;
  counts = refl;
}

alert-Writes :
    (tid item mv at : ℕ) (db : Db) → Writes tid db (maybe_late_signal_alert tid item mv at db)
unfolding maybe_late_signal_alert
alert-Writes tid item mv at db = elim (Bool-cases (leb db.ledger.now (at + 1800000000))) [
  | inl recent ↦ rw recent (Writes-refl tid db)
  | inr late ↦ elim (Bool-cases (any (is_boundary tid item at db.ledger.now) db.counts)) [
    | inl crossed ↦ rw (late, crossed) (same_tables-Writes tid db _)
    | inr none_crossed ↦ rw (late, none_crossed) (Writes-refl tid db)
  ]
]

ledger-Writes :
    (tid : ℕ) (db : Db) (l : Ledger)
    → Grows tid db.ledger l
    → (IsValid db.ledger → IsValid l)
    → Writes tid db (record db { ledger = l })
ledger-Writes tid db l g v = record {
  grows = g;
  valid = v;
  catalog = refl;
  orders = refl;
  lines = refl;
  slims = refl;
  counts = refl;
}

alert_if_new-Writes :
    (tid item : ℕ) (new_id at : Option ℕ) (db : Db)
    → Writes tid db (alert_if_new tid item new_id at db)
alert_if_new-Writes tid item (some id) (some at) db = alert-Writes tid item id at db
alert_if_new-Writes tid item (some id) none db = Writes-refl tid db
alert_if_new-Writes tid item none at db = Writes-refl tid db

pub write_one-Writes :
    (tid : ℕ) (at : Option ℕ) (mv : PlannedMovement) (db : Db)
    → Writes tid db (write_one tid at mv db)
unfolding write_one
write_one-Writes tid at mv db =
    Writes-trans
      (ledger-Writes tid db _
        (write_movement-Grows tid mv.idempotency_key mv.legacy_key mv.inventory_item_id
          mv.movement_type mv.delta mv.yield_factor_applied mv.source_type mv.source_id at
          db.ledger)
        (write_movement-IsValid tid mv.idempotency_key mv.legacy_key mv.inventory_item_id
          mv.movement_type mv.delta mv.yield_factor_applied mv.source_type mv.source_id at
          db.ledger))
      (alert_if_new-Writes tid mv.inventory_item_id _ at _)

pub write_all-Writes :
    (tid : ℕ) (at : Option ℕ) (mvs : List PlannedMovement) (db : Db)
    → Writes tid db (write_all tid at mvs db)
unfolding write_all
write_all-Writes tid at [] db = Writes-refl tid db
write_all-Writes tid at (mv ∷ mvs) db =
    Writes-trans (write_one-Writes tid at mv db)
      (write_all-Writes tid at mvs (write_one tid at mv db))
