-- ===== src/Inventory/Count.antt =====
-- record_count_event of backend/app/modules/inventory/services.py. `counted_text` is
-- str(counted_quantity), since one value has several texts (1.0 and 1.00).
pub mod Anchors
use reorder_os.Prelude.{
  ℕ, ◌+◌, String, Bool, true, ◌&&◌, Option, none, some, [], ◌∷◌, find_first, ◌==◌, if◌then◌else◌,
}
use reorder_os.Prelude.Int.{ℤ, pos, abs, ltb_ℤ, leb_ℤ}
use reorder_os.Prelude.Result.{Result, ok, err, ◌>>=◌}
use reorder_os.Prelude.Decimal.{Decimals}
use reorder_os.Monitoring.{Severity, info, warn, critical, drift, upsert_alert}
use reorder_os.Schema.{
  Mode, recipe_deducted, count_anchored, count_adjust, count_event, Key, word, uuid, instant,
  key_eq, Ledger, CountEvent,
}
use reorder_os.Depletion.Writer.{coalesce}
use reorder_os.Inventory.OnHand.{on_hand}
use reorder_os.Inventory.Opening.{set_anchor}
use reorder_os.Inventory.Stock.{Stock, StockError, item_not_found, is_item, insert_movement}

abbrev pub count_key : (iid counted_at : ℕ) (counted_text : String) → Key
count_key iid counted_at counted_text =
    word "count" ∷ uuid iid ∷ instant counted_at ∷ word counted_text ∷ []

abbrev pub has_count_key : ℕ → Key → CountEvent → Bool
has_count_key tid key c = c.tenant_id == tid && key_eq c.idempotency_key key

-- The returned dict: id, predicted_on_hand_at_count, counted_quantity.
pub record CountResult : Type 0 where
  pub id : ℕ
  pub predicted : Option ℤ
  pub counted : ℤ

module _ ⦃dec : Decimals⦄ where
  -- `counted_quantity - (predicted if predicted is not None else counted_quantity)`
  abbrev pub adjust_delta : ℤ → Option ℤ → ℤ
  adjust_delta counted none = dec.sub counted counted
  adjust_delta counted (some p) = dec.sub counted p

  -- _emit_count_adjust: the row's id is gen_random_uuid().
  unfoldable pub emit_count_adjust :
      (tid iid event_id : ℕ) (delta : ℤ) (recorded_at : ℕ) → Ledger → Result StockError (Ledger × ℕ)
  emit_count_adjust tid iid event_id delta recorded_at l =
      insert_movement tid iid count_adjust delta count_event (some event_id)
        (word "count_adjust" ∷ uuid event_id ∷ []) recorded_at l

  -- Step 4: the anchor in Mode B, a correcting movement in Mode A.
  unfoldable pub correct :
      Mode
      → (tid iid event_id counted_at : ℕ) (counted : ℤ) (predicted : Option ℤ) → Stock
      → Result StockError Stock
  correct count_anchored tid iid event_id counted_at counted predicted s =
      ok (record s { items = set_anchor tid iid counted counted_at s.items })
  correct recipe_deducted tid iid event_id counted_at counted predicted s =
      let delta = adjust_delta counted predicted in
      if leb_ℤ dec.ten_thousandth (abs delta)
      then (do
        (l, id) ← emit_count_adjust tid iid event_id delta counted_at s.ledger
        ok (record s { ledger = l }))
      else ok s

  abbrev pub severity_of : ℤ → Severity
  severity_of drift_pct =
      if ltb_ℤ dec.twenty_percent (abs drift_pct)
      then critical
      else if ltb_ℤ dec.five_percent (abs drift_pct)
      then warn
      else info

  -- Step 5.
  unfoldable pub alert_drift : (tid iid : ℕ) (counted : ℤ) → Option ℤ → Stock → Stock
  alert_drift tid iid counted none s = s
  alert_drift tid iid counted (some predicted) s =
      let d = dec.sub predicted counted in
      let pct = dec.div d counted in
      if ltb_ℤ (pos 0) counted
      then record s {
        alerts =
            upsert_alert true s.ledger.now tid "integrity_drift_high" (severity_of pct)
              (drift iid counted predicted d pct) s.alerts;
      }
      else s

  -- Steps 3 to 5 for an item that was found and a count that is new.
  unfoldable pub count_item :
      (tid iid : ℕ) (counted : ℤ) (key : Key) (counted_at : ℕ) (predicted : Option ℤ)
      → Mode
      → Stock
      → Result StockError (Stock × CountResult)
  count_item tid iid counted key counted_at predicted mode s = do
    let event_id = s.ledger.next_id
    let cutoff = s.ledger.now
    s' ← correct mode tid iid event_id counted_at counted predicted (record s {
      ledger = record s.ledger { next_id = event_id + 1 };
      counts =
          record {
            id = event_id;
            tenant_id = tid;
            inventory_item_id = iid;
            counted_quantity = counted;
            predicted_on_hand_at_count = predicted;
            counted_at = counted_at;
            idempotency_key = key;
            reconciliation_cutoff_created_at = some cutoff;
          }
          ∷ s.counts;
    })
    ok (
      alert_drift tid iid counted predicted s',
      record { id = event_id; predicted = predicted; counted = counted },
    )

  unfoldable pub record_count_event :
      (tid iid : ℕ) (counted : ℤ) (counted_text : String) (counted_at : Option ℕ)
      → Stock
      → Result StockError (Stock × CountResult)
  record_count_event tid iid counted counted_text counted_at s =
      let at = coalesce counted_at s.ledger.now in
      let key = count_key iid at counted_text in
      elim (find_first (is_item tid iid) s.items) [
        | none ↦ err item_not_found
        | some i ↦ elim (find_first (has_count_key tid key) s.counts) [
          | some c ↦ ok (s, record { id = c.id; predicted = none; counted = counted })
          | none ↦
              count_item tid iid counted key at
                (on_hand tid iid (some s.ledger.now) s.items s.yield_factors s.ledger.movements)
                i.inventory_mode s
        ]
      ]
