-- ===== src/Inventory/Count/Anchors.antt =====
-- record_count_event of inventory/services.py, and on_hand after it.
use reorder_os.Prelude.{
  ℕ, String, ◌≡◌, refl, ap, inl, inr, true, Option, none, some, [], ◌∷◌, arith, find_first, any,
  ==_refl, if◌then◌else◌, Bool-cases, Option-cases,
}
use reorder_os.Prelude.Int.{ℤ, ◌-ℤ◌, abs, leb_ℤ, int_laws}
use reorder_os.Prelude.Result.{Result, ok, AllOk, AllOk-then}
use reorder_os.Prelude.Decimal.{Decimals}
use reorder_os.Schema.{Mode, recipe_deducted, count_anchored, Key, word, uuid, CountEvent, Item}
use reorder_os.Depletion.Writer.{has_key, insert_or_nothing, coalesce}
use reorder_os.Inventory.OnHand.{on_hand, quantity_of, ledger_sum, sum_where}
use reorder_os.Inventory.Stock.{Stock, StockError, is_item, insert_movement}
use reorder_os.Depletion.Writer.Rows.{key_eq_refl}
use reorder_os.Inventory.Opening.Once.{find_first-set_anchor}
use reorder_os.Inventory.Count.{
  count_key, adjust_delta, has_count_key, CountResult, emit_count_adjust, correct, alert_drift,
  count_item, record_count_event,
}

module _ ⦃dec : Decimals⦄ (tid iid : ℕ) (counted : ℤ) where
  -- The quantity after a count in Mode A: the count, or the prediction that it agrees with.
  abbrev pub corrected : ℤ → ℤ
  corrected p = if leb_ℤ dec.ten_thousandth (abs (dec.sub counted p)) then counted else p

  correct-corrected :
      (event_id at : ℕ) (p : ℤ) (s : Stock)
      → dec.fits (counted -ℤ p) ≡ true
      → ledger_sum tid iid s.ledger.movements ≡ p
      → AllOk
          (λ s'. (s'.items ≡ s.items) × (ledger_sum tid iid s'.ledger.movements ≡ corrected p))
          (correct recipe_deducted tid iid event_id at counted (some p) s)
  unfolding correct emit_count_adjust insert_movement insert_or_nothing ledger_sum sum_where
  correct-corrected event_id at p s f e =
      elim (Bool-cases (leb_ℤ dec.ten_thousandth (abs (dec.sub counted p)))) [
        | inr n ↦ rw n (refl, e)
        | inl y ↦
            elim (Bool-cases
              (any (has_key tid (word "count_adjust" ∷ uuid event_id ∷ [])) s.ledger.movements)) [
                | inl present ↦ rw (y, present) tt
                | inr absent ↦
                    rw (y, absent)
                      (
                        refl,
                        rw (==_refl tid, ==_refl iid)
                            (rw (e, dec.sub-exact counted p f) (omega int_laws)),
                      )
              ]
      ]

  alert_drift_keeps :
      (o : Option ℤ) (s : Stock)
      → ((alert_drift tid iid counted o s).items ≡ s.items)
        × ((alert_drift tid iid counted o s).ledger ≡ s.ledger)
  unfolding alert_drift
  alert_drift_keeps none s = (refl, refl)
  alert_drift_keeps (some p) s = (ground arith, ground arith)

  -- The tables after the new row of inventory_count_events.
  count_item-corrected :
      (key : Key) (at : ℕ) (p : ℤ) (s : Stock)
      → dec.fits (counted -ℤ p) ≡ true
      → ledger_sum tid iid s.ledger.movements ≡ p
      → AllOk
          (λ r. (r.0.items ≡ s.items) × (ledger_sum tid iid r.0.ledger.movements ≡ corrected p))
          (count_item tid iid counted key at (some p) recipe_deducted s)
  unfolding count_item
  count_item-corrected key at p s f e =
      AllOk-then _ _ (correct recipe_deducted tid iid s.ledger.next_id at counted (some p) _) _
        (correct-corrected s.ledger.next_id at p _ f e)
        (λ s' h. rw ((alert_drift_keeps (some p) s').0, (alert_drift_keeps (some p) s').1) h)

-- What stays of a count: its event under its key, and the item.
module _ ⦃dec : Decimals⦄ (tid iid : ℕ) (counted : ℤ) (key : Key) where
  abbrev IsRecorded : Stock × CountResult → Type 0
  IsRecorded (s, r) =
      ((c : CountEvent) × (find_first (has_count_key tid key) s.counts ≡ some c) × (c.id ≡ r.id))
      × ((i : Item) × (find_first (is_item tid iid) s.items ≡ some i))

  correct_keeps :
      (mode : Mode) (event_id at : ℕ) (p : Option ℤ) (s : Stock) (i : Item)
      → find_first (is_item tid iid) s.items ≡ some i
      → AllOk
          (λ s'.
            (s'.counts ≡ s.counts)
            × ((j : Item) × (find_first (is_item tid iid) s'.items ≡ some j)))
          (correct mode tid iid event_id at counted p s)
  unfolding correct emit_count_adjust insert_movement insert_or_nothing
  correct_keeps count_anchored event_id at p s i found =
      (refl, (_, find_first-set_anchor tid iid counted at s.items i found))
  correct_keeps recipe_deducted event_id at p s i found =
      elim (Bool-cases (leb_ℤ dec.ten_thousandth (abs (adjust_delta counted p)))) [
        | inr n ↦ rw n (refl, (i, found))
        | inl y ↦
            elim (Bool-cases
              (any (has_key tid (word "count_adjust" ∷ uuid event_id ∷ [])) s.ledger.movements)) [
                | inl present ↦ rw (y, present) tt
                | inr absent ↦ rw (y, absent) (refl, (i, found))
              ]
      ]

  alert_drift-counts :
      (o : Option ℤ) (s : Stock) → (alert_drift tid iid counted o s).counts ≡ s.counts
  unfolding alert_drift
  alert_drift-counts none s = refl
  alert_drift-counts (some p) s = ground arith

  count_item-IsRecorded :
      (at : ℕ) (p : Option ℤ) (mode : Mode) (s : Stock) (i : Item)
      → find_first (is_item tid iid) s.items ≡ some i
      → AllOk IsRecorded (count_item tid iid counted key at p mode s)
  unfolding count_item
  count_item-IsRecorded at p mode s i found =
      AllOk-then _ _ (correct mode tid iid s.ledger.next_id at counted p _) _
        (correct_keeps mode s.ledger.next_id at p _ i found)
        (λ s' h.
          rw
            (
              (alert_drift_keeps tid iid counted p s').0,
              alert_drift-counts p s',
              h.0,
              ==_refl tid,
              key_eq_refl key,
            )
            ((_, refl, refl), h.1))

module _ ⦃dec : Decimals⦄ (tid iid : ℕ) (counted : ℤ) (counted_text : String)
    (counted_at : Option ℕ) (s s' : Stock) (r : CountResult)
    (done : record_count_event tid iid counted counted_text counted_at s ≡ ok (s', r)) where
  recorded :
      IsRecorded tid iid counted
        (count_key iid (coalesce counted_at s.ledger.now) counted_text)
        (s', r)
  unfolding record_count_event
  recorded =
      let at = coalesce counted_at s.ledger.now in
      let key = count_key iid at counted_text in
      elim (Option-cases (find_first (is_item tid iid) s.items)) [
        | inl missing ↦ absurd (ground arith)
        | inr (i, found) ↦ elim (Option-cases (find_first (has_count_key tid key) s.counts)) [
          | inr (c, known) ↦
              let d : ok (s, record { id = c.id; predicted = none; counted = counted })
                  ≡ ok (s', r) =
                (rw (record_count_event, found, known) at done) in
              let same_s : s ≡ s' = cc (d) in
              let same_r : record { id = c.id; predicted = none; counted = counted } ≡ r = cc (d) in
              rw (← same_s, ← same_r) ((c, known, refl), (i, found))
          | inl fresh ↦
              let d = (rw (record_count_event, found, fresh) at done) in
              let all =
                count_item-IsRecorded tid iid counted key at
                  (on_hand tid iid (some s.ledger.now) s.items s.yield_factors s.ledger.movements)
                  i.inventory_mode s i found in
              rw d at all
        ]
      ]

  -- A count that was recorded is recorded once: the same count (item, instant and text of the
  -- quantity) again changes nothing and returns the id of the first, with no prediction.
  record_count_event_once :
      (counted' : ℤ)
      → record_count_event tid iid counted' counted_text
          (some (coalesce counted_at s.ledger.now))
          s'
        ≡ ok (s', record { id = r.id; predicted = none; counted = counted' })
  unfolding record_count_event
  record_count_event_once counted' =
      let ((c, known, same), (i, found)) = recorded in
      rw (record_count_event, found)
        (rw (known, record_count_event)
          (ap {B = Result StockError (Stock × CountResult)}
            (λ n. ok (s', record { id = n; predicted = none; counted = counted' })) same))

  -- Mode A: after a new count of an item, whose difference from the ledger's sum has at most the 28
  -- digits of Python's decimals, the stock on hand is the counted quantity, or the ledger's sum as
  -- it was if the two differ by less than 0.0001.
  pub record_count_event-on_hand :
      (i : Item) (cutoff : Option ℕ)
      → find_first (is_item tid iid) s.items ≡ some i
      → i.inventory_mode ≡ recipe_deducted
      → find_first
          (has_count_key tid (count_key iid (coalesce counted_at s.ledger.now) counted_text))
          s.counts
        ≡ none
      → dec.fits (counted -ℤ ledger_sum tid iid s.ledger.movements) ≡ true
      → on_hand tid iid cutoff s'.items s'.yield_factors s'.ledger.movements
        ≡ some (corrected tid iid counted (ledger_sum tid iid s.ledger.movements))
  unfolding record_count_event on_hand quantity_of
  record_count_event-on_hand i cutoff found mode fresh fits =
      let total = ledger_sum tid iid s.ledger.movements in
      let predicted : on_hand tid iid (some s.ledger.now) s.items s.yield_factors s.ledger.movements
          ≡ some total =
        rw (on_hand, found) (rw (mode, quantity_of) refl) in
      let d : count_item tid iid counted
            (count_key iid (coalesce counted_at s.ledger.now) counted_text)
            (coalesce counted_at s.ledger.now) (some total) recipe_deducted s
          ≡ ok (s', r) =
        (rw (record_count_event, found, fresh, predicted, mode) at done) in
      let all =
        count_item-corrected tid iid counted
          (count_key iid (coalesce counted_at s.ledger.now) counted_text)
          (coalesce counted_at s.ledger.now) total s fits refl in
      let kept : (s'.items ≡ s.items)
          × (ledger_sum tid iid s'.ledger.movements ≡ corrected tid iid counted total) =
        (rw d at all) in
      rw (kept.0, on_hand, found) (rw (mode, quantity_of) (ap some kept.1))
