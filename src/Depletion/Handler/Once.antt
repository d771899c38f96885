-- ===== src/Depletion/Handler/Once.antt =====
-- process_line of depletion/handler.py: what one call does to a line.
use reorder_os.Prelude.{
  ℕ, ◌≡◌, refl, inl, inr, Bool, false, Option, none, some, arith, Bool-cases, Option-cases,
}
use reorder_os.Prelude.Result.{Result, ok}
use reorder_os.Prelude.Decimal.{Decimals}
use reorder_os.Schema.{SaleLine, DepletionStatus, depleted, failed, Reason}
use reorder_os.Depletion.Resolver.{resolve_eligibility}
use reorder_os.Depletion.Walker.{WalkOutcome}
use reorder_os.Depletion.Walker.Outcome.{
  Shaped, Filled-Shaped, walk_base-Walked, walk_modifiers-Walked,
}
use reorder_os.Depletion.Handler.{
  Db, OrderRow, Outcome, ProcessError, terminal, is_depleted, set_status, finish_line, deplete_line,
  process_pending, read_line, process_line,
}
use reorder_os.Depletion.Handler.Writes.{Writes, Writes-refl, write_all-Writes}

-- What a call has done to a line `s`: nothing, since it was terminal; or the writes of a depletion
-- (none, if the status is another), and then the status.
pub data Done (tid sli : ℕ) (s : SaleLine) (db db' : Db) (out : Outcome) : Type 0 where
  replayed :
      terminal s.depletion_status ≡ some out.0
      → s.depletion_reason ≡ out.1
      → db' ≡ db
      → Done tid sli s db db' out
  settled :
      (w : Db)
      → Writes tid db w
      → (is_depleted out.0 ≡ false → w ≡ db)
      → terminal (some out.0) ≡ some out.0
      → db' ≡ set_status tid sli out.0 out.1 w
      → Done tid sli s db db' out

pub record Processed (tid sli : ℕ) (s : SaleLine) (db : Db) (r : Result ProcessError (Db × Outcome))
    : Type 0 where
  pub db' : Db
  pub out : Outcome
  pub returned : r ≡ ok (db', out)
  pub done : Done tid sli s db db' out

Shaped-terminal :
    (o : WalkOutcome)
    → Shaped o.status o.reason o.movements
    → terminal (some o.status) ≡ some o.status
Shaped-terminal o h = ground arith

module _ ⦃dec : Decimals⦄ (tid sli : ℕ) (s : SaleLine) (db : Db) where
  status_only :
      (st : DepletionStatus) (r : Option Reason)
      → terminal (some st) ≡ some st
      → Processed tid sli s db (ok (set_status tid sli st r db, (st, r)))
  status_only st r t = record {
    db' = _;
    out = (st, r);
    returned = refl;
    done = settled db (Writes-refl tid db) (λ h. refl) t refl;
  }

  finish_line-Processed :
      (at : Option ℕ) (base mods : WalkOutcome)
      → Shaped mods.status mods.reason mods.movements
      → Processed tid sli s db (ok (finish_line tid sli at base mods db))
  unfolding finish_line
  finish_line-Processed at base mods h = elim (Bool-cases (is_depleted mods.status)) [
    | inl e ↦ rw e (record {
      db' = _;
      out = (depleted, none);
      returned = refl;
      done = settled _ (write_all-Writes tid at _ db) (λ f. cc) refl refl;
    })
    | inr e ↦ rw e (status_only mods.status mods.reason (Shaped-terminal mods h))
  ]

  deplete_line-Processed : (at : Option ℕ) → Processed tid sli s db (deplete_line tid sli s at db)
  unfolding deplete_line
  deplete_line-Processed at =
      let base = walk_base-Walked db.catalog tid sli s.recipe_version_id s.quantity in
      let mods = walk_modifiers-Walked db.catalog db.slims tid sli s.quantity in
      rw (base.returned, deplete_line)
        (elim (Bool-cases (is_depleted base.outcome.status)) [
          | inl e ↦ rw e (
              rw (mods.returned, deplete_line)
                (finish_line-Processed at base.outcome mods.outcome mods.shape))
          | inr e ↦ rw e (
              status_only base.outcome.status base.outcome.reason
                (Shaped-terminal base.outcome (Filled-Shaped _ _ _ base.shape)))
        ])

  process_pending-Processed :
      (o : OrderRow) (at : Option ℕ) (partial : Bool)
      → Processed tid sli s db (process_pending tid sli s o at partial db)
  unfolding process_pending
  process_pending-Processed o at partial =
      elim (Bool-cases
        (resolve_eligibility o.payment_state o.state s.is_voided s.is_refunded partial).eligible) [
          | inl e ↦ rw e (deplete_line-Processed at)
          | inr e ↦ rw e (status_only failed _ refl)
        ]

  pub process_line-Processed :
      (o : OrderRow) (at : Option ℕ) (partial : Bool)
      → read_line tid sli db ≡ some (s, o)
      → Processed tid sli s db (process_line tid sli at partial db)
  unfolding process_line
  process_line-Processed o at partial e = elim (Option-cases (terminal s.depletion_status)) [
    | inl open_line ↦
        rw (e, process_line) (rw (open_line, process_line) (process_pending-Processed o at partial))
    | inr (d, closed) ↦
        rw (e, process_line)
          (rw (closed, process_line)
            (record {
              db' = db;
              out = (d, s.depletion_reason);
              returned = refl;
              done = replayed closed refl refl;
            }))
  ]
