-- ===== src/Depletion/Handler/Replay.antt =====
-- process_line of depletion/handler.py on a line that it has processed.
use reorder_os.Prelude.{
  ℕ, ◌≡◌, refl, ap, inl, inr, Bool, Option, some, List, [], ◌∷◌, arith, find_first, update_where,
  ◌==◌, Option-cases,
}
use reorder_os.Prelude.Result.{ok}
use reorder_os.Prelude.Decimal.{Decimals}
use reorder_os.Schema.{SaleLine, DepletionStatus, Reason}
use reorder_os.Depletion.Writer.Rows.{IsValid, Grows, Grows-refl}
use reorder_os.Depletion.Handler.{
  Db, OrderRow, Outcome, terminal, is_line, set_status, read_line, process_line,
}
use reorder_os.Depletion.Handler.Writes.{Writes}
use reorder_os.Depletion.Handler.Once.{Done, replayed, settled, process_line-Processed}

-- The line after its status was set: the same line, but for the two columns.
abbrev with_status : DepletionStatus → Option Reason → SaleLine → SaleLine
with_status st r s = record s { depletion_status = some st; depletion_reason = r }

find-set_status :
    (tid sli : ℕ) (st : DepletionStatus) (r : Option Reason) (ls : List SaleLine) (s : SaleLine)
    → find_first (is_line tid sli) ls ≡ some s
    → find_first (is_line tid sli) (update_where (is_line tid sli) (with_status st r) ls)
      ≡ some (with_status st r s)
unfolding is_line
find-set_status tid sli st r [] s e = cc
find-set_status tid sli st r (l ∷ ls) s e = ground (arith, find-set_status tid sli st r ls s)

-- What read_line found.
read_line-parts :
    (tid sli : ℕ) (db : Db) (s : SaleLine) (o : OrderRow)
    → read_line tid sli db ≡ some (s, o)
    → (find_first (is_line tid sli) db.lines ≡ some s)
      × (find_first (λ (q : OrderRow). q.id == s.order_id) db.orders ≡ some o)
unfolding read_line
read_line-parts tid sli db s o e = elim (Option-cases (find_first (is_line tid sli) db.lines)) [
  | inl absent ↦ absurd (ground arith)
  | inr (l, found) ↦
      elim (Option-cases (find_first (λ (q : OrderRow). q.id == l.order_id) db.orders)) [
        | inl absent ↦ absurd (ground arith)
        | inr (q, found_order) ↦
            let same : (l ≡ s) × (q ≡ o) = (ground arith, ground arith) in
            rw (← same.0, ← same.1) (found, found_order)
      ]
]

read_line-set_status :
    (tid sli : ℕ) (st : DepletionStatus) (r : Option Reason) (db w : Db) (s : SaleLine)
    (o : OrderRow)
    → w.lines ≡ db.lines
    → w.orders ≡ db.orders
    → read_line tid sli db ≡ some (s, o)
    → read_line tid sli (set_status tid sli st r w) ≡ some (with_status st r s, o)
unfolding set_status read_line
read_line-set_status tid sli st r db w s o el eo e =
    let parts = read_line-parts tid sli db s o e in
    let found : find_first (is_line tid sli)
          (update_where (is_line tid sli) (with_status st r) w.lines)
        ≡ some (with_status st r s) =
      find-set_status tid sli st r w.lines s (rw el (parts.0)) in
    let order : find_first (λ (q : OrderRow). q.id == s.order_id) w.orders ≡ some o =
      rw eo (parts.1) in
    rw (found, read_line) (rw (order, read_line) refl)

terminal-eq : (x : Option DepletionStatus) (d : DepletionStatus) → terminal x ≡ some d → x ≡ some d
terminal-eq x d e = ground arith

module _ ⦃dec : Decimals⦄ (tid sli : ℕ) (s : SaleLine) (o : OrderRow) (db : Db)
    (exists : read_line tid sli db ≡ some (s, o)) where
  module _ (at : Option ℕ) (partial : Bool) (db' : Db) (out : Outcome)
      (first : process_line tid sli at partial db ≡ ok (db', out)) where
    done : Done tid sli s db db' out
    done =
        let p = process_line-Processed tid sli s db o at partial exists in
        let same : (p.db' ≡ db') × (p.out ≡ out) = (cc (p.returned), cc (p.returned)) in
        rw (same.0, same.1) at (p.done)

    settled_replay :
        (w : Db) (at' : Option ℕ) (partial' : Bool)
        → Writes tid db w
        → terminal (some out.0) ≡ some out.0
        → process_line tid sli at' partial' (set_status tid sli out.0 out.1 w)
          ≡ ok (set_status tid sli out.0 out.1 w, out)
    unfolding process_line
    settled_replay w at' partial' wr t =
        rw
          (
            read_line-set_status tid sli out.0 out.1 db w s o wr.lines wr.orders exists,
            process_line,
          )
          (rw (t, process_line) refl)

    replay_of :
        Done tid sli s db db' out
        → (at' : Option ℕ) (partial' : Bool) → process_line tid sli at' partial' db' ≡ ok (db', out)
    unfolding process_line
    replay_of (replayed t r same) at' partial' = rw same (
        rw (exists, process_line)
          (rw (t, process_line) (ap (λ (x : Option Reason). ok (db, (out.0, x))) r)))
    replay_of (settled w wr none_else t same) at' partial' =
        rw same (settled_replay w at' partial' wr t)

    keeps_of :
        Done tid sli s db db' out
        → Grows tid db.ledger db'.ledger × (IsValid db.ledger → IsValid db'.ledger)
    unfolding set_status
    keeps_of (replayed t r same) = rw same (Grows-refl tid db.ledger, λ v. v)
    keeps_of (settled w wr none_else t same) = rw same (wr.grows, wr.valid)

    -- Exactly once: a second call of process_line for the line, at any instant and with the flag
    -- for partial refunds either way, changes nothing and returns the outcome of the first.
    pub process_line_replay :
        (at' : Option ℕ) (partial' : Bool) → process_line tid sli at' partial' db' ≡ ok (db', out)
    process_line_replay = replay_of done

    -- Whatever the outcome, a well-formed ledger stays well formed (its primary key and its unique
    -- idempotency keys are kept) and grows only by rows of the tenant in front of the old rows.
    pub process_line-Grows : IsValid db.ledger → Grows tid db.ledger db'.ledger × IsValid db'.ledger
    process_line-Grows valid = let kept = keeps_of done in (kept.0, kept.1 valid)
