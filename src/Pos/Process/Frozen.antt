-- ===== src/Pos/Process/Frozen.antt =====
-- What a later event may change of a line that is there (pos/worker.py).
use mathlib.Core.List.{append_assoc, map-append}
use reorder_os.Prelude.{
  ℕ, ◌≡◌, refl, sym, ap, subst, ◌∙◌, inl, inr, String, Bool, true, false, Option, none, some, List,
  [], ◌∷◌, ◌++◌, map, update_where, find_first, ◌+◌, Bool-cases, Option-cases, if◌then◌else◌,
}
use reorder_os.Prelude.Decimal.{Decimals}
use reorder_os.Prelude.Result.{AllOk, Result-cases}
use reorder_os.Schema.{SaleLine}
use reorder_os.Depletion.Handler.{
  Db, Outcome, is_line, set_status, read_line, process_line, reverse_line,
}
use reorder_os.Depletion.Handler.Once.{Done, replayed, settled, process_line-Processed}
use reorder_os.Pos.Payment.{OrderData, from_ms, upsert_order}
use reorder_os.Pos.Lines.{Sales}
use reorder_os.Pos.Lines.Frozen.{ingest_lines-Extends}
use reorder_os.Pos.Inbox.{Event}
use reorder_os.Pos.Process.{
  Env, Failure, Fetch, World, not_connected, unguarded, order_not_found, raised, fetched, payload,
  ingest, scan, refund, line, acknowledge, failure, handler, finish, fail, try_finish, try_fail,
  save_payload, ingest_order, is_refund_of, refund_one, refund_lines, deplete_one, deplete_lines,
  deplete_order, process_order, process_fetched, process_saved, process_event, caught, run_event,
}

-- A line without the columns that the refunds and the depletion write.
abbrev pub frozen : SaleLine → SaleLine
frozen l = record l { is_refunded = false; depletion_status = none; depletion_reason = none }

-- The lines that were there stand behind new ones, and their other columns are as they were.
abbrev pub Keeps : (ls ls' : List SaleLine) → Type 0
Keeps ls ls' = (new : List SaleLine) × (map frozen ls' ≡ new ++ map frozen ls)

Keeps-trans : (a b c : List SaleLine) → Keeps a b → Keeps b c → Keeps a c
Keeps-trans a b c (f, e) (g, h) = (g ++ f, h ∙ (ap (λ x. g ++ x) e ∙ sym (append_assoc g f _)))

same-Keeps : (a b : List SaleLine) → map frozen b ≡ map frozen a → Keeps a b
same-Keeps a b e = ([], e)

update_where-frozen :
    (p : SaleLine → Bool) (f : SaleLine → SaleLine)
    → ((l : SaleLine) → frozen (f l) ≡ frozen l)
    → (ls : List SaleLine) → map frozen (update_where p f ls) ≡ map frozen ls
update_where-frozen p f same [] = refl
update_where-frozen p f same (l ∷ ls) = elim (Bool-cases (p l)) [
  | inl y ↦ rw (y, same l) (ap (λ x. frozen l ∷ x) (update_where-frozen p f same ls))
  | inr n ↦ rw n (ap (λ x. frozen l ∷ x) (update_where-frozen p f same ls))
]

try_finish-lines : (env : Env) (e : Event) (w : World) → (try_finish env e w).0.db ≡ w.db
unfolding try_finish finish
try_finish-lines env e w = elim (Bool-cases (env.raises acknowledge)) [
  | inl y ↦ rw y refl
  | inr n ↦ rw n refl
]

fail-lines :
    (env : Env) (e : Event) (f : Failure) (w : World) → (fail env e f w).db.lines ≡ w.db.lines
unfolding fail
fail-lines env e f w = refl

try_fail-lines :
    (env : Env) (e : Event) (f : Failure) (w : World) → (try_fail env e f w).0.db.lines ≡ w.db.lines
unfolding try_fail
try_fail-lines env e f w = elim (Bool-cases (env.raises failure)) [
  | inl y ↦ rw y refl
  | inr n ↦ rw n (fail-lines env e f w)
]

choose-Keeps :
    (ls : List SaleLine) (b : Bool) (v w : World × Bool)
    → Keeps ls v.0.db.lines
    → Keeps ls w.0.db.lines
    → Keeps ls (if b then v else w).0.db.lines
choose-Keeps ls true v w h k = h
choose-Keeps ls false v w h k = k

ingest_order-Keeps :
    (env : Env) (tid : ℕ) (e : Event) (o : OrderData) (w : World)
    → Keeps w.db.lines (ingest_order env tid e o w).0.db.lines
unfolding ingest_order
ingest_order-Keeps env tid e o w =
    let (orders, oid) = upsert_order w.next_id tid e.inbox_id w.db.ledger.now o w.orders in
    let s : Sales = record { next_id = w.next_id + 1; lines = w.db.lines; slims = w.db.slims } in
    let f = ingest_lines-Extends env.floats tid oid o.line_items w.menu s in
    (map frozen f.new, ap (map frozen) f.rows ∙ map-append frozen f.new w.db.lines)

module _ ⦃dec : Decimals⦄ where
  Done-frozen :
      (tid sli : ℕ) (s : SaleLine) (db db' : Db) (out : Outcome)
      → Done tid sli s db db' out
      → map frozen db'.lines ≡ map frozen db.lines
  unfolding set_status
  Done-frozen tid sli s db db' out (replayed t r same) = rw same refl
  Done-frozen tid sli s db db' out (settled w wr none_else t same) =
      rw same
        (update_where-frozen (is_line tid sli) _ (λ l. refl) w.lines ∙ ap (map frozen) wr.lines)

  process_line-frozen :
      (tid sli : ℕ) (at : Option ℕ) (partial : Bool) (db : Db)
      → AllOk (λ r. map frozen r.0.lines ≡ map frozen db.lines) (process_line tid sli at partial db)
  unfolding process_line
  process_line-frozen tid sli at partial db = elim (Option-cases (read_line tid sli db)) [
    | inl n ↦ rw (process_line, n) tt
    | inr ((s, o), y) ↦
        let p = process_line-Processed tid sli s db o at partial y in
        subst (AllOk (λ r. map frozen r.0.lines ≡ map frozen db.lines)) (sym p.returned)
          (Done-frozen tid sli s db p.db' p.out p.done)
  ]

  deplete_one-frozen :
      (env : Env) (tid : ℕ) (at : Option ℕ) (sli : ℕ) (db : Db)
      → map frozen (deplete_one env tid at sli db).0.lines ≡ map frozen db.lines
  unfolding deplete_one
  deplete_one-frozen env tid at sli db = elim (Bool-cases (env.raises (line sli))) [
    | inl y ↦ rw y refl
    | inr n ↦ elim (Result-cases (process_line tid sli at true db)) [
      | inl (x, r) ↦ rw (n, r) refl
      | inr ((db', out), r) ↦ rw (n, r) (subst (AllOk _) r (process_line-frozen tid sli at true db))
    ]
  ]

  deplete_lines-frozen :
      (env : Env) (tid : ℕ) (at : Option ℕ) (slis : List ℕ) (db : Db)
      → map frozen (deplete_lines env tid at slis db).0.lines ≡ map frozen db.lines
  unfolding deplete_lines
  deplete_lines-frozen env tid at [] db = refl
  deplete_lines-frozen env tid at (sli ∷ slis) db =
      deplete_lines-frozen env tid at slis (deplete_one env tid at sli db).0
      ∙ deplete_one-frozen env tid at sli db

  refund_one-frozen :
      (tid oid : ℕ) (cid : String) (db : Db)
      → AllOk (λ db'. map frozen db'.lines ≡ map frozen db.lines) (refund_one tid oid cid db)
  unfolding refund_one
  refund_one-frozen tid oid cid db =
      elim (Option-cases (find_first (is_refund_of tid oid cid) db.lines)) [
        | inl n ↦ rw (refund_one, n) refl
        | inr (l, y) ↦ elim (Result-cases (reverse_line tid l.id db.ledger)) [
          | inl (x, r) ↦ rw (refund_one, y, r) tt
          | inr ((ledger, n), r) ↦
              rw (refund_one, y, r) (update_where-frozen (is_line tid l.id) _ (λ x. refl) db.lines)
        ]
      ]

  refund_lines-frozen :
      (env : Env) (tid oid : ℕ) (cids : List String) (db : Db)
      → map frozen (refund_lines env tid oid cids db).0.lines ≡ map frozen db.lines
  unfolding refund_lines
  refund_lines-frozen env tid oid [] db = refl
  refund_lines-frozen env tid oid (cid ∷ cids) db = elim (Bool-cases (env.raises (refund cid))) [
    | inl y ↦ rw y refl
    | inr n ↦ elim (Result-cases (refund_one tid oid cid db)) [
      | inl (x, r) ↦ rw (n, r) refl
      | inr (db', r) ↦
          let here : map frozen db'.lines ≡ map frozen db.lines =
            subst (AllOk _) r (refund_one-frozen tid oid cid db) in
          rw (n, r) (refund_lines-frozen env tid oid cids db' ∙ here)
    ]
  ]

  deplete_order-Keeps :
      (env : Env) (tid oid : ℕ) (e : Event) (o : OrderData) (w : World)
      → Keeps w.db.lines (deplete_order env tid oid e o w).0.db.lines
  unfolding deplete_order
  deplete_order-Keeps env tid oid e o w =
      let db = w.db in
      let lines = deplete_lines-frozen env tid (from_ms o.created_ms) _ w.db in
      choose-Keeps w.db.lines (env.raises scan) _ _
        (same-Keeps _ _ (ap (map frozen) (try_fail-lines env e _ w)))
        (choose-Keeps w.db.lines _ _ _
          (same-Keeps _ _ (ap (λ d. map frozen d.lines) (try_finish-lines env e _) ∙ lines))
          (same-Keeps _ _ (ap (map frozen) (try_fail-lines env e _ _) ∙ lines)))

  process_order-Keeps :
      (env : Env) (e : Event) (o : OrderData) (w : World)
      → Keeps w.db.lines (process_order env e o w).0.db.lines
  unfolding process_order
  process_order-Keeps env e o w =
      let ingested = ingest_order-Keeps env e.tenant_id e o w in
      let (w', oid) = ingest_order env e.tenant_id e o w in
      let refunds = refund_lines-frozen env e.tenant_id oid _ w'.db in
      choose-Keeps w.db.lines _ _ _
        (same-Keeps _ _ (ap (λ d. map frozen d.lines) (try_finish-lines env e w)))
        (choose-Keeps w.db.lines (env.raises ingest) _ _
          (same-Keeps _ _ (ap (map frozen) (try_fail-lines env e _ w)))
          (choose-Keeps w.db.lines _ _ _
            (Keeps-trans w.db.lines w'.db.lines _ ingested (
              Keeps-trans w'.db.lines _ _ (same-Keeps _ _ refunds)
                (deplete_order-Keeps env e.tenant_id oid e o _)))
            (Keeps-trans w.db.lines w'.db.lines _ ingested
              (same-Keeps _ _ (ap (map frozen) (try_fail-lines env e _ _) ∙ refunds)))))

  process_fetched-Keeps :
      (env : Env) (e : Event) (w : World) (x : Fetch)
      → Keeps w.db.lines (process_fetched env e w x).0.db.lines
  unfolding process_fetched save_payload
  process_fetched-Keeps env e w not_connected =
      same-Keeps _ _ (ap (map frozen) (try_fail-lines env e _ w))
  process_fetched-Keeps env e w unguarded = same-Keeps _ _ refl
  process_fetched-Keeps env e w order_not_found =
      same-Keeps _ _ (ap (λ d. map frozen d.lines) (try_finish-lines env e w))
  process_fetched-Keeps env e w (raised f) =
      same-Keeps _ _ (ap (map frozen) (try_fail-lines env e f w))
  process_fetched-Keeps env e w (fetched o) =
      choose-Keeps w.db.lines (env.raises payload) _ _ (same-Keeps _ _ refl)
        (process_order-Keeps env e o (save_payload e o w))

  process_saved-Keeps :
      (env : Env) (e : Event) (w : World) (x : Option OrderData)
      → Keeps w.db.lines (process_saved env e w x).0.db.lines
  unfolding process_saved
  process_saved-Keeps env e w none = process_fetched-Keeps env e w (env.fetch e)
  process_saved-Keeps env e w (some o) = process_order-Keeps env e o w

  caught-Keeps :
      (env : Env) (e : Event) (ls : List SaleLine) (out : World × Bool)
      → Keeps ls out.0.db.lines
      → Keeps ls (caught env e out).0.db.lines
  caught-Keeps env e ls (w, true) h = h
  caught-Keeps env e ls (w, false) h = elim (Bool-cases (env.raises handler)) [
    | inl y ↦ rw y h
    | inr n ↦ rw n (subst (Keeps ls) (sym (fail-lines env e _ w)) h)
  ]

  -- Whatever an event says, whatever Clover answers and whichever transactions raise, one turn of
  -- the worker's loop removes no line and changes of the lines that were there at most is_refunded,
  -- depletion_status and depletion_reason; new lines come in front of them.
  pub run_event-Keeps :
      (env : Env) (e : Event) (w : World) → Keeps w.db.lines (run_event env e w).0.db.lines
  unfolding run_event process_event
  run_event-Keeps env e w =
      caught-Keeps env e w.db.lines (process_event env e w)
        (process_saved-Keeps env e w e.fetched_payload)
