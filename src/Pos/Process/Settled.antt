-- ===== src/Pos/Process/Settled.antt =====
-- The end of an event under run (pos/worker.py).
use reorder_os.Prelude.{
  ℕ, ◌≡◌, refl, inl, inr, Bool, true, false, Option, none, some, List, [], ◌∷◌, All, select,
  update_where, leb, ◌+◌, arith, Bool-cases, if◌then◌else◌,
}
use reorder_os.Prelude.Decimal.{Decimals}
use reorder_os.Pos.Payment.{OrderData}
use reorder_os.Pos.Inbox.{
  Event, EventState, processed, failed, dead, has_inbox_id, max_retries, mark_processed,
  mark_failed, dead_letter_event,
}
use reorder_os.Pos.Process.{
  Env, Failure, Fetch, World, finish, fail, try_finish, try_fail, payload, acknowledge, failure,
  handler, save_payload, process_order, deplete_order, process_event, run_event, process_fetched,
  process_saved, caught, not_connected, unguarded, order_not_found, raised, fetched, scan, ingest,
}

-- Handled: processed, failed, or a dead letter.
abbrev pub is_settled : EventState → Bool
is_settled processed = true
is_settled failed = true
is_settled dead = true
is_settled _ = false

abbrev pub AllSettled : ℕ → List Event → Type 0
AllSettled id es = All (λ x. is_settled x.state ≡ true) (select (has_inbox_id id) es)

updated-AllSettled :
    (id : ℕ) (f : Event → Event)
    → ((e : Event) → is_settled (f e).state ≡ true)
    → ((e : Event) → has_inbox_id id e ≡ true → has_inbox_id id (f e) ≡ true)
    → (es : List Event) → AllSettled id (update_where (has_inbox_id id) f es)
updated-AllSettled id f settles kept [] = tt
updated-AllSettled id f settles kept (e ∷ es) = elim (Bool-cases (has_inbox_id id e)) [
  | inl y ↦ rw (y, kept e y) (settles e, updated-AllSettled id f settles kept es)
  | inr n ↦ rw (n, n) (updated-AllSettled id f settles kept es)
]

finish-AllSettled : (e : Event) (w : World) → AllSettled e.inbox_id (finish e w).events
unfolding finish mark_processed
finish-AllSettled e w = updated-AllSettled e.inbox_id _ (λ x. refl) (λ x h. h) w.events

fail-AllSettled :
    (env : Env) (e : Event) (f : Failure) (w : World)
    → AllSettled e.inbox_id (fail env e f w).events
unfolding fail mark_failed dead_letter_event
fail-AllSettled env e f w = elim (Bool-cases (leb max_retries (e.retry_count + 1))) [
  | inl y ↦ rw y (updated-AllSettled e.inbox_id _ (λ x. refl) (λ x h. h) w.events)
  | inr n ↦ rw n (updated-AllSettled e.inbox_id _ (λ x. refl) (λ x h. h) w.events)
]

-- A step that returns has settled the event.
abbrev Ends : ℕ → World × Bool → Type 0
Ends id out = out.1 ≡ true → AllSettled id out.0.events

try_finish-Ends : (env : Env) (e : Event) (w : World) → Ends e.inbox_id (try_finish env e w)
unfolding try_finish
try_finish-Ends env e w = elim (Bool-cases (env.raises acknowledge)) [
  | inl y ↦ rw y (λ h. absurd (ground arith))
  | inr n ↦ rw n (λ h. finish-AllSettled e w)
]

try_fail-Ends :
    (env : Env) (e : Event) (f : Failure) (w : World) → Ends e.inbox_id (try_fail env e f w)
unfolding try_fail
try_fail-Ends env e f w = elim (Bool-cases (env.raises failure)) [
  | inl y ↦ rw y (λ h. absurd (ground arith))
  | inr n ↦ rw n (λ h. fail-AllSettled env e f w)
]

-- A choice between two steps settles the event if both do.
choose-Ends :
    (id : ℕ) (b : Bool) (v w : World × Bool) → Ends id v → Ends id w → Ends id (if b then v else w)
choose-Ends id true v w h k = h
choose-Ends id false v w h k = k

raised-Ends : (id : ℕ) (w : World) → Ends id (w, false)
raised-Ends id w h = absurd (ground arith)

module _ ⦃dec : Decimals⦄ where
  deplete_order-Ends :
      (env : Env) (tid oid : ℕ) (e : Event) (o : OrderData) (w : World)
      → Ends e.inbox_id (deplete_order env tid oid e o w)
  unfolding deplete_order
  deplete_order-Ends env tid oid e o w =
      choose-Ends e.inbox_id (env.raises scan) _ _ (try_fail-Ends env e _ w)
        (choose-Ends e.inbox_id _ _ _ (try_finish-Ends env e _) (try_fail-Ends env e _ _))

  process_order-Ends :
      (env : Env) (e : Event) (o : OrderData) (w : World)
      → Ends e.inbox_id (process_order env e o w)
  unfolding process_order
  process_order-Ends env e o w = choose-Ends e.inbox_id _ _ _ (try_finish-Ends env e w) (
      choose-Ends e.inbox_id (env.raises ingest) _ _ (try_fail-Ends env e _ w) (
        choose-Ends e.inbox_id _ _ _ (deplete_order-Ends env e.tenant_id _ e o _)
          (try_fail-Ends env e _ _)))

  process_fetched-Ends :
      (env : Env) (e : Event) (w : World) (x : Fetch) → Ends e.inbox_id (process_fetched env e w x)
  unfolding process_fetched
  process_fetched-Ends env e w not_connected = try_fail-Ends env e _ w
  process_fetched-Ends env e w unguarded = raised-Ends e.inbox_id w
  process_fetched-Ends env e w order_not_found = try_finish-Ends env e w
  process_fetched-Ends env e w (raised f) = try_fail-Ends env e f w
  process_fetched-Ends env e w (fetched o) =
      choose-Ends e.inbox_id (env.raises payload) _ _ (raised-Ends e.inbox_id w)
        (process_order-Ends env e o (save_payload e o w))

  process_saved-Ends :
      (env : Env) (e : Event) (w : World) (x : Option OrderData)
      → Ends e.inbox_id (process_saved env e w x)
  unfolding process_saved
  process_saved-Ends env e w none = process_fetched-Ends env e w (env.fetch e)
  process_saved-Ends env e w (some o) = process_order-Ends env e o w

  caught-AllSettled :
      (env : Env) (e : Event) (out : World × Bool)
      → env.raises handler ≡ false
      → Ends e.inbox_id out
      → ((caught env e out).1 ≡ true) × AllSettled e.inbox_id (caught env e out).0.events
  caught-AllSettled env e (w, true) quiet ends = (refl, ends refl)
  caught-AllSettled env e (w, false) quiet ends = rw quiet (refl, fail-AllSettled env e _ w)

  -- Whatever Clover answers and whichever transactions of process_event raise, its mark_processed
  -- and mark_failed included, one turn of the worker's loop returns, and leaves the event
  -- processed, failed or a dead letter, if the mark_failed of run's own handler does not raise.
  pub run_event-AllSettled :
      (env : Env) (e : Event) (w : World)
      → env.raises handler ≡ false
      → ((run_event env e w).1 ≡ true) × AllSettled e.inbox_id (run_event env e w).0.events
  unfolding run_event process_event
  run_event-AllSettled env e w quiet =
      caught-AllSettled env e (process_event env e w) quiet
        (process_saved-Ends env e w e.fetched_payload)
