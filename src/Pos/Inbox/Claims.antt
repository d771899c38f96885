-- ===== src/Pos/Inbox/Claims.antt =====
-- claim_batch and mark_failed of pos/worker.py.
use reorder_os.Prelude.{
  ℕ, ◌+◌, ◌≤◌, ◌≡◌, refl, sym, ap, subst, inl, inr, true, false, List, [], ◌∷◌, arith, All, map,
  select, update_where, leb, ◌==◌, String, Bool-cases,
}
use reorder_os.Pos.Inbox.{
  Event, Queue, claim_ttl, max_retries, is_claimable, choose, mark_claimed, claim_batch,
  has_inbox_id, is_chosen, mark_failed, dead_letter_event,
}

mark_claimed-busy :
    (now now' : ℕ) (e : Event)
    → now' ≤ now + claim_ttl
    → is_claimable now' (mark_claimed now e) ≡ false
unfolding mark_claimed is_claimable
mark_claimed-busy now now' e h = ground arith

-- The UPDATE of a claim leaves the ids, so what RETURNING gives are the rows as they then stand.
claimed_rows :
    (now : ℕ) (chosen es : List Event)
    → select (is_chosen chosen) (update_where (is_chosen chosen) (mark_claimed now) es)
      ≡ map (mark_claimed now) (select (is_chosen chosen) es)
unfolding mark_claimed
claimed_rows now chosen [] = refl
claimed_rows now chosen (e ∷ es) = elim (Bool-cases (is_chosen chosen e)) [
  | inl y ↦ rw (y, y) (ap (λ l. mark_claimed now e ∷ l) (claimed_rows now chosen es))
  | inr n ↦ rw (n, n) (claimed_rows now chosen es)
]

claimed-busy :
    (now now' : ℕ)
    → now' ≤ now + claim_ttl
    → (xs : List Event) → All (λ e. is_claimable now' e ≡ false) (map (mark_claimed now) xs)
claimed-busy now now' h [] = tt
claimed-busy now now' h (x ∷ xs) = (mark_claimed-busy now now' x h, claimed-busy now now' h xs)

-- The rows of the inbox that a claim chose are, in the table that it leaves, not claimable at any
-- time up to the end of the claim, and they are the rows that it returns.
pub claim_batch_exclusive :
    (now now' batch : ℕ) (es : List Event)
    → now' ≤ now + claim_ttl
    → let rows = select (is_chosen (choose now batch es)) (claim_batch now batch es).0 in
      All (λ e. is_claimable now' e ≡ false) rows × ((claim_batch now batch es).1 ≡ rows)
unfolding claim_batch
claim_batch_exclusive now now' batch es h =
    let chosen = choose now batch es in
    let same = claimed_rows now chosen es in
    (
      subst (All (λ e. is_claimable now' e ≡ false)) (sym same)
          (claimed-busy now now' h (select (is_chosen chosen) es)),
      sym same,
    )

busy_after :
    (now id : ℕ) (f : Event → Event)
    → ((e : Event) → is_claimable now (f e) ≡ false)
    → ((e : Event) → has_inbox_id id e ≡ true → has_inbox_id id (f e) ≡ true)
    → (es : List Event)
    → All
        (λ e. is_claimable now e ≡ false)
        (select (has_inbox_id id) (update_where (has_inbox_id id) f es))
busy_after now id f busy kept [] = tt
busy_after now id f busy kept (e ∷ es) = elim (Bool-cases (e.inbox_id == id)) [
  | inl y ↦ rw (y, kept e y) (busy e, busy_after now id f busy kept es)
  | inr n ↦ rw (n, n) (busy_after now id f busy kept es)
]

-- After the attempt on an event failed, its row is claimable at no time, whatever its backoff.
pub mark_failed_never_claimable :
    (cut cut_short : String → String) (now now' : ℕ) (e : Event) (error : String) (q : Queue)
    → All
        (λ x. is_claimable now' x ≡ false)
        (select (has_inbox_id e.inbox_id) (mark_failed cut cut_short now e error q).events)
unfolding mark_failed dead_letter_event is_claimable
mark_failed_never_claimable cut cut_short now now' e error q =
    elim (Bool-cases (leb max_retries (e.retry_count + 1))) [
      | inl y ↦ rw y (busy_after now' e.inbox_id _ (λ x. refl) (λ x h. h) q.events)
      | inr n ↦ rw n (busy_after now' e.inbox_id _ (λ x. refl) (λ x h. h) q.events)
    ]
