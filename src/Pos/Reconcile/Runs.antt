-- ===== src/Pos/Reconcile/Runs.antt =====
-- What a scan of pos/reconciliation.py reads: its pages as a relation, and its highest cursor.
use reorder_os.Prelude.{
  ℕ, zero, suc, ◌+◌, ◌≡◌, refl, ap, ◌∙◌, inl, inr, Bool, true, false, ◌&&◌, none, some, List, [],
  ◌∷◌, ◌++◌, arith, any, length, ltb, if◌then◌else◌, Bool-cases, Option-cases,
}
use reorder_os.Pos.Payment.{OrderData}
use reorder_os.Pos.Reconcile.{
  ListOrders, batch_size, Scan, safe_ms, is_locked_order, store_order, store_page, scan,
}

abbrev pub max : ℕ → ℕ → ℕ
max a b = if ltb a b then b else a

-- The highest modifiedTime of the locked orders, or the cursor.
unfoldable pub highest : ℕ → List OrderData → ℕ
highest cursor [] = cursor
highest cursor (o ∷ os) =
    let rest = highest cursor os in
    if is_locked_order o then max rest (safe_ms o.modified_ms) else rest

-- The orders that a scan from an offset reads, and whether every call returned: the calls of Clover
-- page by page, up to a page that is not full or the last that is allowed, and the insert of each
-- locked order.
pub data Run (raises : OrderData → Bool) (list_orders : ListOrders) (start : ℕ)
    : (pages offset : ℕ) → List OrderData → Bool → Type 0 where
  capped : {offset : ℕ} → Run raises list_orders start zero offset [] true
  refused :
      {pages offset : ℕ}
      → list_orders start offset batch_size ≡ none
      → Run raises list_orders start (suc pages) offset [] false
  broken :
      {pages offset : ℕ} {os : List OrderData}
      → list_orders start offset batch_size ≡ some os
      → any (λ o. is_locked_order o && raises o) os ≡ true
      → Run raises list_orders start (suc pages) offset os false
  last :
      {pages offset : ℕ} {os : List OrderData}
      → list_orders start offset batch_size ≡ some os
      → any (λ o. is_locked_order o && raises o) os ≡ false
      → ltb (length os) batch_size ≡ true
      → Run raises list_orders start (suc pages) offset os true
  next :
      {pages offset : ℕ} {os more : List OrderData} {returned : Bool}
      → list_orders start offset batch_size ≡ some os
      → any (λ o. is_locked_order o && raises o) os ≡ false
      → ltb (length os) batch_size ≡ false
      → Run raises list_orders start pages (offset + batch_size) more returned
      → Run raises list_orders start (suc pages) offset (os ++ more) returned

highest-max : (c m : ℕ) (os : List OrderData) → highest (max c m) os ≡ max (highest c os) m
unfolding highest
highest-max c m [] = refl
highest-max c m (o ∷ os) = elim (Bool-cases (is_locked_order o)) [
  | inl y ↦ rw (y, highest-max c m os) (max_swap (highest c os) m (safe_ms o.modified_ms))
  | inr n ↦ rw n (highest-max c m os)
]
  where
    max_swap : (a b d : ℕ) → max (max a b) d ≡ max (max a d) b
    max_swap a b d = ground arith

-- A later page goes on from the cursor of the earlier.
highest-append : (c : ℕ) (xs ys : List OrderData) → highest (highest c xs) ys ≡ highest c (xs ++ ys)
unfolding highest
highest-append c [] ys = refl
highest-append c (o ∷ xs) ys = elim (Bool-cases (is_locked_order o)) [
  | inl y ↦ rw y (
      highest-max (highest c xs) (safe_ms o.modified_ms) ys
      ∙ ap (λ n. max n (safe_ms o.modified_ms)) (highest-append c xs ys))
  | inr n ↦ rw n (highest-append c xs ys)
]

module _ (raises : OrderData → Bool) (now tid : ℕ) where
  store_page-lem :
      (os : List OrderData) (s : Scan)
      → any (λ o. is_locked_order o && raises o) os ≡ false
      → ((store_page raises now tid os s).1 ≡ true)
        × ((store_page raises now tid os s).0.new_cursor ≡ highest s.new_cursor os)
  unfolding store_page store_order highest
  store_page-lem [] s h = (refl, refl)
  store_page-lem (o ∷ os) s h = elim (Bool-cases (is_locked_order o)) [
    | inl y ↦
        let quiet : raises o ≡ false = ground arith in
        let rest : any (λ x. is_locked_order x && raises x) os ≡ false = ground arith in
        let ih = store_page-lem os (store_order raises now tid o s).0 rest in
        rw (y, quiet)
          (rw (y, quiet) at ih.0, (rw (y, quiet) at ih.1) ∙ highest-max s.new_cursor _ os)
    | inr n ↦
        let rest : any (λ x. is_locked_order x && raises x) os ≡ false = ground arith in
        rw n (store_page-lem os s rest)
  ]

  store_page_raised :
      (os : List OrderData) (s : Scan)
      → any (λ o. is_locked_order o && raises o) os ≡ true
      → (store_page raises now tid os s).1 ≡ false
  unfolding store_page store_order
  store_page_raised [] s h = absurd (ground arith)
  store_page_raised (o ∷ os) s h = elim (Bool-cases (is_locked_order o)) [
    | inl y ↦ elim (Bool-cases (raises o)) [
      | inl r ↦ rw (y, r) refl
      | inr q ↦
          let rest : any (λ x. is_locked_order x && raises x) os ≡ true = (rw (y, q) at h) in
          rw (y, q) (store_page_raised os _ rest)
    ]
    | inr n ↦
        let rest : any (λ x. is_locked_order x && raises x) os ≡ true = (rw n at h) in
        rw n (store_page_raised os s rest)
  ]

-- A scan is a run: it returns as the run does, and then holds the highest cursor.
pub record Scanned (raises : OrderData → Bool) (list_orders : ListOrders)
    (start pages offset cursor : ℕ) (out : Scan × Bool) : Type 0 where
  pub orders : List OrderData
  pub run : Run raises list_orders start pages offset orders out.1
  pub cursor_of : out.1 ≡ true → out.0.new_cursor ≡ highest cursor orders

module _ (raises : OrderData → Bool) (list_orders : ListOrders) (now tid start : ℕ) where
  pub scan-Scanned :
      (pages offset : ℕ) (s : Scan)
      → Scanned raises list_orders start pages offset s.new_cursor
          (scan raises pages list_orders now tid start offset s)
  unfolding scan highest
  scan-Scanned zero offset s = record { orders = []; run = capped; cursor_of = λ h. refl }
  scan-Scanned (suc pages) offset s = elim (Option-cases (list_orders start offset batch_size)) [
    | inl gone ↦
        rw (gone, scan)
          (record { orders = []; run = refused gone; cursor_of = λ h. absurd (ground arith) })
    | inr (os, page) ↦ elim (Bool-cases (any (λ o. is_locked_order o && raises o) os)) [
      | inl bad ↦
          rw (page, scan, store_page_raised raises now tid os s bad)
            (record { orders = os; run = broken page bad; cursor_of = λ h. absurd (ground arith) })
      | inr quiet ↦
          let stored = store_page-lem raises now tid os s quiet in
          let s' = (store_page raises now tid os s).0 in
          let rest = scan-Scanned pages (offset + batch_size) s' in
          elim (Bool-cases (ltb (length os) batch_size)) [
            | inl short ↦
                rw (page, scan, stored.0, short)
                  (record { orders = os; run = last page quiet short; cursor_of = λ h. stored.1 })
            | inr full ↦
                rw (page, scan, stored.0, full)
                  (record {
                    orders = os ++ rest.orders;
                    run = next page quiet full rest.run;
                    cursor_of = λ h.
                        rest.cursor_of h
                        ∙ ap (λ c. highest c rest.orders) stored.1
                        ∙ highest-append s.new_cursor os rest.orders;
                  })
          ]
    ]
  ]
