-- ===== src/Inventory/Receipt/Commit.antt =====
-- commit_receipt of inventory/services.py: its gate, its lines, its state.
use reorder_os.Prelude.Finds.{find_updated}
use reorder_os.Prelude.{
  ℕ, ◌≡◌, refl, inl, inr, Bool, true, false, not, ◌&&◌, ◌||◌, some, List, [], ◌∷◌, any, find_first,
  select, Bool-cases, Option-cases, length, arith,
}
use reorder_os.Prelude.Result.{ok, err, Result-cases, AllOk, AllOk-bind}
use reorder_os.Prelude.Decimal.{Decimals}
use reorder_os.Receipts.{Receipt, ReceiptLine, Store, Source}
use reorder_os.Inventory.Receipt.{
  receipt_not_found, CommitResult, already_committed, newly_committed, is_intake, is_committed,
  is_movable, is_receipt_row, is_line_of, check_gate, commit_line, commit_lines,
  mark_receipt_committed, commit_open, commit_receipt,
}

-- The gate: something to move, and for an intake the confirmation with a correction or the
-- affirmation.
abbrev pub passes : Source → (confirm affirmation : Bool) → List ReceiptLine → Bool
passes source confirm affirmation lines =
    any is_movable lines
    && (not (is_intake source)
        || (confirm && (any (λ ln. ln.manually_corrected) lines || affirmation)))

check_gate-passes :
    (source : Source) (confirm affirmation : Bool) (lines : List ReceiptLine)
    → check_gate source confirm affirmation lines ≡ ok tt
    → passes source confirm affirmation lines ≡ true
unfolding check_gate
check_gate-passes source confirm affirmation lines h = elim (Bool-cases (any is_movable lines)) [
  | inl m ↦ ground arith
  | inr m ↦ ground arith
]

module _ ⦃dec : Decimals⦄ where
  commit_line-receipts :
      (tid item : ℕ) (ln : ReceiptLine) (s : Store)
      → AllOk (λ r. r.0.receipts ≡ s.receipts) (commit_line tid item ln s)
  unfolding commit_line
  commit_line-receipts tid item ln s = search AllOk-bind

  commit_lines-receipts :
      (tid : ℕ) (lns : List ReceiptLine) (s : Store)
      → AllOk (λ r. r.0.receipts ≡ s.receipts) (commit_lines tid lns s)
  unfolding commit_lines
  commit_lines-receipts tid [] s = refl
  commit_lines-receipts tid (ln ∷ lns) s = elim (Option-cases ln.inventory_item_id) [
    | inl n ↦ rw n (commit_lines-receipts tid lns s)
    | inr (item, y) ↦ elim (Result-cases (commit_line tid item ln s)) [
      | inl (e, c) ↦ rw (y, c) tt
      | inr ((s₁, id), c) ↦ elim (Result-cases (commit_lines tid lns s₁)) [
        | inl (e, d) ↦ rw (y, c, d) tt
        | inr ((s₂, ids'), d) ↦
            let first = commit_line-receipts tid item ln s in
            let then_rest = commit_lines-receipts tid lns s₁ in
            let first' : s₁.receipts ≡ s.receipts = (rw c at first) in
            let rest' : s₂.receipts ≡ s₁.receipts = (rw d at then_rest) in
            rw (y, c, d, rest') first'
      ]
    ]
  ]

  -- Every line that moves inventory gets its movement.
  commit_lines-length :
      (tid : ℕ) (lns : List ReceiptLine) (s : Store)
      → AllOk
          (λ r. length r.1 ≡ length (select is_movable lns))
          (commit_lines tid (select is_movable lns) s)
  unfolding commit_lines
  commit_lines-length tid [] s = refl
  commit_lines-length tid (ln ∷ lns) s = elim (Bool-cases (is_movable ln)) [
    | inr n ↦ rw n (commit_lines-length tid lns s)
    | inl m ↦ elim (Option-cases ln.inventory_item_id) [
      | inl n ↦ absurd (ground arith)
      | inr (item, y) ↦ elim (Result-cases (commit_line tid item ln s)) [
        | inl (e, c) ↦ rw (m, y, c) tt
        | inr ((s₁, id), c) ↦ elim (Result-cases (commit_lines tid (select is_movable lns) s₁)) [
          | inl (e, d) ↦ rw (m, y, c, d) tt
          | inr ((s₂, ids), d) ↦
              let rest = commit_lines-length tid lns s₁ in
              let rest' : length ids ≡ length (select is_movable lns) = (rw d at rest) in
              rw (m, y, c, d) (omega (arith, rest'))
        ]
      ]
    ]
  ]

  -- The receipt of a store is committed.
  abbrev pub IsSettled : (tid rid : ℕ) → Store → Type 0
  IsSettled tid rid s =
      (r : Receipt) × (find_first (is_receipt_row tid rid) s.receipts ≡ some r)
      × (is_committed r.commit_state ≡ true)

  mark-IsSettled :
      (tid rid : ℕ) (confirm affirmation : Bool) (source : Source) (s s' : Store) (r : Receipt)
      → find_first (is_receipt_row tid rid) s.receipts ≡ some r
      → s'.receipts ≡ s.receipts
      → IsSettled tid rid (mark_receipt_committed tid rid confirm affirmation source s')
  unfolding mark_receipt_committed
  mark-IsSettled tid rid confirm affirmation source s s' r found kept =
      rw kept (_, find_updated (is_receipt_row tid rid) _ (λ a h. h) s.receipts r found, refl)

  -- What a commit gives back: the gate was passed, one movement for each line that moves
  -- inventory, and the receipt is committed.
  pub record Committed (tid rid : ℕ) (confirm affirmation : Bool) (source : Source) (s : Store)
      (out : Store × CommitResult) : Type 0 where
    pub ids : List ℕ
    pub gate : passes source confirm affirmation (select (is_line_of tid rid) s.lines) ≡ true
    pub result : out.1 ≡ newly_committed ids (confirm && is_intake source)
    pub moved : length ids ≡ length (select is_movable (select (is_line_of tid rid) s.lines))
    pub settled : IsSettled tid rid out.0

  commit_open-Committed :
      (tid rid : ℕ) (confirm affirmation : Bool) (s : Store) (r : Receipt)
      → find_first (is_receipt_row tid rid) s.receipts ≡ some r
      → AllOk
          (Committed tid rid confirm affirmation r.source s)
          (commit_open tid rid confirm affirmation r.source s)
  unfolding commit_open
  commit_open-Committed tid rid confirm affirmation s r found =
      let lines = select (is_line_of tid rid) s.lines in
      elim (Result-cases (check_gate r.source confirm affirmation lines)) [
        | inl (e, g) ↦ rw g tt
        | inr (u, g) ↦ elim (Result-cases (commit_lines tid (select is_movable lines) s)) [
          | inl (e, c) ↦ rw (g, c) tt
          | inr ((s', ids), c) ↦
              let kept = commit_lines-receipts tid (select is_movable lines) s in
              let kept' : s'.receipts ≡ s.receipts = (rw c at kept) in
              let len = commit_lines-length tid lines s in
              let len' : length ids ≡ length (select is_movable lines) = (rw c at len) in
              rw (g, c)
                (record {
                  ids = ids;
                  gate = check_gate-passes r.source confirm affirmation lines g;
                  result = refl;
                  moved = len';
                  settled = mark-IsSettled tid rid confirm affirmation r.source s s' r found kept';
                })
        ]
      ]

  pub commit_receipt-Committed :
      (tid rid : ℕ) (confirm affirmation : Bool) (s s' : Store) (r : Receipt) (out : CommitResult)
      → find_first (is_receipt_row tid rid) s.receipts ≡ some r
      → is_committed r.commit_state ≡ false
      → commit_receipt tid rid confirm affirmation s ≡ ok (s', out)
      → Committed tid rid confirm affirmation r.source s (s', out)
  unfolding commit_receipt
  commit_receipt-Committed tid rid confirm affirmation s s' r out found fresh h =
      let all = commit_open-Committed tid rid confirm affirmation s r found in
      let h' : commit_open tid rid confirm affirmation r.source s ≡ ok (s', out) =
        (rw (commit_receipt, found, fresh) at h) in
      (rw h' at all)

  -- Once a commit of a receipt has returned, a further commit, with any arguments, changes nothing and
  -- answers that the receipt is already committed.
  pub commit_receipt_once :
      (tid rid : ℕ) (confirm affirmation confirm' affirmation' : Bool) (s s' : Store)
      (out : CommitResult)
      → commit_receipt tid rid confirm affirmation s ≡ ok (s', out)
      → commit_receipt tid rid confirm' affirmation' s' ≡ ok (s', already_committed)
  unfolding commit_receipt
  commit_receipt_once tid rid confirm affirmation confirm' affirmation' s s' out h =
      elim (Option-cases (find_first (is_receipt_row tid rid) s.receipts)) [
        | inl none_found ↦ absurd (
            let h' : err receipt_not_found ≡ ok (s', out) =
              (rw (commit_receipt, none_found) at h) in
            ground arith)
        | inr (r, found) ↦ elim (Bool-cases (is_committed r.commit_state)) [
          | inl done ↦
              let h' : ok (s, already_committed) ≡ ok (s', out) =
                (rw (commit_receipt, found, done) at h) in
              let same : s ≡ s' = cc (h') in
              let again : commit_receipt tid rid confirm' affirmation' s
                  ≡ ok (s, already_committed) =
                rw (commit_receipt, found, done) refl in
              rw same at again
          | inr fresh ↦
              let (r', found', done) =
                (commit_receipt-Committed tid rid confirm affirmation s s' r out found fresh
                  h).settled in
              rw (commit_receipt, found', done) refl
        ]
      ]
