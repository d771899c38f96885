-- ===== src/Receipts/Jobs/Leases.antt =====
-- The claim of a job and the fence of its lease (receipts/extraction_worker.py).
use reorder_os.Prelude.{
  ℕ, ◌≤◌, ◌+◌, ◌≡◌, refl, inl, inr, true, false, ◌&&◌, Option, none, some, List, [], ◌∷◌, All,
  arith, any, select, ltb, update_where, Bool-cases,
}
use reorder_os.Prelude.Finds.{update_where_none}
use reorder_os.Receipts.Jobs.{
  Job, lease_ttl, is_claimable, oldest, has_job_id, stamp, claim, holds_lease, fenced,
}

-- The winner so far stays at most as young.
abbrev pub IsFirst : ℕ → Job → List Job → Type 0
IsFirst now j = All (λ x. is_claimable now x ≡ true → j.created_at ≤ x.created_at)

abbrev pub IsBest : Job → Option Job → Type 0
IsBest j none = Unit
IsBest j (some b) = j.created_at ≤ b.created_at

oldest-IsBest :
    (now : ℕ) (best : Option Job) (js : List Job) (j : Job)
    → oldest now best js ≡ some j
    → IsBest j best × IsFirst now j js
unfolding oldest
oldest-IsBest now none [] j h = absurd (ground arith)
oldest-IsBest now (some b) [] j h = let same : b ≡ j = cc (h) in (rw same (omega arith), tt)
oldest-IsBest now none (x ∷ xs) j h = elim (Bool-cases (is_claimable now x)) [
  | inl y ↦
      let h' : oldest now (some x) xs ≡ some j = (rw y at h) in
      let rest = oldest-IsBest now (some x) xs j h' in (tt, ((λ k. rest.0), rest.1))
  | inr n ↦
      let h' : oldest now none xs ≡ some j = (rw n at h) in
      let rest = oldest-IsBest now none xs j h' in (tt, ((λ k. absurd (ground arith)), rest.1))
]
oldest-IsBest now (some b) (x ∷ xs) j h =
    elim (Bool-cases (is_claimable now x && ltb x.created_at b.created_at)) [
      | inl y ↦
          let h' : oldest now (some x) xs ≡ some j = (rw y at h) in
          let rest = oldest-IsBest now (some x) xs j h' in
          (ground (arith, rest.0), ((λ k. rest.0), rest.1))
      | inr n ↦
          let h' : oldest now (some b) xs ≡ some j = (rw n at h) in
          let rest = oldest-IsBest now (some b) xs j h' in
          (rest.0, ((λ k. ground (arith, rest.0)), rest.1))
    ]

oldest-some : (now : ℕ) (b : Job) (js : List Job) → (j : Job) × (oldest now (some b) js ≡ some j)
unfolding oldest
oldest-some now b [] = (b, refl)
oldest-some now b (x ∷ xs) =
    elim (Bool-cases (is_claimable now x && ltb x.created_at b.created_at)) [
      | inl y ↦ rw y (oldest-some now x xs)
      | inr n ↦ rw n (oldest-some now b xs)
    ]

oldest-any :
    (now : ℕ) (js : List Job)
    → any (is_claimable now) js ≡ true
    → (j : Job) × (oldest now none js ≡ some j)
unfolding oldest
oldest-any now [] h = absurd (ground arith)
oldest-any now (x ∷ xs) h = elim (Bool-cases (is_claimable now x)) [
  | inl y ↦ rw y (oldest-some now x xs)
  | inr n ↦ let h' : any (is_claimable now) xs ≡ true = (rw n at h) in rw n (oldest-any now xs h')
]

stamp-busy :
    (now now' token : ℕ) (j : Job)
    → now' ≤ now + lease_ttl
    → is_claimable now' (stamp now token j) ≡ false
unfolding stamp is_claimable
stamp-busy now now' token j h = ground arith

-- The rows of a job that was stamped are busy.
stamped-busy :
    (now now' token id : ℕ) (js : List Job)
    → now' ≤ now + lease_ttl
    → All
        (λ x. is_claimable now' x ≡ false)
        (select (has_job_id id) (update_where (has_job_id id) (stamp now token) js))
unfolding stamp
stamped-busy now now' token id [] h = tt
stamped-busy now now' token id (j ∷ js) h = elim (Bool-cases (has_job_id id j)) [
  | inl y ↦
      let kept : has_job_id id (stamp now token j) ≡ true = y in
      rw (y, kept) (stamp-busy now now' token j h, stamped-busy now now' token id js h)
  | inr n ↦ rw (n, n) (stamped-busy now now' token id js h)
]

-- While some job is claimable a claim takes one. No claimable job is older than the one that it
-- takes, and that job is claimable by no worker before its lease has expired.
pub claim_oldest :
    (now now' token : ℕ) (jobs : List Job)
    → any (is_claimable now) jobs ≡ true
    → now' ≤ now + lease_ttl
    → (j : Job) × ((claim now token jobs).1 ≡ some j)
      × IsFirst now j jobs
      × All (λ x. is_claimable now' x ≡ false) (select (has_job_id j.id) (claim now token jobs).0)
unfolding claim stamp
claim_oldest now now' token jobs h soon =
    let (j, found) = oldest-any now jobs h in
    rw (claim, found)
      (
        stamp now token j,
        refl,
        (oldest-IsBest now none jobs j found).1,
        stamped-busy now now' token j.id jobs soon,
      )

-- A fenced write without the lease writes nothing, and says so.
pub fenced_lost :
    (jid token : ℕ) (f : Job → Job) (jobs : List Job)
    → any (holds_lease jid token) jobs ≡ false
    → fenced jid token f jobs ≡ (jobs, false)
unfolding fenced
fenced_lost jid token f jobs h = rw (h, update_where_none (holds_lease jid token) f jobs h) refl
