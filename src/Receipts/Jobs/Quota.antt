-- ===== src/Receipts/Jobs/Quota.antt =====
-- The daily cap of _charge_quota (receipts/extraction_worker.py).
use reorder_os.Prelude.{
  ℕ, ◌≤◌, ◌/◌, ◌≡◌, refl, ◌⊎◌, inl, inr, true, false, none, some, List, All, arith, find_first, ltb,
  Bool-cases, Option-cases,
}
use reorder_os.Prelude.Finds.{update_where-All}
use reorder_os.Receipts.Jobs.{
  RateLimit, day, has_tenant, is_before, may_charge, charged, charge_quota,
}

-- The first charge of a day is never refused, whatever the cap.
abbrev pub IsWithin : RateLimit → Type 0
IsWithin r = (r.jobs_today ≤ r.daily_cap) ⊎ (r.jobs_today ≤ 1)

charged-IsWithin :
    (today : ℕ) (r : RateLimit) → may_charge today r ≡ true → IsWithin (charged today r)
charged-IsWithin today r h = elim (Bool-cases (is_before today r.window_started_at)) [
  | inl y ↦ inr (rw y (omega arith))
  | inr n ↦ let h' : ltb r.jobs_today r.daily_cap ≡ true = (rw n at h) in inl (rw n (ground arith))
]

-- Charging a job keeps every tenant's count of the day at most the cap, or at one.
pub charge_quota-IsWithin :
    (now tid : ℕ) (limits : List RateLimit)
    → All IsWithin limits
    → All IsWithin (charge_quota now tid limits).0
unfolding charge_quota
charge_quota-IsWithin now tid limits h = elim (Option-cases (find_first (has_tenant tid) limits)) [
  | inl n ↦ rw (charge_quota, n) (inr (omega arith), h)
  | inr (r, y) ↦ elim (Bool-cases (may_charge (now / day) r)) [
    | inl m ↦
        rw (charge_quota, y, m)
          (update_where-All IsWithin _ (charged (now / day))
            (λ r' p k. charged-IsWithin (now / day) r' (ground arith)) limits h)
    | inr m ↦ rw (charge_quota, y, m) h
  ]
]

-- A charge is refused exactly where the tenant has a row of this day or of none, and its count has
-- reached the cap; it then writes nothing.
pub charge_quota_refused :
    (now tid : ℕ) (limits : List RateLimit) (r : RateLimit)
    → find_first (has_tenant tid) limits ≡ some r
    → is_before (now / day) r.window_started_at ≡ false
    → r.daily_cap ≤ r.jobs_today
    → charge_quota now tid limits ≡ (limits, none)
unfolding charge_quota
charge_quota_refused now tid limits r found today full =
    let m : may_charge (now / day) r ≡ false = rw today (ground arith) in
    rw (charge_quota, found, m) refl
