-- ===== src/Receipts/Tests/Worker.antt =====
-- Runs of the extraction worker.
use reorder_os.Prelude.{
  ◌≡◌, refl, inl, true, false, none, some, List, [], ◌∷◌, str_eq, if◌then◌else◌, map, All, arith,
  select, any,
}
use reorder_os.Prelude.Int.{pos}
use reorder_os.Prelude.Result.{ok}
use reorder_os.Receipts.Jobs.{
  Job, JobStatus, Payload, RawLine, RateLimit, claim, is_claimable, has_job_id, charge_quota,
}
use reorder_os.Receipts.Jobs.Quota.{IsWithin, charge_quota-IsWithin}
use reorder_os.Receipts.Jobs.Leases.{IsFirst, claim_oldest}
use reorder_os.Receipts.Desk.{Desk, no_invoice}
use reorder_os.Receipts.Reset.{reset_extraction}
use reorder_os.Receipts.Reset.Fresh.{
  StartsOver, reset_extraction-StartsOver, reset_extraction-revokes,
}
use reorder_os.Receipts.Extraction.Payloads.{
  Coercions, not_finite, finite, finite_float, to_decimal,
}
use reorder_os.Receipts.Extraction.{Env, Office, clean, extracted, use_answer, process_job}
use reorder_os.Receipts.Extraction.Fenced.{IsAlone, process_job_lost}
use reorder_os.Receipts.Extraction.Poison.{use_answer_bad}
use reorder_os.Receipts.Tests.{paper, job, desk}

-- Numbers are read as "1" or not at all.
abbrev coercions : Coercions
coercions = record {
  str = λ s. s;
  decimal = λ s. if str_eq s "1" then finite (pos 10000) else not_finite;
  float = λ s. finite_float (pos 900);
  int = λ s. none;
  strip = λ s. s;
  one = 1000;
  low_confidence = 400;
}

abbrev raw : RawLine
raw = record {
  name = some "Flour";
  qty = some "1";
  unit = some "kg";
  unit_price_cents = none;
  confidence = some "0.9";
}

abbrev payload : List RawLine → Payload
payload raws = record {
  document_type = some "invoice";
  lines = some (map some raws);
  invoice = no_invoice;
}

abbrev env : Env
env = record {
  download = λ r. clean;
  extract = λ r. extracted (payload (raw ∷ []));
  coercions = coercions;
  cut = λ s. s;
}

abbrev office : Office
office = record { desk = desk; limits = [] }

-- Worker 91 comes to the job that worker 90 holds.
process_job_lost_example : IsAlone (λ d. d) office (process_job env (λ d. d) 91 job office)
process_job_lost_example = process_job_lost env 91 job (λ d. d) office refl refl

reset_extraction-StartsOver_example :
    (d' : Desk) × (reset_extraction 1 40 true desk ≡ ok (d', 50)) × StartsOver 1 40 desk d' paper
reset_extraction-StartsOver_example = reset_extraction-StartsOver 1 40 desk paper refl refl

reset_extraction-revokes_example :
    (d' : Desk) × (reset_extraction 1 40 true desk ≡ ok (d', 50))
    × (let o =
          use_answer env 90 job
            (extracted (payload (raw ∷ [])))
            (record { desk = d'; limits = [] })
            (record { desk = d'; limits = [] }) in
        (o.desk ≡ d') × (o.limits ≡ []))
reset_extraction-revokes_example =
    reset_extraction-revokes 1 40 env 90 job (extracted (payload (raw ∷ []))) [] [] desk paper refl
      refl ((λ h. refl), tt)

-- The second line of the answer has no quantity.
use_answer_bad_example :
    use_answer env 90 job (extracted (payload (raw ∷ record raw { qty = none } ∷ []))) office office
    ≡ office
unfolding to_decimal
use_answer_bad_example =
    use_answer_bad env 90 job (payload (raw ∷ record raw { qty = none } ∷ [])) office office refl
      refl refl refl

abbrev younger : Job
younger = record job { id = 38; status = JobStatus.pending; lease_token = none; created_at = 950 }

abbrev waiting : List Job
waiting = younger ∷ record younger { id = 37; created_at = 900 } ∷ job ∷ []

waiting-any : any (is_claimable 2000) waiting ≡ true
unfolding is_claimable
waiting-any = refl

claim_oldest_example :
    (j : Job) × ((claim 2000 92 waiting).1 ≡ some j)
    × IsFirst 2000 j waiting
    × All (λ x. is_claimable 3000 x ≡ false) (select (has_job_id j.id) (claim 2000 92 waiting).0)
claim_oldest_example = claim_oldest 2000 3000 92 waiting waiting-any (omega arith)

abbrev full : RateLimit
full = record { tenant_id = 1; daily_cap = 2; jobs_today = 2; window_started_at = some 0 }

charge_quota-IsWithin_example : All IsWithin (charge_quota 1000 1 (full ∷ [])).0
charge_quota-IsWithin_example = charge_quota-IsWithin 1000 1 (full ∷ []) (inl (omega arith), tt)

-- The cap is reached today, and not tomorrow.
charge_quota-run : (charge_quota 1000 1 (full ∷ [])).1 ≡ none
unfolding charge_quota
charge_quota-run = refl

charge_quota-tomorrow : (charge_quota 86400001000 1 (full ∷ [])).1 ≡ some 1
unfolding charge_quota
charge_quota-tomorrow = refl
