-- ===== src/Fema/Buckets.antt =====
-- The buckets and the elapsed months, as conditions on the calendar.
use crossbill_back.Base.{ℕ, ◌+◌, ◌*◌, ◌≤◌, ◌<◌, ◌≡◌, ◌↔◌, ◌⊎◌, arith}
use crossbill_back.FinancialYear.{Date}
use crossbill_back.Fema.{
  FemaBucket, overdue, critical, urgent, watch, ontrack, months_elapsed, aging_of, month_count,
  ms_per_day,
}

-- Which bucket the time left to the due instant calls for.
abbrev pub InBucket : FemaBucket → ℕ → ℕ → Type 0
InBucket overdue due now = due ≤ now
InBucket critical due now = (now < due) × (due ≤ now + 30 * ms_per_day)
InBucket urgent due now = (now + 30 * ms_per_day < due) × (due ≤ now + 60 * ms_per_day)
InBucket watch due now = (now + 60 * ms_per_day < due) × (due ≤ now + 90 * ms_per_day)
InBucket ontrack due now = now + 90 * ms_per_day < due

-- An invoice is in a bucket exactly when the time left to its due instant is in the bucket's range:
-- past, up to 30, 60 or 90 days of 24 hours, or more.
pub bucket_iff :
    (invoice_date now_date : Date) (due now : ℕ) (b : FemaBucket)
    → ((aging_of invoice_date due now now_date).bucket ≡ b) ↔ InBucket b due now
unfolding aging_of
bucket_iff invoice_date now_date due now overdue = ground arith
bucket_iff invoice_date now_date due now _ = ground arith

-- At least `k` months have passed since the invoice exactly when its date moved on by `k` calendar
-- months is not after the date of today, comparing months and then days; 0 months always have.
pub months_elapsed_iff :
    (d0 now : Date) (k : ℕ)
    → (k ≤ months_elapsed d0 now) ↔ (
        (k ≡ 0)
        ⊎ (month_count d0 + k < month_count now)
        ⊎ ((month_count d0 + k ≡ month_count now) × (d0.day ≤ now.day)))
unfolding months_elapsed
months_elapsed_iff d0 now k = ground arith
