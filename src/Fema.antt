-- ===== src/Fema.antt =====
-- FEMA aging: api/src/common/constants/fema.ts. An instant is its milliseconds since 1970.
pub mod Buckets
mod Tests
use crossbill_back.Base.{
  ℕ, zero, suc, ◌+◌, ◌-◌, ◌*◌, ◌/◌, Bool, List, [], ◌∷◌, String, leb, ltb, if◌then◌else◌,
}
use crossbill_back.FinancialYear.{Date}

-- `negsuc n` is -(n + 1).
pub data ℤ : Type 0 where
  pos : ℕ → ℤ
  negsuc : ℕ → ℤ

-- `n <= k`.
abbrev pub le_const : ℤ → ℕ → Bool
le_const (pos n) k = leb n k
le_const (negsuc n) k = leb 0 k

abbrev pub negate : ℕ → ℤ
negate zero = pos 0
negate (suc n) = negsuc n

pub data FemaBucket : Type 0 where
  overdue critical urgent watch ontrack : FemaBucket

pub record FemaAging : Type 0 where
  pub days_to_due : ℤ
  pub months_elapsed : ℕ
  pub bucket : FemaBucket

abbrev pub ms_per_day : ℕ
ms_per_day = 86400000

-- `Math.ceil((due - now) / MS_PER_DAY)`, rounding towards the later day on both sides of 0.
unfoldable pub days_to_due : ℕ → ℕ → ℤ
days_to_due due now =
    if leb now due
    then pos ((due - now + (ms_per_day - 1)) / ms_per_day)
    else negate ((now - due) / ms_per_day)

-- The months of a date since the year 0.
abbrev pub month_count : Date → ℕ
month_count d = d.year * 12 + d.month

-- `Math.max(0, months)`: subtraction on ℕ stops at 0, which is where the code cuts off.
unfoldable pub months_elapsed : Date → Date → ℕ
months_elapsed d0 now =
    let months = month_count now - month_count d0 in
    if ltb now.day d0.day then months - 1 else months

unfoldable pub bucket_for : ℤ → FemaBucket
bucket_for days =
    if le_const days 0
    then overdue
    else if le_const days 30
    then critical
    else if le_const days 60
    then urgent
    else if le_const days 90
    then watch
    else ontrack

-- An invoice's date and the instant of its due date, at an instant and its date.
unfoldable pub aging_of : Date → ℕ → ℕ → Date → FemaAging
unfolding days_to_due months_elapsed bucket_for
aging_of invoice_date fema_due now now_date =
    let days = days_to_due fema_due now in
    record {
      days_to_due = days;
      months_elapsed = months_elapsed invoice_date now_date;
      bucket = bucket_for days;
    }

pub record Threshold : Type 0 where
  pub key : String
  pub months : ℕ
  pub label : String

-- `REMINDER_THRESHOLDS`.
unfoldable pub reminder_thresholds : List Threshold
reminder_thresholds =
    record { key = "9m"; months = 9; label = "3 months to FEMA realisation deadline" }
    ∷ record { key = "10m"; months = 10; label = "2 months to FEMA realisation deadline" }
    ∷ record { key = "11m"; months = 11; label = "1 month to FEMA realisation deadline" }
    ∷ record { key = "overdue"; months = 12; label = "FEMA realisation deadline reached" }
    ∷ []
