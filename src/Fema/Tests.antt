-- ===== src/Fema/Tests.antt =====
-- Aging on concrete dates.
use crossbill_back.Base.{◌≡◌, ◌*◌, ◌↔◌, refl}
use crossbill_back.FinancialYear.{Date}
use crossbill_back.Fema.{aging_of, months_elapsed, ms_per_day, critical, days_to_due, pos}
use crossbill_back.Fema.Buckets.{InBucket, bucket_iff}

abbrev sent : Date
sent = record { year = 2025; month = 5; day = 15 }

abbrev today : Date
today = record { year = 2026; month = 4; day = 14 }

part_of_a_day : days_to_due 86400001 0 ≡ pos 2
unfolding days_to_due
part_of_a_day = refl

ten_months : months_elapsed sent today ≡ 10
unfolding months_elapsed
ten_months = refl

bucket_iff_example :
    ((aging_of sent (40 * ms_per_day) (11 * ms_per_day) today).bucket ≡ critical)
    ↔ InBucket critical (40 * ms_per_day) (11 * ms_per_day)
bucket_iff_example = bucket_iff sent today (40 * ms_per_day) (11 * ms_per_day) critical
