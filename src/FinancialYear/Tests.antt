-- ===== src/FinancialYear/Tests.antt =====
-- The two sides of 1 April.
use crossbill_back.Base.{◌≡◌, ◌↔◌, refl, arith}
use crossbill_back.Base.Text.{codes}
use crossbill_back.Base.Decimal.{decimal}
use crossbill_back.FinancialYear.{Date, financial_year_of, fema_due_date}
use crossbill_back.FinancialYear.Label.{InYear, label, financial_year_of_iff}

abbrev last_of_march : Date
last_of_march = record { year = 2026; month = 2; day = 31 }

abbrev first_of_april : Date
first_of_april = record { year = 2026; month = 3; day = 1 }

boundary :
    (financial_year_of last_of_march ≡ codes "2025-26")
    × (financial_year_of first_of_april ≡ codes "2026-27")
unfolding financial_year_of decimal
boundary = (refl, refl)

financial_year_of_iff_example :
    (financial_year_of first_of_april ≡ label 2026) ↔ InYear 2026 first_of_april
financial_year_of_iff_example = financial_year_of_iff first_of_april 2026 (omega arith)

leap_day :
    fema_due_date (record { year = 2028; month = 1; day = 29 })
    ≡ record { year = 2029; month = 2; day = 1 }
unfolding fema_due_date
leap_day = refl
