-- ===== src/FinancialYear.antt =====
-- The Indian financial year and the FEMA clock: api/src/common/constants/financial-year.ts. A `Date`
-- is what its UTC getters return; months count from 0 for January.
pub mod Label
mod Tests
use crossbill_back.Base.{
  ℕ, ◌+◌, ◌-◌, ◌*◌, ◌%◌, Bool, List, [], ◌∷◌, ◌++◌, ◌==◌, leb, not, ◌&&◌, ◌||◌, if◌then◌else◌,
}
use crossbill_back.Base.Text.{Text, codes, pad_start}
use crossbill_back.Base.Decimal.{decimal}

pub record Date : Type 0 where
  pub year : ℕ
  pub month : ℕ
  pub day : ℕ

-- `startYear`.
unfoldable pub start_year : Date → ℕ
start_year d = if leb 3 d.month then d.year else d.year - 1

unfoldable pub financial_year_of : Date → Text
unfolding start_year
financial_year_of d =
    let start = start_year d in decimal start ++ b'-' ∷ pad_start 2 (decimal ((start + 1) % 100))

abbrev pub is_leap : ℕ → Bool
is_leap y = (y % 4 == 0 && not (y % 100 == 0)) || y % 400 == 0

-- `d.setUTCFullYear(d.getUTCFullYear() + 1)`: 29 February runs over into March of a common year.
unfoldable pub fema_due_date : Date → Date
fema_due_date d =
    if d.month == 1 && d.day == 29 && not (is_leap (d.year + 1))
    then record { year = d.year + 1; month = 2; day = 1 }
    else record d { year = d.year + 1 }
