-- ===== src/FinancialYear/Label.antt =====
-- The label of a financial year is that of exactly the dates from April to the next March.
use crossbill_back.Base.{
  ℕ, ◌+◌, ◌%◌, ◌≤◌, ◌<◌, ◌≡◌, ◌↔◌, ◌⊎◌, ap, sym, ◌∙◌, ◌++◌, ◌∷◌, [], arith, All,
}
use crossbill_back.Base.Text.{Text, pad_start, Lacks, split_unique}
use crossbill_back.Base.Decimal.{decimal, read, read-decimal, All-decimal}
use crossbill_back.FinancialYear.{Date, start_year, financial_year_of}

-- The date lies between 1 April of the year `y` and 31 March of the next.
abbrev pub InYear : ℕ → Date → Type 0
InYear y d = ((d.year ≡ y) × (3 ≤ d.month)) ⊎ ((d.year ≡ y + 1) × (d.month < 3))

-- '2026-27' for 2026.
abbrev pub label : ℕ → Text
label y = decimal y ++ b'-' ∷ pad_start 2 (decimal ((y + 1) % 100))

digits-Lacks_dash : (s : Text) → All (λ c. b'0' ≤ c) s → Lacks b'-' s
digits-Lacks_dash [] h = tt
digits-Lacks_dash (c ∷ s) h = (λ e. omega arith, digits-Lacks_dash s h.1)

pub label-injective : (y z : ℕ) → label y ≡ label z → y ≡ z
label-injective y z e =
    let plain = λ (n : ℕ). digits-Lacks_dash (decimal n) (All-decimal n) in
    sym (read-decimal y)
    ∙ ap read (split_unique b'-' (decimal y) (decimal z) _ _ (plain y) (plain z) e).0
    ∙ read-decimal z

start_year_iff : (d : Date) (y : ℕ) → 1 ≤ d.year → (start_year d ≡ y) ↔ InYear y d
unfolding start_year
start_year_iff d y h = ground arith

-- A date after the year 0 has the label of the financial year that begins in `y` exactly when it lies
-- between 1 April `y` and the next 31 March; in particular two dates share a label exactly when they
-- lie in the same such year.
pub financial_year_of_iff :
    (d : Date) (y : ℕ) → 1 ≤ d.year → (financial_year_of d ≡ label y) ↔ InYear y d
unfolding financial_year_of
financial_year_of_iff d y h = (
  λ e. (start_year_iff d y h).0 (label-injective (start_year d) y e),
  λ w. ap label ((start_year_iff d y h).1 w),
)
