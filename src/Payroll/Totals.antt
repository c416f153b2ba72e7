-- ===== src/Payroll/Totals.antt =====
-- The figures of a slip.
use crossbill_back.Base.{
  ℕ, ◌+◌, ◌-◌, ◌<◌, ◌≤◌, ◌≡◌, refl, ◌∙◌, arith, inl, inr, Bool-cases, ltb, some, none, Option,
  get_or,
}
use crossbill_back.Base.Text.{Text}
use crossbill_back.Base.Money.{cents_of, fixed2, cents_of-fixed2}
use crossbill_back.Base.Http.{ok, err, bad_request}
use crossbill_back.Payroll.Defs.{
  Components, Totals, SalarySlip, paise, earnings, deductions_of, compute, components_of,
  zero_amount, with_money,
}

-- The paise of an amount that may be absent, and the sums of a request: basic, HRA, bonus and allowances
-- on one side; PF, ESIC, TDS and other deductions on the other.
abbrev pub cents_or_zero : Option Text → ℕ
cents_or_zero c = elim c [ none ↦ 0 | some s ↦ cents_of s ]

abbrev pub earned : Components → ℕ
earned c =
    cents_or_zero c.basic + cents_or_zero c.hra + cents_or_zero c.bonus + cents_or_zero c.allowances

abbrev pub withheld : Components → ℕ
withheld c =
    cents_or_zero c.pf
    + cents_or_zero c.esic
    + cents_or_zero c.tds
    + cents_or_zero c.other_deductions

-- The totals are those of the components: gross is the four earnings, the deductions are the four
-- deductions, and net is what is left of gross.
abbrev pub AddUp : Components → Totals → Type 0
AddUp c t =
    (cents_of t.gross ≡ earned c)
    × (cents_of t.total_deductions ≡ withheld c)
    × (cents_of t.net + cents_of t.total_deductions ≡ cents_of t.gross)

paise-eq : (c : Option Text) → paise c ≡ cents_or_zero c
paise-eq none = refl
paise-eq (some s) = refl

earnings-eq : (c : Components) → earnings c ≡ earned c
earnings-eq c = rw (paise-eq c.basic, paise-eq c.hra, paise-eq c.bonus, paise-eq c.allowances) refl

deductions_of-eq : (c : Components) → deductions_of c ≡ withheld c
deductions_of-eq c =
    rw (paise-eq c.pf, paise-eq c.esic, paise-eq c.tds, paise-eq c.other_deductions) refl

-- If the deductions are no more than the earnings, the totals are computed and their texts read back
-- as the sums of the components; otherwise the request is refused.
pub compute-AddUp :
    (c : Components)
    → (withheld c ≤ earned c → (t : Totals) × (compute c ≡ ok t) × AddUp c t)
      × (earned c < withheld c → compute c ≡ err (bad_request "Deductions exceed earnings."))
unfolding compute
compute-AddUp c = (
  λ h. (
    record {
      gross = fixed2 (earnings c);
      total_deductions = fixed2 (deductions_of c);
      net = fixed2 (earnings c - deductions_of c);
    },
    ground (arith, earnings-eq c, deductions_of-eq c),
    (
      cents_of-fixed2 (earnings c) ∙ earnings-eq c,
      cents_of-fixed2 (deductions_of c) ∙ deductions_of-eq c,
      rw
          (
            cents_of-fixed2 (earnings c),
            cents_of-fixed2 (deductions_of c),
            cents_of-fixed2 (earnings c - deductions_of c),
          )
          (omega (arith, earnings-eq c, deductions_of-eq c)),
    ),
  ),
  λ h. ground (arith, earnings-eq c, deductions_of-eq c),
)

pub compute-eq-ok : (c : Components) {t : Totals} → compute c ≡ ok t → AddUp c t
compute-eq-ok c {t} h = elim (Bool-cases (ltb (earnings c) (deductions_of c))) [
  | inl y ↦ absurd (cc ((compute-AddUp c).1 (ground (arith, earnings-eq c, deductions_of-eq c)), h))
  | inr n ↦
      let (t', e, k) = (compute-AddUp c).0 (ground (arith, earnings-eq c, deductions_of-eq c)) in
      let q : t' ≡ t = cc in rw q at k
]

-- The figures of a slip: its own components, and totals that are theirs.
abbrev pub totals_of : SalarySlip → Totals
totals_of slip = record {
  gross = slip.gross;
  total_deductions = slip.total_deductions;
  net = slip.net;
}

abbrev pub IsConsistent : SalarySlip → Type 0
IsConsistent slip = AddUp (components_of slip) (totals_of slip)

get_or-cents : (c : Option Text) → cents_or_zero (some (get_or c zero_amount)) ≡ cents_or_zero c
unfolding cents_of crossbill_back.Base.Decimal.read
get_or-cents none = refl
get_or-cents (some s) = refl

pub with_money-IsConsistent :
    (c : Components) (t : Totals) (slip : SalarySlip)
    → AddUp c t
    → IsConsistent (with_money c t slip)
unfolding with_money
with_money-IsConsistent c t slip h =
    rw
      (
        get_or-cents c.basic,
        get_or-cents c.hra,
        get_or-cents c.bonus,
        get_or-cents c.allowances,
        get_or-cents c.pf,
        get_or-cents c.esic,
        get_or-cents c.tds,
        get_or-cents c.other_deductions,
      )
      h
