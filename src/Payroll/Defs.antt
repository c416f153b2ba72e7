-- ===== src/Payroll/Defs.antt =====
-- The documents and requests of payroll, and `PayrollService.compute`. A month YYYY-MM is only
-- compared, so it is a number.
use crossbill_back.Base.{
  ℕ, ◌+◌, ◌-◌, Bool, true, false, List, [], ◌∷◌, Option, none, some, String, ◌==◌, ◌&&◌, not, ltb,
  if◌then◌else◌, get_or,
}
use crossbill_back.Base.Text.{Text, codes}
use crossbill_back.Base.Money.{cents_of, fixed2}
use crossbill_back.Base.Http.{Result, ok, err, bad_request}
use crossbill_back.Mongo.{Index}
use crossbill_back.Audit.{DocId}
use crossbill_back.Employees.Defs as StaffDefs

pub data SlipStatus : Type 0 where
  draft finalised shared : SlipStatus

pub data RunStatus : Type 0 where
  draft finalised : RunStatus

-- The eight components of a slip, as a request or a merge of a request and a slip gives them.
pub record Components : Type 0 where
  pub basic : Option Text
  pub hra : Option Text
  pub bonus : Option Text
  pub allowances : Option Text
  pub pf : Option Text
  pub esic : Option Text
  pub tds : Option Text
  pub other_deductions : Option Text

pub record SalarySlip : Type 0 where
  pub id : DocId
  pub org_id : DocId
  pub employee_id : DocId
  pub employee_name : Text
  pub emp_code : Option String
  pub designation : Option String
  pub month : ℕ
  pub basic : Text
  pub hra : Text
  pub bonus : Text
  pub allowances : Text
  pub pf : Text
  pub esic : Text
  pub tds : Text
  pub other_deductions : Text
  pub gross : Text
  pub total_deductions : Text
  pub net : Text
  pub status : SlipStatus
  pub pdf_url : Option String
  pub generated_at : Option ℕ
  pub finalised_at : Option ℕ
  pub finalised_by : Option DocId

pub record PayrollRun : Type 0 where
  pub id : DocId
  pub org_id : DocId
  pub period : ℕ
  pub status : RunStatus
  pub gross : Text
  pub deductions : Text
  pub net : Text
  pub slip_count : ℕ
  pub finalised_at : Option ℕ
  pub finalised_by : Option DocId

pub record CreateSlipDto : Type 0 where
  pub employee_id : DocId
  pub month : ℕ
  pub components : Components

pub record UpdateSlipDto : Type 0 where
  pub components : Components
  pub status : Option SlipStatus

pub record Store : Type 0 where
  pub staff : StaffDefs.Store
  pub slips : List SalarySlip
  pub runs : List PayrollRun

-- `LOCKED_SLIP_STATUSES.has(status)`.
abbrev pub is_locked : SlipStatus → Bool
is_locked draft = false
is_locked finalised = true
is_locked shared = true

-- `paise`, of a text that may be absent.
abbrev pub paise : Option Text → ℕ
paise none = 0
paise (some s) = cents_of s

abbrev pub earnings : Components → ℕ
earnings c = paise c.basic + paise c.hra + paise c.bonus + paise c.allowances

abbrev pub deductions_of : Components → ℕ
deductions_of c = paise c.pf + paise c.esic + paise c.tds + paise c.other_deductions

pub record Totals : Type 0 where
  pub gross : Text
  pub total_deductions : Text
  pub net : Text

-- `PayrollService.compute`; the aliases `grossEarnings` and `netPay` repeat `gross` and `net`.
unfoldable pub compute : Components → Result Totals
compute dto =
    let gross_p = earnings dto in
    let ded_p = deductions_of dto in
    if ltb gross_p ded_p
    then err (bad_request "Deductions exceed earnings.")
    else ok (record {
      gross = fixed2 gross_p;
      total_deductions = fixed2 ded_p;
      net = fixed2 (gross_p - ded_p);
    })

-- The stored components, as a merge sees them.
abbrev pub components_of : SalarySlip → Components
components_of slip = record {
  basic = some slip.basic;
  hra = some slip.hra;
  bonus = some slip.bonus;
  allowances = some slip.allowances;
  pf = some slip.pf;
  esic = some slip.esic;
  tds = some slip.tds;
  other_deductions = some slip.other_deductions;
}

abbrev pub zero_amount : Text
zero_amount = codes "0.00"

-- A slip with its components and totals set; a component that is absent becomes 0.00.
unfoldable pub with_money : Components → Totals → SalarySlip → SalarySlip
with_money c t slip = record slip {
  basic = get_or c.basic zero_amount;
  hra = get_or c.hra zero_amount;
  bonus = get_or c.bonus zero_amount;
  allowances = get_or c.allowances zero_amount;
  pf = get_or c.pf zero_amount;
  esic = get_or c.esic zero_amount;
  tds = get_or c.tds zero_amount;
  other_deductions = get_or c.other_deductions zero_amount;
  gross = t.gross;
  total_deductions = t.total_deductions;
  net = t.net;
}

abbrev pub scoped_slip : DocId → DocId → SalarySlip → Bool
scoped_slip org i slip = slip.id == i && slip.org_id == org

abbrev pub slip_of : DocId → DocId → ℕ → SalarySlip → Bool
slip_of org employee month slip =
    slip.org_id == org && slip.employee_id == employee && slip.month == month

abbrev pub in_month : DocId → ℕ → SalarySlip → Bool
in_month org period slip = slip.org_id == org && slip.month == period

abbrev pub run_of : DocId → ℕ → PayrollRun → Bool
run_of org period run = run.org_id == org && run.period == period

-- The unique index of `SalarySlipSchema`.
abbrev pub slip_indexes : List (Index SalarySlip)
slip_indexes =
    record {
      key = "orgId";
      clash = λ d o. not (d.id == o.id) && slip_of d.org_id d.employee_id d.month o;
    }
    ∷ []
