-- ===== src/Payroll/Tests.antt =====
-- A month with one slip, from its creation to its finalisation.
use crossbill_back.Base.{
  ◌≡◌, ◌+◌, ◌≤◌, ◌<◌, ℕ, refl, true, not, List, [], ◌∷◌, none, some, Option, String, All, Memᴰ,
  filter, find?, arith,
}
use crossbill_back.Base.Text.{codes}
use crossbill_back.Base.Money.{cents_of, fixed2}
use crossbill_back.Base.Decimal.{read}
use crossbill_back.Base.Http.{Result, ok, err, bad_request}
use crossbill_back.Mongo.InMemory.{in_memory}
use crossbill_back.Employees.Defs as StaffDefs
use crossbill_back.Payroll.Defs.{
  SlipStatus, RunStatus, Components, SalarySlip, PayrollRun, CreateSlipDto, Store, compute,
  in_month, run_of, with_money,
}
use crossbill_back.Payroll.Slips.{create_slip, generate_pdf}
use crossbill_back.Payroll.Runs.{run_payroll, finalise_run}
use crossbill_back.Payroll.Requests.{Request, serve}
use crossbill_back.Payroll.Consistent.{Consistent, serve-Consistent}
use crossbill_back.Payroll.Frozen.{Kept, serve-Kept}
use crossbill_back.Payroll.Summary.{Summarises, Closed, run_payroll-Summarises}
use crossbill_back.Payroll.Final.{finalise_run-final}
use crossbill_back.Payroll.Late.{create_slip-late}

abbrev member : StaffDefs.Employee
member = record {
  id = 1;
  org_id = 9;
  emp_code = "EMP-001";
  first_name = "Anita";
  last_name = "Rao";
  email = none;
  mobile = none;
  department = none;
  designation = some "Engineer";
  joining_date = none;
  status = StaffDefs.active;
  employment_type = StaffDefs.full_time;
  reporting_manager = none;
  ctc_annual = "0.00";
  dob = none;
  address = none;
  emergency_contact = none;
  documents = [];
}

abbrev pay : Components
pay = record {
  basic = some (codes "500.00");
  hra = some (codes "200.5");
  bonus = none;
  allowances = none;
  pf = some (codes "60");
  esic = none;
  tds = none;
  other_deductions = none;
}

abbrev nothing : Components
nothing = record {
  basic = none;
  hra = none;
  bonus = none;
  allowances = none;
  pf = none;
  esic = none;
  tds = none;
  other_deductions = none;
}

abbrev ask : CreateSlipDto
ask = record { employee_id = 1; month = 202606; components = pay }

abbrev empty : Store
empty = record { staff = record { employees = member ∷ []; events = [] }; slips = []; runs = [] }

abbrev no_pdf : SalarySlip → Option String
no_pdf slip = none

abbrev some_slip : SalarySlip
some_slip = record {
  id = 4;
  org_id = 9;
  employee_id = 1;
  employee_name = codes "Anita Rao";
  emp_code = some "EMP-001";
  designation = some "Engineer";
  month = 202606;
  basic = codes "500.00";
  hra = codes "200.50";
  bonus = codes "0.00";
  allowances = codes "0.00";
  pf = codes "60.00";
  esic = codes "0.00";
  tds = codes "0.00";
  other_deductions = codes "0.00";
  gross = codes "700.50";
  total_deductions = codes "60.00";
  net = codes "640.50";
  status = SlipStatus.finalised;
  pdf_url = none;
  generated_at = none;
  finalised_at = some 3;
  finalised_by = some 2;
}

abbrev some_run : RunStatus → PayrollRun
some_run status = record {
  id = 6;
  org_id = 9;
  period = 202606;
  status = status;
  gross = codes "700.50";
  deductions = codes "60.00";
  net = codes "640.50";
  slip_count = 1;
  finalised_at = none;
  finalised_by = none;
}

abbrev with_slip : RunStatus → Store
with_slip status = record {
  staff = empty.staff;
  slips = some_slip ∷ [];
  runs = some_run status ∷ [];
}

abbrev only_run : RunStatus → Store
only_run status = record { staff = empty.staff; slips = []; runs = some_run status ∷ [] }

-- The value of a request that goes through.
abbrev or_else {ℓ} : {A : Type ℓ} → Result A → A → A
or_else (ok a) b = a
or_else (err e) b = b

too_much :
    compute (record nothing { tds = some (codes "0.01") })
    ≡ err (bad_request "Deductions exceed earnings.")
unfolding compute cents_of read
too_much = refl

pays :
    compute pay
    ≡ ok (record { gross = codes "700.50"; total_deductions = codes "60.00"; net = codes "640.50" })
unfolding compute cents_of fixed2 read crossbill_back.Base.Decimal.decimal
pays = refl

abbrev history : List Request
history =
    Request.create 1 4 9 none ask
    ∷ Request.run 6 9 none 202606
    ∷ Request.finalise 3 9 2 202606
    ∷ Request.remove 9 none 4
    ∷ Request.update 5 9 none 4 (record { components = pay; status = some SlipStatus.draft })
    ∷ []

serve-Consistent_example : Consistent (serve in_memory no_pdf history empty)
serve-Consistent_example = serve-Consistent in_memory no_pdf history empty tt

serve-Kept_example : Kept some_slip (serve in_memory no_pdf history (with_slip RunStatus.draft))
serve-Kept_example =
    serve-Kept in_memory no_pdf history (with_slip RunStatus.draft) some_slip refl (Memᴰ.head refl)

ran : PayrollRun × Store
unfolding run_payroll
ran =
    or_else (run_payroll in_memory 6 9 none 202606 (with_slip RunStatus.draft))
      (some_run RunStatus.draft, empty)

ran_lem : run_payroll in_memory 6 9 none 202606 (with_slip RunStatus.draft) ≡ ok ran
unfolding ran
ran_lem = refl

run_payroll-Summarises_example :
    (ran.1.slips ≡ (with_slip RunStatus.draft).slips)
    × (ran.0.status ≡ RunStatus.draft)
    × Summarises 9 202606 ran.0 (with_slip RunStatus.draft)
    × (Consistent (with_slip RunStatus.draft)
        → cents_of ran.0.net + cents_of ran.0.deductions ≡ cents_of ran.0.gross)
run_payroll-Summarises_example =
    run_payroll-Summarises in_memory 6 9 none 202606 (with_slip RunStatus.draft) ran_lem

closed : PayrollRun × Store
unfolding finalise_run
closed =
    or_else (finalise_run in_memory 3 9 2 202606 (with_slip RunStatus.draft))
      (some_run RunStatus.draft, empty)

closed_lem : finalise_run in_memory 3 9 2 202606 (with_slip RunStatus.draft) ≡ ok closed
unfolding closed
closed_lem = refl

finalise_run-final_example :
    (closed.0.status ≡ RunStatus.finalised)
    × All
        (λ slip. in_month 9 202606 slip ≡ true → slip.status ≡ SlipStatus.finalised)
        closed.1.slips
    × (filter (λ slip. not (in_month 9 202606 slip)) closed.1.slips
        ≡ filter (λ slip. not (in_month 9 202606 slip)) (with_slip RunStatus.draft).slips)
    × (find? (run_of 9 202606) (serve in_memory no_pdf history closed.1).runs ≡ some closed.0)
    × Closed in_memory 9 202606 (serve in_memory no_pdf history closed.1)
finalise_run-final_example =
    finalise_run-final in_memory no_pdf 3 9 2 202606 (with_slip RunStatus.draft) history closed_lem

late : SalarySlip × Store
unfolding create_slip StaffDefs.find_one_scoped generate_pdf compute with_money cents_of read
late =
    or_else (create_slip in_memory no_pdf 8 4 9 none ask (only_run RunStatus.finalised))
      (some_slip, empty)

late_lem : create_slip in_memory no_pdf 8 4 9 none ask (only_run RunStatus.finalised) ≡ ok late
unfolding late StaffDefs.find_one_scoped
late_lem = refl

create_slip-late_example :
    (in_month 9 202606 late.0 ≡ true)
    × (late.0.status ≡ SlipStatus.draft)
    × (late.1.slips ≡ late.0 ∷ [])
    × (late.1.runs ≡ some_run RunStatus.finalised ∷ [])
    × Closed in_memory 9 202606 late.1
create_slip-late_example =
    create_slip-late in_memory no_pdf 8 4 9 none ask (only_run RunStatus.finalised) refl refl
      late_lem
