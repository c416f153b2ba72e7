-- ===== src/Payroll/Slips.antt =====
-- The handlers on salary slips. The PDF service is the function `render`, which gives the address of
-- a slip's document, or nothing when the call fails.
use crossbill_back.Base.{ℕ, List, Option, none, some, String, is_some, if◌then◌else◌}
use crossbill_back.Base.Text.{Text}
use crossbill_back.Base.Http.{Result, ok, err, conflict, not_found, ◌>>=◌, ◌>>◌, throw_if, or_throw}
use crossbill_back.Mongo.{Mongo, Written, written, duplicate}
use crossbill_back.Audit.{DocId, log, entry}
use crossbill_back.Employees.Defs as StaffDefs
use crossbill_back.Lifecycle.Defs.{full_name}
use crossbill_back.Payroll.Defs.{
  SlipStatus, draft, Components, Totals, SalarySlip, CreateSlipDto, UpdateSlipDto, Store, is_locked,
  compute, components_of, zero_amount, with_money, scoped_slip, slip_of, slip_indexes,
}

-- `dto.x ?? slip.x`, for each component.
abbrev pub first_given : Option Text → Option Text → Option Text
first_given none old = old
first_given (some s) old = some s

unfoldable pub merged : Components → SalarySlip → Components
merged dto slip =
    let old = components_of slip in
    record {
      basic = first_given dto.basic old.basic;
      hra = first_given dto.hra old.hra;
      bonus = first_given dto.bonus old.bonus;
      allowances = first_given dto.allowances old.allowances;
      pf = first_given dto.pf old.pf;
      esic = first_given dto.esic old.esic;
      tds = first_given dto.tds old.tds;
      other_deductions = first_given dto.other_deductions old.other_deductions;
    }

-- `if (dto.status && !LOCKED_SLIP_STATUSES.has(dto.status)) slip.status = dto.status`.
abbrev pub new_status : Option SlipStatus → SlipStatus → SlipStatus
new_status none old = old
new_status (some st) old = if is_locked st then old else st

abbrev already_exists : String
already_exists = "A salary slip for this employee and month already exists."

abbrev locked_message : String
locked_message = "This salary slip is finalised and cannot be changed."

abbrev or_conflict : Written SalarySlip → Result (List SalarySlip)
or_conflict (written xs) = ok xs
or_conflict (duplicate key) = err (conflict already_exists)

-- A new slip before its money is set.
abbrev pub blank_slip : DocId → DocId → CreateSlipDto → StaffDefs.Employee → SalarySlip
blank_slip new_id org dto emp = record {
  id = new_id;
  org_id = org;
  employee_id = dto.employee_id;
  employee_name = full_name emp;
  emp_code = some emp.emp_code;
  designation = emp.designation;
  month = dto.month;
  basic = zero_amount;
  hra = zero_amount;
  bonus = zero_amount;
  allowances = zero_amount;
  pf = zero_amount;
  esic = zero_amount;
  tds = zero_amount;
  other_deductions = zero_amount;
  gross = zero_amount;
  total_deductions = zero_amount;
  net = zero_amount;
  status = draft;
  pdf_url = none;
  generated_at = none;
  finalised_at = none;
  finalised_by = none;
}

-- The slip after `generatePdf`, which keeps it as it is when the service fails.
abbrev pub rendered : ℕ → Option String → SalarySlip → SalarySlip
rendered now none slip = slip
rendered now (some url) slip = record slip { pdf_url = some url; generated_at = some now }

module _ (db : Mongo) (render : SalarySlip → Option String) where
  -- `generatePdf`: the slip, and the collection once it is saved.
  unfoldable pub generate_pdf : ℕ → SalarySlip → List SalarySlip → SalarySlip × List SalarySlip
  generate_pdf now slip slips =
      let slip' = rendered now (render slip) slip in
      (slip', db.update_one (scoped_slip slip.org_id slip.id) (λ _. slip') slips)

  unfoldable pub create_slip :
      ℕ → DocId → DocId → Option DocId → CreateSlipDto → Store → Result (SalarySlip × Store)
  create_slip now new_id org user dto s = do
    emp ← StaffDefs.find_one_scoped db org dto.employee_id s.staff
    throw_if (is_some (db.find_one (slip_of org dto.employee_id dto.month) s.slips))
        (conflict already_exists)
    totals ← compute dto.components
    let slip = with_money dto.components totals (blank_slip new_id org dto emp)
    slips ← or_conflict (db.create slip_indexes slip s.slips)
    let (slip', slips') = generate_pdf now slip slips
    ok (
      slip',
      record s {
        slips = slips';
        staff = record s.staff {
          events = log db (entry "payroll.slip_created" org user slip.id) s.staff.events;
        };
      },
    )

  -- The slip that `updateSlip` saves first.
  abbrev pub revised : UpdateSlipDto → Totals → SalarySlip → SalarySlip
  revised dto totals slip = record (with_money (merged dto.components slip) totals slip) {
    status = new_status dto.status slip.status;
    pdf_url = none;
  }

  unfoldable pub update_slip :
      ℕ → DocId → Option DocId → DocId → UpdateSlipDto → Store → Result (SalarySlip × Store)
  update_slip now org user i dto s = do
    slip ← or_throw (db.find_one (scoped_slip org i) s.slips) (not_found "Salary slip not found")
    throw_if (is_locked slip.status) (conflict locked_message)
    totals ← compute (merged dto.components slip)
    let slip1 = revised dto totals slip
    let (slip2, slips) =
        generate_pdf now slip1 (db.update_one (scoped_slip org i) (λ _. slip1) s.slips)
    ok (
      slip2,
      record s {
        slips = slips;
        staff = record s.staff {
          events = log db (entry "payroll.slip_updated" org user slip.id) s.staff.events;
        };
      },
    )

  unfoldable pub get_slip : ℕ → DocId → DocId → Store → Result (SalarySlip × Store)
  get_slip now org i s = do
    slip ← or_throw (db.find_one (scoped_slip org i) s.slips) (not_found "Salary slip not found")
    let (slip', slips) = generate_pdf now slip s.slips
    ok (if is_some slip.pdf_url then (slip, s) else (slip', record s { slips = slips }))

  unfoldable pub remove_slip : DocId → Option DocId → DocId → Store → Result Store
  remove_slip org user i s = do
    slip ← or_throw (db.find_one (scoped_slip org i) s.slips) (not_found "Salary slip not found")
    throw_if (is_locked slip.status) (conflict locked_message)
    ok (record s {
      slips = db.delete_one (scoped_slip org i) s.slips;
      staff = record s.staff {
        events = log db (entry "payroll.slip_removed" org user i) s.staff.events;
      };
    })
