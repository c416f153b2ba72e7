-- ===== src/Lifecycle/Tests.antt =====
-- An exit from notice to settlement, and the two fates of its employee.
use crossbill_back.Base.{◌≡◌, refl, [], ◌∷◌, none, some, true, false, find?, modify_first}
use crossbill_back.Base.Text.{codes}
use crossbill_back.Base.Money.{cents_of, is_money}
use crossbill_back.Base.Decimal.{read}
use crossbill_back.Base.Http.{err, ok, bad_request}
use crossbill_back.Mongo.InMemory.{in_memory}
use crossbill_back.Employees.{
  Employee, EmployeeStatus, onboarding, on_notice, exited, full_time, scoped,
}
use crossbill_back.Lifecycle.Defs.{
  ExitStatus, notice, cleared, settled, Exit, Onboarding, in_progress, ChecklistItem, Store,
}
use crossbill_back.Lifecycle.Exits.{
  CreateExitDto, UpdateExitDto, update_exit, scoped_exit, updated_exit, with_fields, with_status,
}
use crossbill_back.Lifecycle.Onboarding.{ToggleChecklistDto, toggle_checklist}
use crossbill_back.Lifecycle.Steps.{ExitStep, update_exit-ExitStep}
use crossbill_back.Lifecycle.Settlement.{settled_refused, settle-exits, settle-keeps-onboarding}
use crossbill_back.Lifecycle.OneOpen.{OneOpen}
use crossbill_back.Lifecycle.Checklist.{toggle-unfinished}

abbrev employee : EmployeeStatus → Employee
employee status = record {
  id = 1;
  org_id = 9;
  emp_code = "EMP-001";
  first_name = "Anita";
  last_name = "Rao";
  email = none;
  mobile = none;
  department = none;
  designation = none;
  joining_date = none;
  status = status;
  employment_type = full_time;
  reporting_manager = none;
  ctc_annual = "0.00";
  dob = none;
  address = none;
  emergency_contact = none;
  documents = [];
}

abbrev exit : ExitStatus → Exit
exit status = record {
  id = 5;
  org_id = 9;
  employee_id = 1;
  employee_name = codes "Anita Rao";
  resignation_date = 20000;
  last_working_date = some 20030;
  notice_days = 30;
  reason = none;
  assets = [];
  manager_approved = true;
  hr_approved = true;
  final_settlement = codes "85000.00";
  settlement_notes = none;
  status = status;
  completed_at = none;
}

abbrev item : ChecklistItem
item = record { id = 7; key = "pan"; label = "PAN"; required = true; done = false; doc_url = none }

abbrev joining : Onboarding
joining = record {
  org_id = 9;
  employee_id = 1;
  checklist = item ∷ [];
  status = in_progress;
  completed_at = none;
}

abbrev store : EmployeeStatus → ExitStatus → Store
store status step = record {
  staff = record { employees = employee status ∷ []; events = [] };
  onboardings = joining ∷ [];
  exits = exit step ∷ [];
}

abbrev to_settled : UpdateExitDto
to_settled = record {
  assets = none;
  manager_approved = none;
  hr_approved = none;
  final_settlement = none;
  settlement_notes = none;
  last_working_date = none;
  status = some settled;
}

-- The result of settling a cleared exit.
settlement : EmployeeStatus → Exit × Store
unfolding update_exit updated_exit with_fields with_status is_money cents_of read
settlement status = elim (update_exit in_memory 77 9 none 5 to_settled (store status cleared)) [
  | ok r ↦ r
  | err e ↦ (exit cleared, store status cleared)
]

settlement_lem :
    (status : EmployeeStatus)
    → (update_exit in_memory 77 9 none 5 to_settled (store status cleared) ≡ ok (settlement status))
      × ((settlement status).0.status ≡ settled)
      × ((settlement status).0.employee_id ≡ 1)
unfolding settlement
settlement_lem status = (refl, refl, refl)

update_exit-ExitStep_example :
    let r = settlement on_notice in
    (e : Exit) × (find? (scoped_exit 9 5) (store on_notice cleared).exits ≡ some e)
    × ExitStep 77 e r.0
    × (r.1.exits ≡ modify_first (scoped_exit 9 5) (λ _. r.0) (store on_notice cleared).exits)
update_exit-ExitStep_example =
    update_exit-ExitStep in_memory 77 9 none 5 to_settled (store on_notice cleared)
      (settlement_lem on_notice).0

settled_refused_example :
    update_exit in_memory 77 9 none 5 to_settled (store exited settled)
    ≡ err (bad_request "This exit is settled and can no longer be changed.")
settled_refused_example =
    settled_refused in_memory 77 9 none 5 to_settled (store exited settled) refl refl

settle-exits_example :
    find? (scoped 9 1) (settlement on_notice).1.staff.employees ≡ some (employee exited)
unfolding settlement
settle-exits_example =
    settle-exits in_memory 77 9 none 5 to_settled (store on_notice cleared)
      (settlement_lem on_notice).0 (settlement_lem on_notice).1 refl refl (λ e. cc)

settle-keeps-onboarding_example :
    (settlement onboarding).1.staff.employees ≡ employee onboarding ∷ []
unfolding settlement
settle-keeps-onboarding_example =
    settle-keeps-onboarding in_memory 77 9 none 5 to_settled (store onboarding cleared)
      (settlement_lem onboarding).0 (settlement_lem onboarding).1 refl refl

abbrev resign : CreateExitDto
resign = record { employee_id = 1; resignation_date = 20000; notice_days = none; reason = none }

abbrev tick : ToggleChecklistDto
tick = record { done = true; doc_url = none }

abbrev untick : ToggleChecklistDto
untick = record { done = false; doc_url = none }

-- The result of toggling the one item.
toggling : ToggleChecklistDto → Onboarding × Store
unfolding toggle_checklist
toggling dto = elim (toggle_checklist in_memory 77 9 none 1 7 dto (store onboarding notice)) [
  | ok r ↦ r
  | err e ↦ (joining, store onboarding notice)
]

toggling_lem :
    (dto : ToggleChecklistDto)
    → toggle_checklist in_memory 77 9 none 1 7 dto (store onboarding notice) ≡ ok (toggling dto)
unfolding toggling
toggling_lem dto = refl

toggle-unfinished_example :
    ((toggling untick).0.status ≡ in_progress)
    × ((toggling untick).0.completed_at ≡ none)
    × ((toggling untick).1.staff.employees ≡ employee onboarding ∷ [])
unfolding toggling
toggle-unfinished_example =
    toggle-unfinished in_memory 77 9 none 1 7 untick (store onboarding notice) refl
      (toggling_lem untick) refl
