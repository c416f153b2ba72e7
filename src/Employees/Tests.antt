-- ===== src/Employees/Tests.antt =====
-- Updates and deletions on a small staff.
use crossbill_back.Base.{◌≡◌, refl, [], ◌∷◌, none, some, All₂}
use crossbill_back.Base.Http.{err, ok, bad_request}
use crossbill_back.Mongo.InMemory.{in_memory}
use crossbill_back.Audit.{log, entry}
use crossbill_back.Employees.Defs.{
  Employee, EmployeeStatus, active, on_notice, exited, full_time, Store, update, remove,
  status_only, assert_transition, or_duplicate, set_fields,
}
use crossbill_back.Employees.Status.{UpdateRequest, Later, serve, serve-Later}

abbrev employee : EmployeeStatus → Employee
employee status = record {
  id = 1;
  org_id = 9;
  emp_code = "EMP-001";
  first_name = "Anita";
  last_name = "Rao";
  email = some "anita@example.com";
  mobile = none;
  department = none;
  designation = some "Engineer";
  joining_date = none;
  status = status;
  employment_type = full_time;
  reporting_manager = none;
  ctc_annual = "0.00";
  dob = none;
  address = none;
  emergency_contact = none;
  documents = [];
}

abbrev staff : EmployeeStatus → Store
staff status = record { employees = employee status ∷ []; events = [] }

abbrev ask : EmployeeStatus → UpdateRequest
ask status = record { org = 9; id = 1; dto = status_only status; user = none }

no_way_back :
    update in_memory 9 1 (status_only active) none (staff exited)
    ≡ err (bad_request "Invalid status transition")
unfolding update assert_transition
no_way_back = refl

served :
    (serve in_memory (ask on_notice ∷ ask active ∷ ask exited ∷ []) (staff active)).employees
    ≡ employee exited ∷ []
unfolding serve update or_duplicate set_fields assert_transition
served = refl

serve-Later_example :
    All₂ Later (staff active).employees (serve in_memory (ask exited ∷ []) (staff active)).employees
serve-Later_example = serve-Later in_memory (ask exited ∷ []) (staff active)

abbrev gone : Store
gone = record { employees = []; events = entry "employee.deleted" 9 none 1 ∷ [] }

removed : remove in_memory 9 1 none (staff exited) ≡ ok gone
unfolding remove log
removed = refl
