-- ===== src/Employees/Defs.antt =====
-- The documents of the collection `employees`, the requests, and the operations of the service.
use text.Mathlib.Text.{◌==◌ as str_eq}
use crossbill_back.Base.{
  Bool, true, false, not, ◌&&◌, List, [], ◌∷◌, Option, none, some, String, any, ◌==◌, get_or,
  is_some, if◌then◌else◌,
}
use crossbill_back.Base.Text.{truthy}
use crossbill_back.Base.Http.{
  Result, ok, err, bad_request, conflict, not_found, HttpError, ◌>>=◌, ◌>>◌, throw_if, or_throw,
}
use crossbill_back.Mongo.{Mongo, Index, Written, written, duplicate}
use crossbill_back.Audit.{DocId, EventLog, log, entry}

pub data EmployeeStatus : Type 0 where
  onboarding active on_notice exited : EmployeeStatus

pub data EmploymentType : Type 0 where
  full_time contract intern : EmploymentType

pub record EmployeeDoc : Type 0 where
  pub label : String
  pub url : String

pub record Employee : Type 0 where
  pub id : DocId
  pub org_id : DocId
  pub emp_code : String
  pub first_name : String
  pub last_name : String
  pub email : Option String
  pub mobile : Option String
  pub department : Option String
  pub designation : Option String
  pub joining_date : Option String
  pub status : EmployeeStatus
  pub employment_type : EmploymentType
  pub reporting_manager : Option String
  pub ctc_annual : String
  pub dob : Option String
  pub address : Option String
  pub emergency_contact : Option String
  pub documents : List EmployeeDoc

-- `PartialType(CreateEmployeeDto)`: a field that is `none` is absent from the request.
pub record UpdateEmployeeDto : Type 0 where
  pub emp_code : Option String
  pub first_name : Option String
  pub last_name : Option String
  pub email : Option String
  pub mobile : Option String
  pub department : Option String
  pub designation : Option String
  pub joining_date : Option String
  pub status : Option EmployeeStatus
  pub employment_type : Option EmploymentType
  pub reporting_manager : Option String
  pub ctc_annual : Option String
  pub dob : Option String
  pub address : Option String
  pub emergency_contact : Option String

-- `CreateEmployeeDto`: as above, with two fields required.
pub record CreateEmployeeDto : Type 0 where
  pub emp_code : String
  pub first_name : String
  pub rest : UpdateEmployeeDto

pub record Store : Type 0 where
  pub employees : List Employee
  pub events : EventLog

abbrev pub eq_status : EmployeeStatus → EmployeeStatus → Bool
eq_status onboarding onboarding = true
eq_status active active = true
eq_status on_notice on_notice = true
eq_status exited exited = true
eq_status _ _ = false

-- `STATUS_TRANSITIONS`.
unfoldable pub status_transitions : EmployeeStatus → List EmployeeStatus
status_transitions onboarding = active ∷ []
status_transitions active = on_notice ∷ exited ∷ []
status_transitions on_notice = exited ∷ []
status_transitions exited = []

-- `UNDELETABLE_STATUSES`.
unfoldable pub undeletable_statuses : List EmployeeStatus
undeletable_statuses = active ∷ on_notice ∷ []

unfoldable pub assert_transition : EmployeeStatus → EmployeeStatus → Result (Unit {0})
unfolding status_transitions
assert_transition from to =
    if eq_status from to
    then ok tt
    else throw_if (not (any (eq_status to) (status_transitions from)))
        (bad_request "Invalid status transition")

-- Two texts that are both there and equal, as in an index on the strings of a field.
abbrev pub same_text : Option String → Option String → Bool
same_text (some s) (some t) = str_eq s t
same_text _ _ = false

-- The unique indexes of `EmployeeSchema`.
abbrev pub employee_indexes : List (Index Employee)
employee_indexes =
    record {
      key = "empCode";
      clash = λ d o. not (d.id == o.id) && d.org_id == o.org_id && str_eq d.emp_code o.emp_code;
    }
    ∷ record {
      key = "email";
      clash = λ d o. not (d.id == o.id) && d.org_id == o.org_id && same_text d.email o.email;
    }
    ∷ []

-- `toDuplicateError`, on the key pattern of the violated index.
unfoldable pub to_duplicate_error : String → HttpError
to_duplicate_error key =
    if str_eq key "email"
    then conflict "An employee with this email already exists"
    else if str_eq key "empCode"
    then conflict "An employee with this Employee ID already exists"
    else conflict "An employee with these details already exists"

-- The result of a write, with a duplicate key turned into an exception.
unfoldable pub or_duplicate : Written Employee → Result (List Employee)
unfolding to_duplicate_error
or_duplicate (written xs) = ok xs
or_duplicate (duplicate key) = err (to_duplicate_error key)

-- `o ?? old`, for a field that may itself be null.
abbrev pub or_old {ℓ} : {A : Type ℓ} → Option A → Option A → Option A
or_old none old = old
or_old (some a) old = some a

-- The document that `create` stores: the request's fields over the schema's defaults.
pub new_employee : DocId → DocId → CreateEmployeeDto → Employee
new_employee new_id org dto = record {
  id = new_id;
  org_id = org;
  emp_code = dto.emp_code;
  first_name = dto.first_name;
  last_name = get_or rest.last_name "";
  email = rest.email;
  mobile = rest.mobile;
  department = rest.department;
  designation = rest.designation;
  joining_date = rest.joining_date;
  status = get_or rest.status active;
  employment_type = get_or rest.employment_type full_time;
  reporting_manager = rest.reporting_manager;
  ctc_annual = get_or rest.ctc_annual "0.00";
  dob = rest.dob;
  address = rest.address;
  emergency_contact = rest.emergency_contact;
  documents = [];
}
  where
    open dto use {rest}

-- What `findOneAndUpdate(…, dto)` sets: the fields that the request has.
unfoldable pub set_fields : UpdateEmployeeDto → Employee → Employee
set_fields dto e = record e {
  emp_code = get_or dto.emp_code e.emp_code;
  first_name = get_or dto.first_name e.first_name;
  last_name = get_or dto.last_name e.last_name;
  email = or_old dto.email e.email;
  mobile = or_old dto.mobile e.mobile;
  department = or_old dto.department e.department;
  designation = or_old dto.designation e.designation;
  joining_date = or_old dto.joining_date e.joining_date;
  status = get_or dto.status e.status;
  employment_type = get_or dto.employment_type e.employment_type;
  reporting_manager = or_old dto.reporting_manager e.reporting_manager;
  ctc_annual = get_or dto.ctc_annual e.ctc_annual;
  dob = or_old dto.dob e.dob;
  address = or_old dto.address e.address;
  emergency_contact = or_old dto.emergency_contact e.emergency_contact;
}

abbrev pub scoped : DocId → DocId → Employee → Bool
scoped org i e = e.id == i && e.org_id == org

-- A request that has no field but the status.
abbrev pub status_only : EmployeeStatus → UpdateEmployeeDto
status_only status = record {
  emp_code = none;
  first_name = none;
  last_name = none;
  email = none;
  mobile = none;
  department = none;
  designation = none;
  joining_date = none;
  status = some status;
  employment_type = none;
  reporting_manager = none;
  ctc_annual = none;
  dob = none;
  address = none;
  emergency_contact = none;
}

-- The store after a call whose failure is swallowed.
abbrev pub store_after {ℓ} : {A : Type ℓ} → Store → Result (A × Store) → Store
store_after s (ok r) = r.1
store_after s (err e) = s

-- `if (dto.status) this.assertTransition(current.status, dto.status)`.
abbrev pub assert_status : EmployeeStatus → Option EmployeeStatus → Result (Unit {0})
assert_status from none = ok tt
assert_status from (some to) = assert_transition from to

module _ (db : Mongo) where
  unfoldable pub find_one_scoped : DocId → DocId → Store → Result Employee
  find_one_scoped org i s =
      or_throw (db.find_one (scoped org i) s.employees) (not_found "Employee not found")

  -- Throws if another employee of the organisation passes the test.
  abbrev no_clash : Bool → (Employee → Bool) → String → Store → Result (Unit {0})
  no_clash wanted p message s =
      throw_if (wanted && is_some (db.find_one p s.employees)) (conflict message)

  unfoldable pub create :
      DocId → DocId → CreateEmployeeDto → Option DocId → Store → Result (Employee × Store)
  unfolding new_employee
  create new_id org dto user s = do
    no_clash true (λ e. e.org_id == org && str_eq e.emp_code dto.emp_code)
        "Employee ID already exists" s
    no_clash (truthy dto.rest.email) (λ e. e.org_id == org && same_text e.email dto.rest.email)
        "An employee with this email already exists" s
    let doc = new_employee new_id org dto
    employees ← or_duplicate (db.create employee_indexes doc s.employees)
    ok (
      doc,
      record {
        employees = employees;
        events = log db (entry "employee.created" org user doc.id) s.events;
      },
    )

  unfoldable pub update :
      DocId → DocId → UpdateEmployeeDto → Option DocId → Store → Result (Employee × Store)
  unfolding find_one_scoped
  update org i dto user s = do
    current ← find_one_scoped org i s
    no_clash (truthy dto.emp_code && not (same_text dto.emp_code (some current.emp_code)))
        (λ e. e.org_id == org && same_text (some e.emp_code) dto.emp_code && not (e.id == i))
        "Employee ID already exists" s
    no_clash (truthy dto.email && not (same_text dto.email current.email))
        (λ e. e.org_id == org && same_text e.email dto.email && not (e.id == i))
        "An employee with this email already exists" s
    assert_status current.status dto.status
    employees ←
        or_duplicate (db.update_unique employee_indexes (scoped org i) (set_fields dto) s.employees)
    doc ← or_throw (db.find_one (scoped org i) employees) (not_found "Employee not found")
    ok (
      doc,
      record {
        employees = employees;
        events = log db (entry "employee.updated" org user i) s.events;
      },
    )

  unfoldable pub remove : DocId → DocId → Option DocId → Store → Result Store
  unfolding find_one_scoped undeletable_statuses
  remove org i user s = do
    doc ← find_one_scoped org i s
    throw_if (any (eq_status doc.status) undeletable_statuses)
        (conflict "Exit or deactivate this employee before deleting.")
    throw_if (not (is_some (db.find_one (scoped org i) s.employees)))
        (not_found "Employee not found")
    ok (record {
      employees = db.delete_one (scoped org i) s.employees;
      events = log db (entry "employee.deleted" org user i) s.events;
    })
