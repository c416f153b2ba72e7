-- ===== src/Attendance/Tests.antt =====
-- A leave that is asked for twice and approved.
use crossbill_back.Base.{ℕ, ◌≤◌, ◌≡◌, refl, [], ◌∷◌, none, some, find?, modify_first, length}
use crossbill_back.Base.Http.{ok, err, conflict}
use crossbill_back.Mongo.InMemory.{in_memory}
use crossbill_back.Employees.Defs as StaffDefs
use crossbill_back.Attendance.Defs.{
  pending, LeaveType, Leave, CreateLeaveDto, approve, refuse, Store, scoped_leave, outcome,
  each_date, days_between,
}
use crossbill_back.Attendance.Handlers.{decide_leave, request_leave, require_active_employee}
use crossbill_back.Attendance.Marks.{OnLeave, decide_leave-marks}

abbrev member : StaffDefs.Employee
member = record {
  id = 1;
  org_id = 9;
  emp_code = "EMP-001";
  first_name = "Anita";
  last_name = "Rao";
  email = none;
  mobile = none;
  department = none;
  designation = none;
  joining_date = none;
  status = StaffDefs.active;
  employment_type = StaffDefs.full_time;
  reporting_manager = none;
  ctc_annual = "0.00";
  dob = none;
  address = none;
  emergency_contact = none;
  documents = [];
}

abbrev asked : Leave
asked = record {
  id = 3;
  org_id = 9;
  employee_id = 1;
  kind = LeaveType.casual;
  from = 20;
  to = 22;
  days = 3;
  reason = none;
  status = pending;
  approver_id = none;
  decided_by = none;
  decided_at = none;
}

abbrev store : Store
store = record {
  staff = record { employees = member ∷ []; events = [] };
  attendance = [];
  leaves = asked ∷ [];
}

abbrev days : ℕ → ℕ → CreateLeaveDto
days from to = record {
  employee_id = 1;
  kind = LeaveType.sick;
  from = from;
  to = to;
  reason = none;
}

overlap_refused :
    request_leave in_memory 0 4 9 (days 22 30) store
    ≡ err (conflict "Overlapping leave already exists.")
unfolding request_leave require_active_employee
overlap_refused = refl

approval : Leave × Store
unfolding decide_leave
approval = elim (decide_leave in_memory 7 9 3 approve 2 store) [ ok r ↦ r | err e ↦ (asked, store) ]

approval_lem : decide_leave in_memory 7 9 3 approve 2 store ≡ ok approval
unfolding approval
approval_lem = refl

decide_leave-marks_example :
    (old : Leave) × (find? (scoped_leave 9 3) store.leaves ≡ some old)
    × (old.status ≡ pending)
    × (approval.0.status ≡ outcome approve)
    × (approval.0.approver_id ≡ some 2)
    × (approval.0.decided_at ≡ some 7)
    × (approval.1.leaves ≡ modify_first (scoped_leave 9 3) (λ _. approval.0) store.leaves)
    × (approve ≡ approve
        → (d : ℕ) → old.from ≤ d
        → d ≤ old.to
        → OnLeave 9 old.employee_id d approval.1.attendance)
    × (old.from ≤ old.to → length (each_date old.from old.to) ≡ days_between old.from old.to)
    × (approve ≡ refuse → approval.1.attendance ≡ store.attendance)
decide_leave-marks_example = decide_leave-marks in_memory 7 9 3 approve 2 store approval_lem
