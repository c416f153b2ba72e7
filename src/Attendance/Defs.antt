-- ===== src/Attendance/Defs.antt =====
-- The documents of attendance and leave, and what their handlers compute. A day is its number, which
-- its ISO text orders the same way; an instant is in milliseconds.
use crossbill_back.Base.{
  ℕ, zero, suc, ◌+◌, ◌-◌, ◌/◌, Bool, true, false, List, [], ◌∷◌, Option, none, String, ◌==◌, ◌&&◌,
  leb, if◌then◌else◌,
}
use crossbill_back.Mongo.{Written, written, duplicate}
use crossbill_back.Audit.{DocId}
use crossbill_back.Employees.Defs as StaffDefs

pub data AttendanceStatus : Type 0 where
  present absent half leave : AttendanceStatus

pub data LeaveType : Type 0 where
  casual sick earned unpaid : LeaveType

pub data LeaveStatus : Type 0 where
  pending approved rejected : LeaveStatus

pub record Attendance : Type 0 where
  pub org_id : DocId
  pub employee_id : DocId
  pub date : ℕ
  pub check_in_at : Option ℕ
  pub check_out_at : Option ℕ
  pub worked_minutes : ℕ
  pub status : AttendanceStatus
  pub source : String
  pub ip : Option String

pub record Leave : Type 0 where
  pub id : DocId
  pub org_id : DocId
  pub employee_id : DocId
  pub kind : LeaveType
  pub from : ℕ
  pub to : ℕ
  pub days : ℕ
  pub reason : Option String
  pub status : LeaveStatus
  pub approver_id : Option DocId
  pub decided_by : Option DocId
  pub decided_at : Option ℕ

pub record CreateLeaveDto : Type 0 where
  pub employee_id : DocId
  pub kind : LeaveType
  pub from : ℕ
  pub to : ℕ
  pub reason : Option String

pub record Store : Type 0 where
  pub staff : StaffDefs.Store
  pub attendance : List Attendance
  pub leaves : List Leave

-- `todayStr()`, of an instant.
abbrev pub today : ℕ → ℕ
today now = now / 86400000

-- `daysBetween`: at least 1, also if the range is empty.
abbrev pub days_between : ℕ → ℕ → ℕ
days_between from to = suc (to - from)

-- The loop of `eachDate`, whose fuel is the number of days.
abbrev pub walk : ℕ → ℕ → ℕ → List ℕ
walk zero d end = []
walk (suc fuel) d end = let rest = walk fuel (suc d) end in if leb d end then d ∷ rest else []

abbrev pub each_date : ℕ → ℕ → List ℕ
each_date from to = walk (suc to - from) from to

-- `FULL_DAY_MINUTES`.
abbrev pub full_day_minutes : ℕ
full_day_minutes = 240

abbrev pub is_pending : LeaveStatus → Bool
is_pending pending = true
is_pending _ = false

-- `status: { $in: ['pending', 'approved'] }`.
abbrev pub is_live : LeaveStatus → Bool
is_live rejected = false
is_live _ = true

abbrev pub is_approved : LeaveStatus → Bool
is_approved approved = true
is_approved _ = false

pub data Decision : Type 0 where
  approve refuse : Decision

abbrev pub outcome : Decision → LeaveStatus
outcome approve = approved
outcome refuse = rejected

abbrev pub record_of : DocId → DocId → ℕ → Attendance → Bool
record_of org employee date a = a.org_id == org && a.employee_id == employee && a.date == date

abbrev pub scoped_leave : DocId → DocId → Leave → Bool
scoped_leave org i l = l.id == i && l.org_id == org

-- A live leave of the employee that meets the days.
abbrev pub overlaps : DocId → DocId → ℕ → ℕ → Leave → Bool
overlaps org employee from to l =
    l.org_id == org
    && l.employee_id == employee
    && is_live l.status
    && leb l.from to
    && leb from l.to

abbrev pub blank_record : DocId → DocId → ℕ → Attendance
blank_record org employee date = record {
  org_id = org;
  employee_id = employee;
  date = date;
  check_in_at = none;
  check_out_at = none;
  worked_minutes = 0;
  status = present;
  source = "web";
  ip = none;
}

abbrev pub on_leave : Attendance → Attendance
on_leave a = record a { status = leave; source = "leave" }

abbrev pub or_same : List Leave → Written Leave → List Leave
or_same xs (written ys) = ys
or_same xs (duplicate key) = xs

-- `Math.round(ms / 60000)`.
abbrev pub minutes : ℕ → ℕ
minutes ms = (ms + 30000) / 60000
