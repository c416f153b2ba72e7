-- ===== src/Attendance/Handlers.antt =====
-- The handlers of attendance and leave.
use crossbill_back.Base.{
  ℕ, ◌-◌, false, not, List, [], ◌∷◌, Option, none, some, String, ltb, leb, is_some, if◌then◌else◌,
}
use crossbill_back.Base.Http.{
  Result, ok, bad_request, conflict, not_found, ◌>>=◌, ◌>>◌, throw_if, or_throw,
}
use crossbill_back.Mongo.{Mongo}
use crossbill_back.Audit.{DocId, log, entry}
use crossbill_back.Employees.Defs as StaffDefs
use crossbill_back.Attendance.Defs.{
  present, half, pending, Attendance, Leave, CreateLeaveDto, Store, Decision, outcome, today,
  days_between, each_date, full_day_minutes, is_pending, is_approved, record_of, scoped_leave,
  overlaps, blank_record, on_leave, or_same, minutes,
}

module _ (db : Mongo) where
  unfoldable pub require_active_employee : DocId → DocId → Store → Result (Unit {0})
  require_active_employee org employee s = do
    emp ←
        or_throw (db.find_one (StaffDefs.scoped org employee) s.staff.employees)
          (not_found "Employee not found in this organisation.")
    throw_if (StaffDefs.eq_status emp.status StaffDefs.exited)
        (bad_request "Employee has exited and cannot be marked.")

  abbrev pub audited : String → DocId → Option DocId → DocId → Store → Store
  audited action org user resource s = record s {
    staff = record s.staff { events = log db (entry action org user resource) s.staff.events };
  }

  unfoldable pub check_in : ℕ → DocId → DocId → Option String → Store → Result (Attendance × Store)
  check_in now org employee ip s = do
    require_active_employee org employee s
    throw_if
        (elim (db.find_one (record_of org employee (today now)) s.attendance) [
          | none ↦ false
          | some a ↦ is_some a.check_in_at
        ])
        (conflict "Already checked in for this date.")
    let (doc, attendance) =
        db.upsert (record_of org employee (today now))
          (λ a. record a { check_in_at = some now; status = present; source = "web"; ip = ip })
          (blank_record org employee (today now)) s.attendance
    ok (doc, audited "attendance.check_in" org none employee (record s { attendance = attendance }))

  unfoldable pub check_out : ℕ → DocId → DocId → Store → Result (Attendance × Store)
  check_out now org employee s = do
    require_active_employee org employee s
    doc ←
        or_throw (db.find_one (record_of org employee (today now)) s.attendance)
          (bad_request "No check-in found for this date.")
    start ← or_throw doc.check_in_at (bad_request "No check-in found for this date.")
    throw_if (is_some doc.check_out_at) (conflict "Already checked out for this date.")
    throw_if (leb now start) (bad_request "Check-out must be after check-in.")
    let worked : ℕ = minutes (now - start)
    let doc' : Attendance = record doc {
      check_out_at = some now;
      worked_minutes = worked;
      status = if leb full_day_minutes worked then present else half;
    }
    ok (
      doc',
      audited "attendance.check_out" org none employee (record s {
        attendance = db.update_one (record_of org employee (today now)) (λ _. doc') s.attendance;
      }),
    )

  unfoldable pub request_leave : ℕ → DocId → DocId → CreateLeaveDto → Store → Result (Leave × Store)
  request_leave now new_id org dto s = do
    require_active_employee org dto.employee_id s
    throw_if (ltb dto.to dto.from) (bad_request "End date is before start date.")
    throw_if (ltb dto.from (today now)) (bad_request "Leave cannot start in the past.")
    throw_if (is_some (db.find_one (overlaps org dto.employee_id dto.from dto.to) s.leaves))
        (conflict "Overlapping leave already exists.")
    let doc : Leave = record {
      id = new_id;
      org_id = org;
      employee_id = dto.employee_id;
      kind = dto.kind;
      from = dto.from;
      to = dto.to;
      days = days_between dto.from dto.to;
      reason = dto.reason;
      status = pending;
      approver_id = none;
      decided_by = none;
      decided_at = none;
    }
    ok (
      doc,
      audited "leave.requested" org none new_id
          (record s { leaves = or_same s.leaves (db.create [] doc s.leaves) }),
    )

  -- The loop over the days of an approved leave.
  abbrev pub mark_days : DocId → DocId → List ℕ → List Attendance → List Attendance
  mark_days org employee [] xs = xs
  mark_days org employee (d ∷ ds) xs =
      mark_days org employee ds
        (db.upsert (record_of org employee d) on_leave (blank_record org employee d) xs).1

  abbrev pub decided : ℕ → Decision → DocId → Leave → Leave
  decided now decision approver l = record l {
    status = outcome decision;
    approver_id = some approver;
    decided_by = some approver;
    decided_at = some now;
  }

  unfoldable pub decide_leave :
      ℕ → DocId → DocId → Decision → DocId → Store → Result (Leave × Store)
  decide_leave now org i decision approver s = do
    doc ← or_throw (db.find_one (scoped_leave org i) s.leaves) (not_found "Leave request not found")
    throw_if (not (is_pending doc.status)) (conflict "Leave already decided.")
    let doc' = decided now decision approver doc
    let marked = mark_days org doc.employee_id (each_date doc.from doc.to) s.attendance
    let action : String =
        if is_approved (outcome decision) then "leave.approved" else "leave.rejected"
    ok (
      doc',
      audited action org (some approver) i (record s {
        leaves = db.update_one (scoped_leave org i) (λ _. doc') s.leaves;
        attendance = if is_approved (outcome decision) then marked else s.attendance;
      }),
    )
