-- ===== src/Lifecycle/Settlement.antt =====
-- What settling an exit does to the employee.
use crossbill_back.Base.{ℕ, ◌≡◌, ◌≢◌, refl, ap, ◌∙◌, Option, none, some, arith, find?}
use crossbill_back.Base.Http.{ok, err, bad_request}
use crossbill_back.Mongo.{Mongo, violated}
use crossbill_back.Audit.{DocId}
use crossbill_back.Employees.{
  Employee, onboarding, active, on_notice, exited, scoped, employee_indexes, status_only,
  store_after,
}
use crossbill_back.Employees.Defs.{assert_transition}
use crossbill_back.Employees.Defs as StaffDefs
use crossbill_back.Employees.StatusOnly.{refused_status, made_status}
use crossbill_back.Lifecycle.Defs.{settled, Exit, Store}
use crossbill_back.Lifecycle.Exits.{UpdateExitDto, update_exit, scoped_exit, updated_exit}
use crossbill_back.Lifecycle.Onboarding.{set_employee_status}
use crossbill_back.Lifecycle.Steps.{update_exit-eq-ok}

module _ (db : Mongo) (now : ℕ) (org : DocId) (user : Option DocId) (i : DocId)
    (dto : UpdateExitDto) (s : Store) where
  -- A settled exit is refused every further update.
  pub settled_refused :
      {e : Exit}
      → find? (scoped_exit org i) s.exits ≡ some e
      → e.status ≡ settled
      → update_exit db now org user i dto s
        ≡ err (bad_request "This exit is settled and can no longer be changed.")
  unfolding update_exit updated_exit
  settled_refused found done = ground (arith, db.find_one_lem (scoped_exit org i) s.exits)

  -- The update of the staff that settling makes.
  settle-staff :
      {r : Exit × Store}
      → update_exit db now org user i dto s ≡ ok r
      → r.0.status ≡ settled
      → r.1.staff.employees
        ≡ (store_after s.staff
            (StaffDefs.update db org r.0.employee_id (status_only exited) none s.staff)).employees
  unfolding update_exit set_employee_status
  settle-staff h done =
      let (e, found, updated, wrote) = update_exit-eq-ok db now org user i dto s h in
      ground (arith, db.find_one_lem (scoped_exit org i) s.exits)

  -- When an update settles an exit, its employee ends up exited, if the employment had begun: active,
  -- on notice or already exited. The employee's keys are taken to be unique, as the indexes demand.
  pub settle-exits :
      {r : Exit × Store} {e : Employee}
      → update_exit db now org user i dto s ≡ ok r
      → r.0.status ≡ settled
      → find? (scoped org r.0.employee_id) s.staff.employees ≡ some e
      → violated employee_indexes e s.staff.employees ≡ none
      → e.status ≢ onboarding
      → find? (scoped org r.0.employee_id) r.1.staff.employees ≡ some (record e { status = exited })
  settle-exits {r} {e} h done found unique began = rw (settle-staff h done) (
      made_status db org r.0.employee_id exited none s.staff found (may_exit e.status began) unique)
    where
      may_exit :
          (st : StaffDefs.EmployeeStatus) → st ≢ onboarding → assert_transition st exited ≡ ok tt
      may_exit onboarding ne = absurd (ne refl)
      may_exit active ne = unfold assert_transition in refl
      may_exit on_notice ne = unfold assert_transition in refl
      may_exit exited ne = unfold assert_transition in refl

  -- An employee who is still onboarding keeps that status when the exit is settled: the transition to
  -- exited is refused and the refusal is swallowed.
  pub settle-keeps-onboarding :
      {r : Exit × Store} {e : Employee}
      → update_exit db now org user i dto s ≡ ok r
      → r.0.status ≡ settled
      → find? (scoped org r.0.employee_id) s.staff.employees ≡ some e
      → e.status ≡ onboarding
      → r.1.staff.employees ≡ s.staff.employees
  unfolding assert_transition
  settle-keeps-onboarding {r} {e} h done found began =
      settle-staff h done
      ∙ ap (λ (t : StaffDefs.Store). t.employees)
          (refused_status db org r.0.employee_id exited none s.staff found
            {x = bad_request "Invalid status transition"} (rw began refl))
