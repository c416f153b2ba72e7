-- ===== src/Lifecycle/Checklist.antt =====
-- What toggling a checklist item does.
use crossbill_back.Base.{ℕ, ◌≡◌, refl, true, false, Option, none, some, arith, find?}
use crossbill_back.Base.Http.{ok}
use crossbill_back.Mongo.{Mongo, violated}
use crossbill_back.Audit.{DocId, log, entry}
use crossbill_back.Employees.{
  Employee, onboarding, active, scoped, employee_indexes, status_only, store_after,
}
use crossbill_back.Employees.Defs.{assert_transition}
use crossbill_back.Employees.Defs as StaffDefs
use crossbill_back.Employees.StatusOnly.{made_status}
use crossbill_back.Lifecycle.Defs.{Onboarding, in_progress, complete, Store}
use crossbill_back.Lifecycle.Onboarding.{
  ToggleChecklistDto, toggle_checklist, toggled, all_done, of_employee,
}

module _ (db : Mongo) (now : ℕ) (org : DocId) (user : Option DocId) (employee item : DocId)
    (dto : ToggleChecklistDto) (s : Store) {doc : Onboarding} {r : Onboarding × Store}
    (found : find? (of_employee org employee) s.onboardings ≡ some doc)
    (done : toggle_checklist db now org user employee item dto s ≡ ok r) where
  -- The employee's record before the completion is written to it.
  abbrev staff : StaffDefs.Store
  staff = record s.staff {
    events = log db (entry "onboarding.item_toggled" org user employee) s.staff.events;
  }

  toggled_lem : r.0 ≡ toggled now item dto doc
  unfolding toggle_checklist
  toggled_lem = ground (arith, db.find_one_lem (of_employee org employee) s.onboardings)

  -- With an item open, or none in the list, the onboarding is in progress and has no completion
  -- time, and no employee changes.
  pub toggle-unfinished :
      all_done r.0.checklist ≡ false
      → (r.0.status ≡ in_progress)
        × (r.0.completed_at ≡ none)
        × (r.1.staff.employees ≡ s.staff.employees)
  unfolding toggle_checklist
  toggle-unfinished unfinished =
      ground (arith, db.find_one_lem (of_employee org employee) s.onboardings, toggled_lem)

  -- When the last open item is done, the onboarding is complete at this time and an employee who was
  -- onboarding becomes active. The employee's keys are taken to be unique, as the indexes demand.
  pub toggle-finished :
      {e : Employee}
      → doc.status ≡ in_progress
      → all_done r.0.checklist ≡ true
      → find? (scoped org employee) s.staff.employees ≡ some e
      → violated employee_indexes e s.staff.employees ≡ none
      → e.status ≡ onboarding
      → (r.0.status ≡ complete)
        × (r.0.completed_at ≡ some now)
        × (find? (scoped org employee) r.1.staff.employees ≡ some (record e { status = active }))
  unfolding toggle_checklist assert_transition
  toggle-finished {e} before all known unique new = (
    ground (arith, toggled_lem),
    ground (arith, toggled_lem),
    rw staff_lem (made_status db org employee active none staff known (rw new refl) unique),
  )
    where
      staff_lem :
          r.1.staff.employees
          ≡ (store_after staff
              (StaffDefs.update db org employee (status_only active) none staff)).employees
      staff_lem =
          ground (arith, db.find_one_lem (of_employee org employee) s.onboardings, toggled_lem)
