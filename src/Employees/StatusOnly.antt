-- ===== src/Employees/StatusOnly.antt =====
-- What a request that has no field but the status does.
use crossbill_back.Base.{◌≡◌, ◌∙◌, Option, none, some, arith, find?, modify_first}
use crossbill_back.Base.Http.{ok, err, HttpError}
use crossbill_back.Base.Updates.{find?-modify_first, find?-holds}
use crossbill_back.Mongo.{Mongo, violated}
use crossbill_back.Audit.{DocId}
use crossbill_back.Employees.Defs.{
  EmployeeStatus, Employee, Store, assert_transition, set_fields, scoped, employee_indexes,
  or_duplicate, update, status_only, store_after,
}

module _ (db : Mongo) (org i : DocId) (status : EmployeeStatus) (user : Option DocId) (s : Store)
    {e : Employee} (found : find? (scoped org i) s.employees ≡ some e) where
  found' : db.find_one (scoped org i) s.employees ≡ some e
  found' = db.find_one_lem (scoped org i) s.employees ∙ found

  -- A transition that the graph lacks changes nothing.
  pub refused_status :
      {x : HttpError}
      → assert_transition e.status status ≡ err x
      → store_after s (update db org i (status_only status) user s) ≡ s
  unfolding update
  refused_status h = ground (arith, found')

  -- One that it has is made, where the employee duplicates no other's keys.
  pub made_status :
      assert_transition e.status status ≡ ok tt
      → violated employee_indexes e s.employees ≡ none
      → find? (scoped org i) (store_after s (update db org i (status_only status) user s)).employees
        ≡ some (record e { status = status })
  unfolding update or_duplicate set_fields
  made_status h v = ground (
    arith,
    found',
    db.update_unique_lem employee_indexes (scoped org i) (set_fields (status_only status))
        s.employees,
    find?-modify_first (scoped org i) (set_fields (status_only status)) s.employees found
        (find?-holds (scoped org i) s.employees found),
    db.find_one_lem (scoped org i)
        (modify_first (scoped org i) (set_fields (status_only status)) s.employees),
  )
