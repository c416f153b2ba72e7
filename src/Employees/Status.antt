-- ===== src/Employees/Status.antt =====
-- An employee's status only moves forward.
use crossbill_back.Base.{
  ℕ, ◌≡◌, refl, sym, ◌∙◌, ◌≤◌, ◌⊎◌, inl, inr, List, [], ◌∷◌, Option, some, arith, Option-cases,
  find?, All₂, modify_first, remove_first,
}
use crossbill_back.Base.Http.{Result, ok, err}
use crossbill_back.Base.Updates.{All₂-refl, All₂-trans, All₂-modify_found}
use crossbill_back.Mongo.{Mongo, modify_unique-written}
use crossbill_back.Audit.{DocId}
use crossbill_back.Employees.Defs.{
  EmployeeStatus, onboarding, active, on_notice, exited, Employee, UpdateEmployeeDto, Store,
  assert_transition, assert_status, set_fields, scoped, store_after, employee_indexes, or_duplicate,
  update, remove,
}

-- The graph of `STATUS_TRANSITIONS`, with the no-op.
pub data Forward : EmployeeStatus → EmployeeStatus → Type 0 where
  stay : {s : EmployeeStatus} → Forward s s
  onboard : Forward onboarding active
  give_notice : Forward active on_notice
  dismiss : Forward active exited
  leave : Forward on_notice exited

pub assert_transition-Forward :
    (from to : EmployeeStatus) → (assert_transition from to ≡ ok tt) → Forward from to
unfolding assert_transition
assert_transition-Forward onboarding onboarding h = stay
assert_transition-Forward onboarding active h = onboard
assert_transition-Forward active active h = stay
assert_transition-Forward active on_notice h = give_notice
assert_transition-Forward active exited h = dismiss
assert_transition-Forward on_notice on_notice h = stay
assert_transition-Forward on_notice exited h = leave
assert_transition-Forward exited exited h = stay
assert_transition-Forward _ _ h = cc

-- How far an employment has come.
abbrev pub rank : EmployeeStatus → ℕ
rank onboarding = 0
rank active = 1
rank on_notice = 2
rank exited = 3

-- The same employee, whose employment has not gone back.
pub record Later (a b : Employee) : Type 0 where
  pub same_id : b.id ≡ a.id
  pub same_org : b.org_id ≡ a.org_id
  pub forward : rank a.status ≤ rank b.status

pub Later-refl : (a : Employee) → Later a a
Later-refl a = omega arith

pub Later-trans : (a b c : Employee) → Later a b → Later b c → Later a c
Later-trans a b c h k = omega arith

pub set_fields-Later :
    (dto : UpdateEmployeeDto) (e : Employee)
    → assert_status e.status dto.status ≡ ok tt
    → Later e (set_fields dto e)
unfolding set_fields assert_transition
set_fields-Later dto e h = ground arith

module _ (db : Mongo) (org i : DocId) (dto : UpdateEmployeeDto) (user : Option DocId)
    (s : Store) where
  -- What a successful update has passed.
  pub update-eq-ok :
      {r : Employee × Store}
      → update db org i dto user s ≡ ok r
      → (current : Employee) × (find? (scoped org i) s.employees ≡ some current)
        × (assert_status current.status dto.status ≡ ok tt)
        × (r.1.employees ≡ modify_first (scoped org i) (set_fields dto) s.employees)
  unfolding update or_duplicate
  update-eq-ok h = elim (Option-cases (db.find_one (scoped org i) s.employees)) [
    | inl e ↦ ground arith
    | inr (current, e) ↦ (
      current,
      sym (db.find_one_lem (scoped org i) s.employees) ∙ e,
      ground arith,
      ground (
        arith,
        db.update_unique_lem employee_indexes (scoped org i) (set_fields dto) s.employees,
        modify_unique-written employee_indexes (scoped org i) (set_fields dto) s.employees,
        db.find_one_lem (scoped org i) s.employees,
      ),
    )
  ]

  -- A successful update leaves every employee's identity alone and moves no status back.
  pub update-Later :
      {r : Employee × Store}
      → update db org i dto user s ≡ ok r
      → All₂ Later s.employees r.1.employees
  update-Later h =
      let (current, found, passed, wrote) = update-eq-ok h in
      rw wrote (
        All₂-modify_found Later Later-refl (scoped org i) (set_fields dto) s.employees found
          (set_fields-Later dto current passed))

-- A request to update: the organisation, the employee, the fields and the caller.
pub record UpdateRequest : Type 0 where
  pub org : DocId
  pub id : DocId
  pub dto : UpdateEmployeeDto
  pub user : Option DocId

module _ (db : Mongo) where
  unfoldable pub serve : List UpdateRequest → Store → Store
  serve [] s = s
  serve (q ∷ qs) s = serve qs (store_after s (update db q.org q.id q.dto q.user s))

  step-Later :
      (q : UpdateRequest) (s : Store)
      → All₂ Later s.employees (store_after s (update db q.org q.id q.dto q.user s)).employees
  step-Later q s = go (update db q.org q.id q.dto q.user s) refl
    where
      go :
          (r : Result (Employee × Store))
          → update db q.org q.id q.dto q.user s ≡ r
          → All₂ Later s.employees (store_after s r).employees
      go (ok r) e = update-Later db q.org q.id q.dto q.user s e
      go (err x) e = All₂-refl Later Later-refl s.employees

  -- However many updates are served, in any order and with failures among them, the employees stay
  -- the same people in the same organisations, and no status ever goes back: in particular an
  -- employee who has exited stays so.
  pub serve-Later :
      (qs : List UpdateRequest) (s : Store) → All₂ Later s.employees (serve qs s).employees
  unfolding serve
  serve-Later [] s = All₂-refl Later Later-refl s.employees
  serve-Later (q ∷ qs) s =
      let next = store_after s (update db q.org q.id q.dto q.user s) in
      All₂-trans Later Later-trans s.employees next.employees (serve qs next).employees
        (step-Later q s) (serve-Later qs next)

  -- A deletion that goes through found an employee of the organisation who was still onboarding or
  -- had exited, and took away that one alone; any other is refused.
  pub remove-eq-ok :
      (org i : DocId) (user : Option DocId) (s : Store) {t : Store}
      → remove db org i user s ≡ ok t
      → (e : Employee) × (find? (scoped org i) s.employees ≡ some e)
        × ((e.status ≡ onboarding) ⊎ (e.status ≡ exited))
        × (t.employees ≡ remove_first (scoped org i) s.employees)
  unfolding remove
  remove-eq-ok org i user s h = elim (Option-cases (db.find_one (scoped org i) s.employees)) [
    | inl e ↦ ground arith
    | inr (current, e) ↦ (
      current,
      sym (db.find_one_lem (scoped org i) s.employees) ∙ e,
      ground arith,
      ground (arith, db.delete_one_lem (scoped org i) s.employees),
    )
  ]
