-- ===== src/Lifecycle/OneOpen.antt =====
-- An employee has at most one exit that is not settled.
use crossbill_back.Base.{
  ℕ, ◌≤◌, ◌≡◌, sym, ◌∙◌, inl, inr, List, Option, none, arith, find?, filter, length, Option-cases,
  Bool-cases, true, [], ◌∷◌,
}
use crossbill_back.Base.Http.{Result, ok, err, Result-cases}
use crossbill_back.Base.Updates.{count-modify_found, filter-none}
use crossbill_back.Mongo.{Mongo}
use crossbill_back.Audit.{DocId}
use crossbill_back.Employees.Defs as StaffDefs
use crossbill_back.Lifecycle.Defs.{Exit, Store}
use crossbill_back.Lifecycle.Exits.{
  CreateExitDto, UpdateExitDto, create_exit, update_exit, is_open, scoped_exit,
}
use crossbill_back.Lifecycle.Steps.{update_exit-ExitStep}

abbrev pub open_exits : DocId → DocId → Store → ℕ
open_exits org employee s = length (filter (is_open org employee) s.exits)

abbrev pub OneOpen : Store → Type 0
OneOpen s = (org employee : DocId) → open_exits org employee s ≤ 1

is_open_eq : (o x : DocId) (e : Exit) → is_open o x e ≡ true → (e.org_id ≡ o) × (e.employee_id ≡ x)
is_open_eq o x e h = ground arith

none_open :
    (o x : DocId) (e : Exit) (org employee : DocId) (xs : List Exit)
    → (e.org_id ≡ o) × (e.employee_id ≡ x)
    → find? (is_open org employee) xs ≡ none
    → e.org_id ≡ org
    → e.employee_id ≡ employee
    → filter (is_open o x) xs ≡ []
none_open o x e org employee xs (po, px) absent qo qx =
    filter-none (is_open o x) xs (rw (sym po ∙ qo, sym px ∙ qx) absent)

module _ (db : Mongo) (s : Store) where
  create_exit-eq-ok :
      (new_id org : DocId) (user : Option DocId) (dto : CreateExitDto) {r : Exit × Store}
      → create_exit db new_id org user dto s ≡ ok r
      → (find? (is_open org dto.employee_id) s.exits ≡ none)
        × (r.1.exits ≡ r.0 ∷ s.exits)
        × (r.0.org_id ≡ org)
        × (r.0.employee_id ≡ dto.employee_id)
  unfolding create_exit
  create_exit-eq-ok new_id org user dto {r} h =
      elim (Result-cases (StaffDefs.find_one_scoped db org dto.employee_id s.staff)) [
        | inr (x, q) ↦ ground arith
        | inl (emp, q) ↦ elim (Option-cases (db.find_one (is_open org dto.employee_id) s.exits)) [
          | inr (e, p) ↦ ground arith
          | inl p ↦ (
            sym (db.find_one_lem (is_open org dto.employee_id) s.exits) ∙ p,
            ground (arith, db.create_lem [] r.0 s.exits),
            ground arith,
            ground arith,
          )
        ]
      ]

  -- A successful `create_exit` keeps it: the employee had no open exit.
  pub create_exit-OneOpen :
      (new_id org : DocId) (user : Option DocId) (dto : CreateExitDto) {r : Exit × Store}
      → create_exit db new_id org user dto s ≡ ok r
      → OneOpen s
      → OneOpen r.1
  unfolding create_exit
  create_exit-OneOpen new_id org user dto {r} h one o x =
      let (absent, wrote, same_org, same_employee) = create_exit-eq-ok new_id org user dto h in
      rw wrote (elim (Bool-cases (is_open o x r.0)) [
        | inr other ↦ rw other (one o x)
        | inl same ↦
            rw
              (
                same,
                none_open o x r.0 org dto.employee_id s.exits (is_open_eq o x r.0 same) absent
                    same_org same_employee,
              )
              (omega arith)
      ])

  -- So does a successful `update_exit`: it reopens nothing and gives no exit to another employee.
  pub update_exit-OneOpen :
      (now : ℕ) (org : DocId) (user : Option DocId) (i : DocId) (dto : UpdateExitDto)
      {r : Exit × Store}
      → update_exit db now org user i dto s ≡ ok r
      → OneOpen s
      → OneOpen r.1
  update_exit-OneOpen now org user i dto {r} h one o x =
      let (e, found, stepped, wrote) = update_exit-ExitStep db now org user i dto s h in
      rw wrote (
        omega (
          arith,
          one o x,
          count-modify_found (scoped_exit org i) (is_open o x) (λ _. r.0) s.exits found
              (λ open_now. ground (arith, stepped)),
        ))

-- A request to open an exit or to update one, as it reaches the service.
pub data Request : Type 0 where
  open_exit : DocId → DocId → Option DocId → CreateExitDto → Request
  change_exit : ℕ → DocId → Option DocId → DocId → UpdateExitDto → Request

abbrev pub kept : Store → Result (Exit × Store) → Store
kept s (ok r) = r.1
kept s (err e) = s

module _ (db : Mongo) where
  pub serve : Request → Store → Store
  serve (open_exit new_id org user dto) s = kept s (create_exit db new_id org user dto s)
  serve (change_exit now org user i dto) s = kept s (update_exit db now org user i dto s)

  pub serve_all : List Request → Store → Store
  unfolding serve
  serve_all [] s = s
  serve_all (q ∷ qs) s = serve_all qs (serve q s)
