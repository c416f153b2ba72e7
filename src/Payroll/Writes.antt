-- ===== src/Payroll/Writes.antt =====
-- What a request that goes through has checked, and what it has written.
use crossbill_back.Base.{
  ℕ, ◌≡◌, refl, sym, ◌∙◌, ◌⊎◌, inl, inr, true, false, List, ◌∷◌, Option, none, some, String, arith,
  Option-cases, find?, filter, modify_first, modify_all, remove_first, upsert_first,
}
use crossbill_back.Base.Updates.{find?-holds}
use crossbill_back.Base.Http.{ok, Result-cases}
use crossbill_back.Mongo.{Mongo}
use crossbill_back.Audit.{DocId}
use crossbill_back.Employees.Defs as StaffDefs
use crossbill_back.Payroll.Defs.{
  Totals, SalarySlip, PayrollRun, CreateSlipDto, UpdateSlipDto, Store, is_locked, compute,
  with_money, scoped_slip, slip_of, in_month, run_of, slip_indexes,
}
use crossbill_back.Payroll.Slips.{
  merged, revised, rendered, blank_slip, generate_pdf, create_slip, update_slip, get_slip,
  remove_slip,
}
use crossbill_back.Payroll.Runs.{
  is_final, final_run, summarised, new_run, closed_run, closed_slip, run_payroll, finalise_run,
}

scoped_slip-eq :
    (org i : DocId) (slip : SalarySlip)
    → scoped_slip org i slip ≡ true
    → (slip.id ≡ i) × (slip.org_id ≡ org)
scoped_slip-eq org i slip h = ground arith

module _ (db : Mongo) (s : Store) where
  module _ (render : SalarySlip → Option String) (now : ℕ) where
    -- The document after `generate_pdf`, and the collection.
    pdf-eq :
        (slip : SalarySlip) (xs : List SalarySlip)
        → generate_pdf db render now slip xs ≡ (
          rendered now (render slip) slip,
          modify_first (scoped_slip slip.org_id slip.id) (λ _. rendered now (render slip) slip) xs,
        )
    unfolding generate_pdf
    pdf-eq slip xs = ground (
      arith,
      db.update_one_lem (scoped_slip slip.org_id slip.id) (λ _. rendered now (render slip) slip) xs,
    )

    pub create_slip-eq-ok :
        (new_id org : DocId) (user : Option DocId) (dto : CreateSlipDto) {r : SalarySlip × Store}
        → create_slip db render now new_id org user dto s ≡ ok r
        → (emp : StaffDefs.Employee) × (t : Totals) × (slip : SalarySlip) × (compute dto.components
            ≡ ok t)
          × (find? (slip_of org dto.employee_id dto.month) s.slips ≡ none)
          × (slip ≡ with_money dto.components t (blank_slip new_id org dto emp))
          × (r.0 ≡ rendered now (render slip) slip)
          × (r.1.slips ≡ r.0 ∷ s.slips)
          × (r.1.runs ≡ s.runs)
    unfolding create_slip
    create_slip-eq-ok new_id org user dto {r} h =
        elim (Result-cases (StaffDefs.find_one_scoped db org dto.employee_id s.staff)) [
          | inr (x, q) ↦ ground arith
          | inl (emp, q) ↦
              elim (Option-cases (db.find_one (slip_of org dto.employee_id dto.month) s.slips)) [
                | inr (d, e) ↦ ground arith
                | inl e ↦ elim (Result-cases (compute dto.components)) [
                  | inr (x, k) ↦ ground arith
                  | inl (t, k) ↦
                      let slip : SalarySlip =
                        with_money dto.components t (blank_slip new_id org dto emp) in
                      (
                        emp,
                        t,
                        slip,
                        k,
                        sym (db.find_one_lem (slip_of org dto.employee_id dto.month) s.slips) ∙ e,
                        refl,
                        ground (
                          arith,
                          pdf-eq slip (slip ∷ s.slips),
                          db.create_lem slip_indexes slip s.slips,
                        ),
                        ground (
                          arith,
                          pdf-eq slip (slip ∷ s.slips),
                          db.create_lem slip_indexes slip s.slips,
                        ),
                        ground (
                          arith,
                          pdf-eq slip (slip ∷ s.slips),
                          db.create_lem slip_indexes slip s.slips,
                        ),
                      )
                ]
              ]
        ]

    pub update_slip-eq-ok :
        (org : DocId) (user : Option DocId) (i : DocId) (dto : UpdateSlipDto)
        {r : SalarySlip × Store}
        → update_slip db render now org user i dto s ≡ ok r
        → (old : SalarySlip) × (t : Totals) × (find? (scoped_slip org i) s.slips ≡ some old)
          × (is_locked old.status ≡ false)
          × (compute (merged dto.components old) ≡ ok t)
          × (r.0
              ≡ rendered now (render (revised db render dto t old)) (revised db render dto t old))
          × (r.1.slips
              ≡ modify_first
                  (scoped_slip org i)
                  (λ _. r.0)
                  (modify_first (scoped_slip org i) (λ _. revised db render dto t old) s.slips))
          × (r.1.runs ≡ s.runs)
    unfolding update_slip with_money
    update_slip-eq-ok org user i dto {r} h =
        elim (Option-cases (db.find_one (scoped_slip org i) s.slips)) [
          | inl e ↦ ground arith
          | inr (old, e) ↦ elim (Result-cases (compute (merged dto.components old))) [
            | inr (x, k) ↦ ground arith
            | inl (t, k) ↦
                let slip1 : SalarySlip = revised db render dto t old in
                let xs : List SalarySlip = db.update_one (scoped_slip org i) (λ _. slip1) s.slips in
                let found : find? (scoped_slip org i) s.slips ≡ some old =
                  sym (db.find_one_lem (scoped_slip org i) s.slips) ∙ e in
                let (same_id, same_org) =
                  scoped_slip-eq org i old (find?-holds (scoped_slip org i) s.slips found) in
                (
                  old,
                  t,
                  found,
                  ground arith,
                  k,
                  ground (arith, pdf-eq slip1 xs),
                  ground (
                    arith,
                    pdf-eq slip1 xs,
                    db.update_one_lem (scoped_slip org i) (λ _. slip1) s.slips,
                  ),
                  ground (arith, pdf-eq slip1 xs),
                )
          ]
        ]

    pub get_slip-eq-ok :
        (org i : DocId) {r : SalarySlip × Store}
        → get_slip db render now org i s ≡ ok r
        → (old : SalarySlip) × (find? (scoped_slip org i) s.slips ≡ some old)
          × ((r.1 ≡ s)
              ⊎ ((r.1.slips
                    ≡ modify_first (scoped_slip org i) (λ _. rendered now (render old) old) s.slips)
                  × (r.1.runs ≡ s.runs)))
    unfolding get_slip
    get_slip-eq-ok org i {r} h = elim (Option-cases (db.find_one (scoped_slip org i) s.slips)) [
      | inl e ↦ ground arith
      | inr (old, e) ↦
          let found : find? (scoped_slip org i) s.slips ≡ some old =
            sym (db.find_one_lem (scoped_slip org i) s.slips) ∙ e in
          let (same_id, same_org) =
            scoped_slip-eq org i old (find?-holds (scoped_slip org i) s.slips found) in
          (old, found, ground (arith, pdf-eq old s.slips))
    ]

  pub remove_slip-eq-ok :
      (render : SalarySlip → Option String) (org : DocId) (user : Option DocId) (i : DocId)
      {t : Store}
      → remove_slip db render org user i s ≡ ok t
      → (old : SalarySlip) × (find? (scoped_slip org i) s.slips ≡ some old)
        × (is_locked old.status ≡ false)
        × (t.slips ≡ remove_first (scoped_slip org i) s.slips)
        × (t.runs ≡ s.runs)
  unfolding remove_slip
  remove_slip-eq-ok render org user i h =
      elim (Option-cases (db.find_one (scoped_slip org i) s.slips)) [
        | inl e ↦ ground arith
        | inr (old, e) ↦ (
          old,
          sym (db.find_one_lem (scoped_slip org i) s.slips) ∙ e,
          ground arith,
          ground (arith, db.delete_one_lem (scoped_slip org i) s.slips),
          ground arith,
        )
      ]

  pub run_payroll-eq-ok :
      (new_id org : DocId) (user : Option DocId) (period : ℕ) {r : PayrollRun × Store}
      → run_payroll db new_id org user period s ≡ ok r
      → (final_run (find? (run_of org period) s.runs) ≡ false)
        × ((r.0, r.1.runs)
            ≡ upsert_first
                (run_of org period)
                (summarised (filter (in_month org period) s.slips))
                (new_run new_id org period)
                s.runs)
        × (r.1.slips ≡ s.slips)
  unfolding run_payroll
  run_payroll-eq-ok new_id org user period h = (
    ground (arith, db.find_one_lem (run_of org period) s.runs),
    ground (
      arith,
      db.find_lem (in_month org period) s.slips,
      db.upsert_lem (run_of org period) (summarised (filter (in_month org period) s.slips))
          (new_run new_id org period) s.runs,
    ),
    ground arith,
  )

  pub finalise_run-eq-ok :
      (now org user : DocId) (period : ℕ) {r : PayrollRun × Store}
      → finalise_run db now org user period s ≡ ok r
      → (run : PayrollRun) × (find? (run_of org period) s.runs ≡ some run)
        × (is_final run.status ≡ false)
        × (r.0 ≡ closed_run now user run)
        × (r.1.runs ≡ modify_first (run_of org period) (λ _. r.0) s.runs)
        × (r.1.slips ≡ modify_all (in_month org period) (closed_slip now user) s.slips)
  unfolding finalise_run
  finalise_run-eq-ok now org user period {r} h =
      elim (Option-cases (db.find_one (run_of org period) s.runs)) [
        | inl e ↦ ground arith
        | inr (run, e) ↦ (
          run,
          sym (db.find_one_lem (run_of org period) s.runs) ∙ e,
          ground arith,
          ground arith,
          ground (arith, db.update_one_lem (run_of org period) (λ _. r.0) s.runs),
          ground (arith, db.update_many_lem (in_month org period) (closed_slip now user) s.slips),
        )
      ]
