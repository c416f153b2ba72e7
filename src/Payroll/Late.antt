-- ===== src/Payroll/Late.antt =====
-- A slip of a month that is already final.
use crossbill_back.Base.{◌≡◌, refl, true, ◌∷◌, Option, none, some, String, ℕ, arith, find?}
use crossbill_back.Base.Http.{ok}
use crossbill_back.Mongo.{Mongo}
use crossbill_back.Audit.{DocId}
use crossbill_back.Payroll.Defs.{
  SlipStatus, RunStatus, SalarySlip, PayrollRun, CreateSlipDto, Store, in_month, run_of, with_money,
}
use crossbill_back.Payroll.Slips.{create_slip, rendered}
use crossbill_back.Payroll.Summary.{Closed, final-Closed}
use crossbill_back.Payroll.Writes.{create_slip-eq-ok}

rendered-same :
    (now : ℕ) (u : Option String) (slip : SalarySlip)
    → ((rendered now u slip).status ≡ slip.status)
      × ((rendered now u slip).org_id ≡ slip.org_id)
      × ((rendered now u slip).month ≡ slip.month)
rendered-same now none slip = (refl, refl, refl)
rendered-same now (some url) slip = (refl, refl, refl)

module _ (db : Mongo) (render : SalarySlip → Option String) (now new_id org : DocId)
    (user : Option DocId) (dto : CreateSlipDto) (s : Store) where
  -- A slip that goes through for a month whose run is final is a draft of that month, and the runs
  -- stay as they were; the month can still be neither run nor finalised, so no run counts the slip.
  pub create_slip-late :
      {run : PayrollRun} {r : SalarySlip × Store}
      → find? (run_of org dto.month) s.runs ≡ some run
      → run.status ≡ RunStatus.finalised
      → create_slip db render now new_id org user dto s ≡ ok r
      → (in_month org dto.month r.0 ≡ true)
        × (r.0.status ≡ SlipStatus.draft)
        × (r.1.slips ≡ r.0 ∷ s.slips)
        × (r.1.runs ≡ s.runs)
        × Closed db org dto.month r.1
  unfolding with_money
  create_slip-late {run} {r} found final h =
      let (emp, t, slip, totals, fresh, e, answer, wrote, runs) =
        create_slip-eq-ok db s render now new_id org user dto h in
      let (status, same_org, month) = rendered-same now (render slip) slip in
      (
        ground arith,
        ground arith,
        wrote,
        runs,
        final-Closed db org dto.month r.1 {run = run} (rw runs found) final,
      )
