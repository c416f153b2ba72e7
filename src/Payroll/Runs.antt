-- ===== src/Payroll/Runs.antt =====
-- The handlers on payroll runs. The sums of an aggregation are exact in hundredths: the code adds
-- doubles and rounds the sum to two decimals.
use crossbill_back.Base.{ℕ, ◌+◌, Bool, true, false, List, [], ◌∷◌, Option, none, some, length}
use crossbill_back.Base.Text.{Text}
use crossbill_back.Base.Money.{cents_of, fixed2}
use crossbill_back.Base.Http.{Result, ok, conflict, not_found, ◌>>=◌, ◌>>◌, throw_if, or_throw}
use crossbill_back.Mongo.{Mongo}
use crossbill_back.Audit.{DocId, log, entry}
use crossbill_back.Payroll.Defs.{
  SlipStatus, RunStatus, SalarySlip, PayrollRun, Store, zero_amount, in_month, run_of,
}

-- `$sum` of an amount over the slips that were matched.
unfoldable pub sum_of : (SalarySlip → Text) → List SalarySlip → ℕ
sum_of amount [] = 0
sum_of amount (slip ∷ slips) = cents_of (amount slip) + sum_of amount slips

abbrev pub is_final : RunStatus → Bool
is_final RunStatus.draft = false
is_final RunStatus.finalised = true

abbrev pub final_run : Option PayrollRun → Bool
final_run none = false
final_run (some run) = is_final run.status

-- What `runPayroll` sets, from the slips of the month.
unfoldable pub summarised : List SalarySlip → PayrollRun → PayrollRun
summarised slips run = record run {
  gross = fixed2 (sum_of (λ x. x.gross) slips);
  deductions = fixed2 (sum_of (λ x. x.total_deductions) slips);
  net = fixed2 (sum_of (λ x. x.net) slips);
  slip_count = length slips;
  status = RunStatus.draft;
}

abbrev pub new_run : DocId → DocId → ℕ → PayrollRun
new_run new_id org period = record {
  id = new_id;
  org_id = org;
  period = period;
  status = RunStatus.draft;
  gross = zero_amount;
  deductions = zero_amount;
  net = zero_amount;
  slip_count = 0;
  finalised_at = none;
  finalised_by = none;
}

abbrev pub closed_run : ℕ → DocId → PayrollRun → PayrollRun
closed_run now user run = record run {
  status = RunStatus.finalised;
  finalised_at = some now;
  finalised_by = some user;
}

abbrev pub closed_slip : ℕ → DocId → SalarySlip → SalarySlip
closed_slip now user slip = record slip {
  status = SlipStatus.finalised;
  finalised_at = some now;
  finalised_by = some user;
}

module _ (db : Mongo) where
  unfoldable pub run_payroll :
      DocId → DocId → Option DocId → ℕ → Store → Result (PayrollRun × Store)
  run_payroll new_id org user period s = do
    throw_if (final_run (db.find_one (run_of org period) s.runs))
        (conflict "Payroll run already finalised.")
    let slips = db.find (in_month org period) s.slips
    let (run, runs) =
        db.upsert (run_of org period) (summarised slips) (new_run new_id org period) s.runs
    ok (
      run,
      record s {
        runs = runs;
        staff = record s.staff {
          events = log db (entry "payroll.run_created" org user run.id) s.staff.events;
        };
      },
    )

  unfoldable pub finalise_run : ℕ → DocId → DocId → ℕ → Store → Result (PayrollRun × Store)
  finalise_run now org user period s = do
    run ←
        or_throw (db.find_one (run_of org period) s.runs)
          (not_found "Run not found — generate it first")
    throw_if (is_final run.status) (conflict "Payroll run already finalised.")
    let run' = closed_run now user run
    ok (
      run',
      record s {
        runs = db.update_one (run_of org period) (λ _. run') s.runs;
        slips = db.update_many (in_month org period) (closed_slip now user) s.slips;
        staff = record s.staff {
          events = log db (entry "payroll.run_finalised" org (some user) run.id) s.staff.events;
        };
      },
    )
