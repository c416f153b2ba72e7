-- ===== src/Payroll/Summary.antt =====
-- What a payroll run says of its month, and what finalising it does.
use crossbill_back.Base.{
  ℕ, ◌+◌, ◌≡◌, refl, ap, ◌∙◌, inl, inr, true, not, List, [], ◌∷◌, Option, some, arith, find?,
  filter, length, All, Option-cases, Bool-cases, modify_all,
}
use crossbill_back.Base.Money.{cents_of, cents_of-fixed2}
use crossbill_back.Base.Updates.{find?-modify_first, find?-holds}
use crossbill_back.Base.Http.{ok, err, conflict}
use crossbill_back.Mongo.{Mongo}
use crossbill_back.Audit.{DocId}
use crossbill_back.Payroll.Defs.{
  SlipStatus, RunStatus, SalarySlip, PayrollRun, Store, in_month, run_of,
}
use crossbill_back.Payroll.Runs.{
  sum_of, summarised, new_run, closed_slip, run_payroll, finalise_run,
}
use crossbill_back.Payroll.Totals.{IsConsistent}
use crossbill_back.Payroll.Consistent.{Consistent}
use crossbill_back.Payroll.Writes.{run_payroll-eq-ok, finalise_run-eq-ok}

-- The slips of a month.
abbrev pub month_of : DocId → ℕ → Store → List SalarySlip
month_of org period s = filter (in_month org period) s.slips

-- The summary of the month: the sums of the slips' totals, and how many slips there are.
abbrev pub Summarises : DocId → ℕ → PayrollRun → Store → Type 0
Summarises org period run s =
    (cents_of run.gross ≡ sum_of (λ x. x.gross) (month_of org period s))
    × (cents_of run.deductions ≡ sum_of (λ x. x.total_deductions) (month_of org period s))
    × (cents_of run.net ≡ sum_of (λ x. x.net) (month_of org period s))
    × (run.slip_count ≡ length (month_of org period s))

sums_add_up :
    (org : DocId) (period : ℕ) (xs : List SalarySlip)
    → All IsConsistent xs
    → sum_of (λ x. x.net) (filter (in_month org period) xs)
        + sum_of (λ x. x.total_deductions) (filter (in_month org period) xs)
      ≡ sum_of (λ x. x.gross) (filter (in_month org period) xs)
unfolding sum_of
sums_add_up org period [] h = refl
sums_add_up org period (x ∷ xs) h = elim (Bool-cases (in_month org period x)) [
  | inr n ↦ rw n (sums_add_up org period xs h.1)
  | inl y ↦ let rest = sums_add_up org period xs h.1 in rw y (omega (arith, h.0.2, rest))
]

module _ (db : Mongo) (new_id org : DocId) (user : Option DocId) (period : ℕ) (s : Store) where
  run_shape :
      {r : PayrollRun × Store}
      → run_payroll db new_id org user period s ≡ ok r
      → (run : PayrollRun) × (r.0 ≡ summarised (month_of org period s) run)
  run_shape h =
      let (free, wrote, slips) = run_payroll-eq-ok db s new_id org user period h in
      elim (Option-cases (find? (run_of org period) s.runs)) [
        | inl e ↦ (new_run new_id org period, ground arith)
        | inr (run, e) ↦ (run, ground arith)
      ]

  -- A payroll run that goes through leaves the slips as they are, is a draft, and sums up the slips
  -- of the month; if their totals are those of their components, its net and its deductions make up
  -- its gross.
  pub run_payroll-Summarises :
      {r : PayrollRun × Store}
      → run_payroll db new_id org user period s ≡ ok r
      → (r.1.slips ≡ s.slips)
        × (r.0.status ≡ RunStatus.draft)
        × Summarises org period r.0 s
        × (Consistent s → cents_of r.0.net + cents_of r.0.deductions ≡ cents_of r.0.gross)
  unfolding summarised
  run_payroll-Summarises {r} h =
      let (run, shape) = run_shape h in
      let xs : List SalarySlip = month_of org period s in
      let gross = cents_of-fixed2 (sum_of (λ x. x.gross) xs) in
      let deductions = cents_of-fixed2 (sum_of (λ x. x.total_deductions) xs) in
      let net = cents_of-fixed2 (sum_of (λ x. x.net) xs) in
      (
        (run_payroll-eq-ok db s new_id org user period h).2,
        rw shape refl,
        rw shape (gross, deductions, net, refl),
        λ good. rw (shape, gross, deductions, net) (sums_add_up org period s.slips good),
      )

month_finalised :
    (now org user : DocId) (period : ℕ) (xs : List SalarySlip)
    → All
        (λ slip. in_month org period slip ≡ true → slip.status ≡ SlipStatus.finalised)
        (modify_all (in_month org period) (closed_slip now user) xs)
month_finalised now org user period [] = tt
month_finalised now org user period (x ∷ xs) = elim (Bool-cases (in_month org period x)) [
  | inl y ↦ rw y (λ _. refl, month_finalised now org user period xs)
  | inr n ↦ rw n (λ y. cc, month_finalised now org user period xs)
]

others_kept :
    (now org user : DocId) (period : ℕ) (xs : List SalarySlip)
    → filter
        (λ x. not (in_month org period x))
        (modify_all (in_month org period) (closed_slip now user) xs)
      ≡ filter (λ x. not (in_month org period x)) xs
others_kept now org user period [] = refl
others_kept now org user period (x ∷ xs) = elim (Bool-cases (in_month org period x)) [
  | inl y ↦ rw (y, y) (others_kept now org user period xs)
  | inr n ↦ rw (n, n) (ap (x ∷◌) (others_kept now org user period xs))
]

-- A month whose run is final can be neither run nor finalised.
abbrev pub Closed : Mongo → DocId → ℕ → Store → Type 0
Closed db org period s =
    ((new_id : DocId) (who : Option DocId)
      → run_payroll db new_id org who period s ≡ err (conflict "Payroll run already finalised."))
    × ((now who : DocId)
        → finalise_run db now org who period s ≡ err (conflict "Payroll run already finalised."))

pub final-Closed :
    (db : Mongo) (org : DocId) (period : ℕ) (s : Store) {run : PayrollRun}
    → find? (run_of org period) s.runs ≡ some run
    → run.status ≡ RunStatus.finalised
    → Closed db org period s
unfolding run_payroll finalise_run
final-Closed db org period s found final =
    let found' = db.find_one_lem (run_of org period) s.runs ∙ found in
    (λ i who. rw (found', final) refl, λ now who. rw (found', final) refl)

module _ (db : Mongo) (now org user : DocId) (period : ℕ) (s : Store) where
  -- What a finalisation leaves: right after it the month can be neither run nor finalised again.
  pub finalise_run-Closed :
      {r : PayrollRun × Store}
      → finalise_run db now org user period s ≡ ok r
      → (r.0.status ≡ RunStatus.finalised)
        × All
            (λ slip. in_month org period slip ≡ true → slip.status ≡ SlipStatus.finalised)
            r.1.slips
        × (filter (λ slip. not (in_month org period slip)) r.1.slips
            ≡ filter (λ slip. not (in_month org period slip)) s.slips)
        × Closed db org period r.1
  finalise_run-Closed {r} h =
      let (run, found, free, answer, runs, wrote) = finalise_run-eq-ok db s now org user period h in
      let mine : run_of org period r.0 ≡ true =
        rw answer (find?-holds (run_of org period) s.runs found) in
      let found' : find? (run_of org period) r.1.runs ≡ some r.0 =
        rw runs (find?-modify_first (run_of org period) (λ _. r.0) s.runs found mine) in
      (
        rw answer refl,
        rw wrote (month_finalised now org user period s.slips),
        rw wrote (others_kept now org user period s.slips),
        final-Closed db org period r.1 found' (rw answer refl),
      )
