-- ===== src/Payroll/Final.antt =====
-- A month that has been finalised is final: no later request opens its run.
use crossbill_back.Base.{
  ℕ, ◌≡◌, refl, ap, ◌∙◌, inl, inr, true, false, not, ◌==◌, ◌&&◌, List, [], ◌∷◌, Option, some,
  String, arith, find?, filter, modify_first, upsert_first, All, Option-cases, Bool-cases,
}
use crossbill_back.Base.Updates.{find?-modify_first, find?-modify_first_ne, find?-holds}
use crossbill_back.Base.Http.{Result, ok, err}
use crossbill_back.Mongo.{Mongo}
use crossbill_back.Audit.{DocId}
use crossbill_back.Payroll.Defs.{
  SlipStatus, RunStatus, SalarySlip, PayrollRun, Store, in_month, run_of,
}
use crossbill_back.Payroll.Slips.{create_slip, update_slip, get_slip, remove_slip}
use crossbill_back.Payroll.Runs.{summarised, new_run, run_payroll, finalise_run}
use crossbill_back.Payroll.Requests.{Request, store_after, alone_after, serve_one, serve}
use crossbill_back.Payroll.Writes.{
  create_slip-eq-ok, update_slip-eq-ok, get_slip-eq-ok, remove_slip-eq-ok, run_payroll-eq-ok,
  finalise_run-eq-ok,
}
use crossbill_back.Payroll.Summary.{Closed, final-Closed, finalise_run-Closed}

-- The run of the month on file is this one.
abbrev pub HasRun : DocId → ℕ → PayrollRun → List PayrollRun → Type 0
HasRun org period run runs = find? (run_of org period) runs ≡ some run

other_month :
    (o org p period : ℕ) (run : PayrollRun)
    → ((o == org) && (p == period)) ≡ false
    → run_of o p run ≡ true
    → run_of org period run ≡ false
other_month o org p period run n h = ground arith

module _ (db : Mongo) (render : SalarySlip → Option String) (org : DocId) (period : ℕ)
    (final : PayrollRun) (closed : final.status ≡ RunStatus.finalised) where
  HasRun-after :
      {A : Type 0} (s : Store) (r : Result (A × Store))
      → ((x : A × Store) → r ≡ ok x → HasRun org period final x.1.runs)
      → HasRun org period final s.runs
      → HasRun org period final (store_after s r).runs
  HasRun-after s (ok x) h k = h x refl
  HasRun-after s (err e) h k = k

  HasRun-alone :
      (s : Store) (r : Result Store)
      → ((t : Store) → r ≡ ok t → HasRun org period final t.runs)
      → HasRun org period final s.runs
      → HasRun org period final (alone_after s r).runs
  HasRun-alone s (ok t) h k = h t refl
  HasRun-alone s (err e) h k = k

  summarised-keeps_month :
      (o p : ℕ) (slips : List SalarySlip) (run : PayrollRun)
      → run_of o p (summarised slips run) ≡ run_of o p run
  unfolding summarised
  summarised-keeps_month o p slips run = refl

  -- A run of any month leaves the finalised one as it is.
  run_payroll-HasRun :
      (new_id o : DocId) (user : Option DocId) (p : ℕ) (s : Store) {r : PayrollRun × Store}
      → run_payroll db new_id o user p s ≡ ok r
      → HasRun org period final s.runs
      → HasRun org period final r.1.runs
  run_payroll-HasRun new_id o user p s {r} h has =
      let (free, wrote, slips) = run_payroll-eq-ok db s new_id o user p h in
      let xs : List SalarySlip = filter (in_month o p) s.slips in
      let runs : r.1.runs
          ≡ (upsert_first (run_of o p) (summarised xs) (new_run new_id o p) s.runs).1 =
        ap (λ w. w.1) wrote in
      elim (Bool-cases ((o == org) && (p == period))) [
        | inl y ↦
            let so : o ≡ org = ground arith in
            let sp : p ≡ period = ground arith in
            let mine : find? (run_of o p) s.runs ≡ some final = rw (so, sp) has in
            ground (arith, mine)
        | inr n ↦ elim (Option-cases (find? (run_of o p) s.runs)) [
          | inl e ↦
              let apart : run_of org period (summarised xs (new_run new_id o p)) ≡ false =
                summarised-keeps_month org period xs (new_run new_id o p) ∙ n in
              let all : r.1.runs ≡ summarised xs (new_run new_id o p) ∷ s.runs =
                runs ∙ rw (upsert_first, e) refl in
              rw (all, apart) has
          | inr (old, e) ↦
              let all : r.1.runs ≡ modify_first (run_of o p) (summarised xs) s.runs =
                runs ∙ rw (upsert_first, e) refl in
              rw all (
                find?-modify_first_ne (run_of o p) (run_of org period) (summarised xs) s.runs
                  (λ a m. (
                    other_month o org p period a n m,
                    summarised-keeps_month org period xs a ∙ other_month o org p period a n m,
                  ))
                ∙ has)
        ]
      ]

  finalise_run-HasRun :
      (now o user : DocId) (p : ℕ) (s : Store) {r : PayrollRun × Store}
      → finalise_run db now o user p s ≡ ok r
      → HasRun org period final s.runs
      → HasRun org period final r.1.runs
  finalise_run-HasRun now o user p s {r} h has =
      let (run, found, free, answer, runs, wrote) = finalise_run-eq-ok db s now o user p h in
      elim (Bool-cases ((o == org) && (p == period))) [
        | inl y ↦
            let so : o ≡ org = ground arith in
            let sp : p ≡ period = ground arith in
            let mine : find? (run_of o p) s.runs ≡ some final = rw (so, sp) has in
            ground (arith, mine)
        | inr n ↦
            let old : run_of o p run ≡ true = find?-holds (run_of o p) s.runs found in
            let apart : run_of org period r.0 ≡ false =
              rw answer (other_month o org p period run n old) in
            rw runs (
              find?-modify_first_ne (run_of o p) (run_of org period) (λ _. r.0) s.runs
                (λ a m. (other_month o org p period a n m, apart))
              ∙ has)
      ]

  serve_one-HasRun :
      (q : Request) (s : Store)
      → HasRun org period final s.runs
      → HasRun org period final (serve_one db render q s).runs
  unfolding serve_one
  serve_one-HasRun (Request.create now i o user dto) s has =
      HasRun-after s (create_slip db render now i o user dto s)
        (λ x h.
          let (emp, t, slip, k, free, e, answer, slips, runs) =
            create_slip-eq-ok db s render now i o user dto h in
          rw runs has)
        has
  serve_one-HasRun (Request.update now o user i dto) s has =
      HasRun-after s (update_slip db render now o user i dto s)
        (λ x h.
          let (old, t, found, free, k, answer, slips, runs) =
            update_slip-eq-ok db s render now o user i dto h in
          rw runs has)
        has
  serve_one-HasRun (Request.get now o i) s has =
      HasRun-after s (get_slip db render now o i s)
        (λ x h.
          let (old, found, wrote) = get_slip-eq-ok db s render now o i h in
          elim wrote [ inl same ↦ rw same has | inr (slips, runs) ↦ rw runs has ])
        has
  serve_one-HasRun (Request.remove o user i) s has =
      HasRun-alone s (remove_slip db render o user i s)
        (λ t h.
          let (old, found, free, slips, runs) = remove_slip-eq-ok db s render o user i h in
          rw runs has)
        has
  serve_one-HasRun (Request.run i o user p) s has =
      HasRun-after s (run_payroll db i o user p s) (λ x h. run_payroll-HasRun i o user p s h has)
        has
  serve_one-HasRun (Request.finalise now o user p) s has =
      HasRun-after s (finalise_run db now o user p s)
        (λ x h. finalise_run-HasRun now o user p s h has) has

  serve-HasRun :
      (qs : List Request) (s : Store)
      → HasRun org period final s.runs
      → HasRun org period final (serve db render qs s).runs
  unfolding serve
  serve-HasRun [] s has = has
  serve-HasRun (q ∷ qs) s has = serve-HasRun qs (serve_one db render q s) (serve_one-HasRun q s has)

module _ (db : Mongo) (render : SalarySlip → Option String) (now org user : DocId) (period : ℕ)
    (s : Store) where
  -- A finalisation that goes through finalises the run of the month and every slip of the month; other slips stay as they are. However many payroll requests follow, the run on
  -- file stays the one that was finalised, and the month can be neither run nor finalised again.
  pub finalise_run-final :
      (qs : List Request) {r : PayrollRun × Store}
      → finalise_run db now org user period s ≡ ok r
      → (r.0.status ≡ RunStatus.finalised)
        × All
            (λ slip. in_month org period slip ≡ true → slip.status ≡ SlipStatus.finalised)
            r.1.slips
        × (filter (λ slip. not (in_month org period slip)) r.1.slips
            ≡ filter (λ slip. not (in_month org period slip)) s.slips)
        × (find? (run_of org period) (serve db render qs r.1).runs ≡ some r.0)
        × Closed db org period (serve db render qs r.1)
  finalise_run-final qs {r} h =
      let (run, found, free, answer, runs, wrote) = finalise_run-eq-ok db s now org user period h in
      let (final, slips, others, closed) = finalise_run-Closed db now org user period s h in
      let mine : run_of org period r.0 ≡ true =
        rw answer (find?-holds (run_of org period) s.runs found) in
      let found' : find? (run_of org period) r.1.runs ≡ some r.0 =
        rw runs (find?-modify_first (run_of org period) (λ _. r.0) s.runs found mine) in
      let still : find? (run_of org period) (serve db render qs r.1).runs ≡ some r.0 =
        serve-HasRun db render org period r.0 final qs r.1 found' in
      (final, slips, others, still, final-Closed db org period (serve db render qs r.1) still final)
