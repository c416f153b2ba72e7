-- ===== src/Payroll/Consistent.antt =====
-- The totals on file are those of the components on file.
use crossbill_back.Base.{◌≡◌, refl, inl, inr, List, [], ◌∷◌, Option, none, some, String, All}
use crossbill_back.Base.Updates.{All-modify_first, All-modify_all, All-remove_first, All-find?}
use crossbill_back.Base.Http.{Result, ok, err}
use crossbill_back.Mongo.{Mongo}
use crossbill_back.Payroll.Defs.{Totals, SalarySlip, UpdateSlipDto, Store, scoped_slip, in_month}
use crossbill_back.Payroll.Slips.{
  create_slip, update_slip, get_slip, remove_slip, rendered, revised, merged,
}
use crossbill_back.Payroll.Runs.{run_payroll, finalise_run, closed_slip}
use crossbill_back.Payroll.Requests.{Request, store_after, alone_after, serve_one, serve}
use crossbill_back.Payroll.Totals.{IsConsistent, AddUp, compute-eq-ok, with_money-IsConsistent}
use crossbill_back.Payroll.Writes.{
  create_slip-eq-ok, update_slip-eq-ok, get_slip-eq-ok, remove_slip-eq-ok, run_payroll-eq-ok,
  finalise_run-eq-ok,
}

abbrev pub Consistent : Store → Type 0
Consistent s = All IsConsistent s.slips

rendered-IsConsistent :
    (now : _) (u : Option String) (slip : SalarySlip)
    → IsConsistent slip
    → IsConsistent (rendered now u slip)
rendered-IsConsistent now none slip h = h
rendered-IsConsistent now (some url) slip h = h

module _ (db : Mongo) (render : SalarySlip → Option String) where
  revised-IsConsistent :
      (dto : UpdateSlipDto) (t : Totals) (old : SalarySlip)
      → AddUp (merged dto.components old) t
      → IsConsistent (revised db render dto t old)
  revised-IsConsistent dto t old h = with_money-IsConsistent (merged dto.components old) t old h

  module _ {ℓ} {A : Type ℓ} (s : Store) where
    -- A request that is refused leaves the slips consistent, as one that goes through does.
    after :
        (r : Result (A × Store))
        → ((a : A × Store) → r ≡ ok a → Consistent a.1)
        → Consistent s
        → Consistent (store_after s r)
    after (ok a) h k = h a refl
    after (err e) h k = k

  serve_one-Consistent :
      (q : Request) (s : Store) → Consistent s → Consistent (serve_one db render q s)
  unfolding serve_one
  serve_one-Consistent (Request.create now i org user dto) s k =
      after s (create_slip db render now i org user dto s)
        (λ r h.
          let (emp, t, slip, totals, fresh, e, answer, wrote, runs) =
            create_slip-eq-ok db s render now i org user dto h in
          rw (wrote, answer, e)
            (
              rendered-IsConsistent now _ _ (
                  with_money-IsConsistent dto.components t _ (compute-eq-ok dto.components totals)),
              k,
            ))
        k
  serve_one-Consistent (Request.update now org user i dto) s k =
      after s (update_slip db render now org user i dto s)
        (λ r h.
          let (old, t, found, open_, totals, answer, wrote, runs) =
            update_slip-eq-ok db s render now org user i dto h in
          let good =
            revised-IsConsistent dto t old (compute-eq-ok (merged dto.components old) totals) in
          rw (wrote, answer)
            (All-modify_first IsConsistent (scoped_slip org i) _ _
              (λ a p c. rendered-IsConsistent now _ _ good)
              (All-modify_first IsConsistent (scoped_slip org i) _ s.slips (λ a p c. good) k)))
        k
  serve_one-Consistent (Request.get now org i) s k =
      after s (get_slip db render now org i s)
        (λ r h.
          let (old, found, wrote) = get_slip-eq-ok db s render now org i h in
          elim wrote [
            | inl e ↦ rw e k
            | inr (e, runs) ↦ rw e (
                All-modify_first IsConsistent (scoped_slip org i) _ s.slips
                  (λ a p c.
                    rendered-IsConsistent now _ old
                      (All-find? IsConsistent (scoped_slip org i) s.slips found k))
                  k)
          ])
        k
  serve_one-Consistent (Request.remove org user i) s k =
      gone (remove_slip db render org user i s) refl
    where
      gone :
          (r : Result Store) → remove_slip db render org user i s ≡ r → Consistent (alone_after s r)
      gone (ok t) h =
          let (old, found, open_, wrote, runs) = remove_slip-eq-ok db s render org user i h in
          rw wrote (All-remove_first IsConsistent (scoped_slip org i) s.slips k)
      gone (err e) h = k
  serve_one-Consistent (Request.run i org user period) s k =
      after s (run_payroll db i org user period s)
        (λ r h. rw (run_payroll-eq-ok db s i org user period h).2 k) k
  serve_one-Consistent (Request.finalise now org user period) s k =
      after s (finalise_run db now org user period s)
        (λ r h.
          let (run, found, open_, answer, runs, wrote) =
            finalise_run-eq-ok db s now org user period h in
          rw wrote (
            All-modify_all IsConsistent (in_month org period) (closed_slip now user) s.slips
              (λ a p c. c) k))
        k

  -- Whatever requests are served, in any order and with refusals among them: if every slip's totals
  -- are those of its components, gross the sum of the earnings, the deductions theirs and net what is
  -- left, then they are so afterwards.
  pub serve-Consistent :
      (qs : List Request) (s : Store) → Consistent s → Consistent (serve db render qs s)
  unfolding serve
  serve-Consistent [] s k = k
  serve-Consistent (q ∷ qs) s k =
      serve-Consistent qs (serve_one db render q s) (serve_one-Consistent q s k)
