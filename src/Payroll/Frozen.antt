-- ===== src/Payroll/Frozen.antt =====
-- What has been finalised stays.
use crossbill_back.Base.{
  ℕ, ◌≡◌, refl, sym, ap, ◌∙◌, inl, inr, true, false, List, [], ◌∷◌, Option, none, some, String,
  arith, find?, Memᴰ, modify_first,
}
use crossbill_back.Base.Members.{
  Memᴰ-modify_first, modify_first-Memᴰ, Memᴰ-remove_first, Memᴰ-modify_all,
}
use crossbill_back.Base.Updates.{find?-holds, find?-modify_first}
use crossbill_back.Base.Http.{Result, ok, err}
use crossbill_back.Mongo.{Mongo}
use crossbill_back.Audit.{DocId}
use crossbill_back.Payroll.Defs.{
  SlipStatus, Totals, SalarySlip, UpdateSlipDto, Store, with_money, scoped_slip, in_month,
  is_locked,
}
use crossbill_back.Payroll.Slips.{
  create_slip, update_slip, get_slip, remove_slip, rendered, revised,
}
use crossbill_back.Payroll.Runs.{run_payroll, finalise_run, closed_slip}
use crossbill_back.Payroll.Requests.{Request, store_after, alone_after, serve_one, serve}
use crossbill_back.Payroll.Writes.{
  create_slip-eq-ok, update_slip-eq-ok, get_slip-eq-ok, remove_slip-eq-ok, run_payroll-eq-ok,
  finalise_run-eq-ok,
}

-- A slip without its document and the stamp of its finalisation: the person, the month, the
-- components and the totals are left.
abbrev pub figures : SalarySlip → SalarySlip
figures slip = record slip {
  status = SlipStatus.finalised;
  pdf_url = none;
  generated_at = none;
  finalised_at = none;
  finalised_by = none;
}

-- The slip is on file, with the same figures, and locked.
abbrev pub Kept : SalarySlip → Store → Type 0
Kept a s = (b : SalarySlip) × Memᴰ b s.slips × (figures b ≡ figures a) × (is_locked b.status ≡ true)

rendered-figures :
    (now : ℕ) (u : Option String) (slip : SalarySlip)
    → (figures (rendered now u slip) ≡ figures slip) × ((rendered now u slip).status ≡ slip.status)
rendered-figures now none slip = (refl, refl)
rendered-figures now (some url) slip = (refl, refl)

-- An update leaves a draft a draft, and its key alone.
module _ (db : Mongo) (render : SalarySlip → Option String) where
  revised-free :
      (dto : UpdateSlipDto) (t : Totals) (old : SalarySlip)
      → is_locked old.status ≡ false
      → is_locked (revised db render dto t old).status ≡ false
  unfolding with_money
  revised-free dto t old h = ground arith

  revised-scoped :
      (org i : DocId) (dto : UpdateSlipDto) (t : Totals) (old : SalarySlip)
      → scoped_slip org i old ≡ true
      → scoped_slip org i (revised db render dto t old) ≡ true
  unfolding with_money
  revised-scoped org i dto t old h = h

not_it : (a d : SalarySlip) → is_locked a.status ≡ true → is_locked d.status ≡ false → ¬ (a ≡ d)
not_it a d h k e = cc (ap (λ x. is_locked x.status) e, h, k)

module _ (db : Mongo) (render : SalarySlip → Option String) (a : SalarySlip)
    (locked : is_locked a.status ≡ true) where
  module _ {ℓ} {A : Type ℓ} (s : Store) where
    after :
        (r : Result (A × Store))
        → ((x : A × Store) → r ≡ ok x → Kept a x.1)
        → Memᴰ a s.slips
        → Kept a (store_after s r)
    after (ok x) h m = h x refl
    after (err e) h m = (a, m, refl, locked)

  -- A slip that is not locked may be written over.
  kept_over :
      (org i : DocId) (xs : List SalarySlip) {d : SalarySlip} (f : SalarySlip → SalarySlip)
      → find? (scoped_slip org i) xs ≡ some d
      → is_locked d.status ≡ false
      → Memᴰ a xs
      → Memᴰ a (modify_first (scoped_slip org i) f xs)
  kept_over org i xs f found free m = elim (Memᴰ-modify_first (scoped_slip org i) f xs found m) [
    | inl e ↦ absurd (not_it a _ locked free e)
    | inr m' ↦ m'
  ]

  serve_one-Kept : (q : Request) (s : Store) → Memᴰ a s.slips → Kept a (serve_one db render q s)
  unfolding serve_one
  serve_one-Kept (Request.create now i org user dto) s m =
      after s (create_slip db render now i org user dto s)
        (λ r h.
          let (emp, t, slip, totals, fresh, e, answer, wrote, runs) =
            create_slip-eq-ok db s render now i org user dto h in
          (a, rw wrote (Memᴰ.tail m), refl, locked))
        m
  serve_one-Kept (Request.update now org user i dto) s m =
      after s (update_slip db render now org user i dto s)
        (λ r h.
          let (old, t, found, free, totals, answer, wrote, runs) =
            update_slip-eq-ok db s render now org user i dto h in
          (
            a,
            rw wrote (
                kept_over org i
                  (modify_first (scoped_slip org i) (λ _. revised db render dto t old) s.slips)
                  (λ _. r.0)
                  (find?-modify_first (scoped_slip org i) (λ _. revised db render dto t old) s.slips
                    found
                    (revised-scoped db render org i dto t old
                      (find?-holds (scoped_slip org i) s.slips found)))
                  (revised-free db render dto t old free)
                  (kept_over org i s.slips (λ _. revised db render dto t old) found free m)),
            refl,
            locked,
          ))
        m
  serve_one-Kept (Request.get now org i) s m =
      after s (get_slip db render now org i s)
        (λ r h.
          let (old, found, wrote) = get_slip-eq-ok db s render now org i h in
          elim wrote [
            | inl e ↦ (a, rw e m, refl, locked)
            | inr (e, runs) ↦
                elim (Memᴰ-modify_first (scoped_slip org i) (λ _. rendered now (render old) old)
                  s.slips found m) [
                    | inr m' ↦ (a, rw e m', refl, locked)
                    | inl q ↦ (
                      rendered now (render old) old,
                      rw e (
                          modify_first-Memᴰ (scoped_slip org i) (λ _. rendered now (render old) old)
                            s.slips found),
                      (rendered-figures now (render old) old).0 ∙ sym (ap figures q),
                      ap is_locked (rendered-figures now (render old) old).1
                          ∙ sym (ap (λ x. is_locked x.status) q)
                          ∙ locked,
                    )
                  ]
          ])
        m
  serve_one-Kept (Request.remove org user i) s m = gone (remove_slip db render org user i s) refl
    where
      gone : (r : Result Store) → remove_slip db render org user i s ≡ r → Kept a (alone_after s r)
      gone (ok t) h =
          let (old, found, free, wrote, runs) = remove_slip-eq-ok db s render org user i h in
          elim (Memᴰ-remove_first (scoped_slip org i) s.slips found m) [
            | inl e ↦ absurd (not_it a old locked free e)
            | inr m' ↦ (a, rw wrote m', refl, locked)
          ]
      gone (err e) h = (a, m, refl, locked)
  serve_one-Kept (Request.run i org user period) s m =
      after s (run_payroll db i org user period s)
        (λ r h. (a, rw (run_payroll-eq-ok db s i org user period h).2 m, refl, locked)) m
  serve_one-Kept (Request.finalise now org user period) s m =
      after s (finalise_run db now org user period s)
        (λ r h.
          let (run, found, free, answer, runs, wrote) =
            finalise_run-eq-ok db s now org user period h in
          elim (Memᴰ-modify_all (in_month org period) (closed_slip now user) s.slips m) [
            | inl m' ↦ (a, rw wrote m', refl, locked)
            | inr (_, m') ↦ (closed_slip now user a, rw wrote m', refl, refl)
          ])
        m

module _ (db : Mongo) (render : SalarySlip → Option String) where
  -- Whatever requests are served, in any order and with refusals among them: a slip that is
  -- finalised or shared is still on file afterwards, still locked, for the same person and month and
  -- with the same components and totals. Only its document and its stamp of finalisation may change.
  pub serve-Kept :
      (qs : List Request) (s : Store) (a : SalarySlip)
      → is_locked a.status ≡ true
      → Memᴰ a s.slips
      → Kept a (serve db render qs s)
  unfolding serve
  serve-Kept [] s a locked m = (a, m, refl, locked)
  serve-Kept (q ∷ qs) s a locked m =
      let (b, mb, eb, lb) = serve_one-Kept db render a locked q s m in
      let (c, mc, ec, lc) = serve-Kept qs (serve_one db render q s) b lb mb in (c, mc, ec ∙ eb, lc)
