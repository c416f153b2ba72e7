-- ===== src/Agreements/TermWrites.antt =====
-- What the handlers of the contract's terms have found and written, when they go through.
use crossbill_back.Base.{◌≡◌, refl, inl, inr, arith, Option-cases, modify_first, remove_first}
use crossbill_back.Base.Http.{ok}
use crossbill_back.Mongo.{Mongo}
use crossbill_back.Audit.{DocId}
use crossbill_back.Agreements.Defs.{Agreement, Store, scoped}
use crossbill_back.Agreements.Contract.{
  LifecycleDto, ObligationDto, dated, obliged, is_obligation, flipped, set_lifecycle,
  add_obligation, toggle_obligation, remove_obligation,
}
use crossbill_back.Agreements.Writes.{Wrote, find_scoped}

module _ (db : Mongo) (s : Store) where
  pub set_lifecycle-Wrote :
      (now org i : DocId) (dto : LifecycleDto) {r : Agreement × Store}
      → set_lifecycle db now org i dto s ≡ ok r
      → Wrote (scoped org i) (λ old new. new ≡ dated now dto old) s r.1
  unfolding set_lifecycle
  set_lifecycle-Wrote now org i dto {r} h =
      elim (Option-cases (db.find_one (scoped org i) s.agreements)) [
        | inl e ↦ ground arith
        | inr (old, e) ↦
            let new : Agreement = dated now dto old in
            (
              old,
              new,
              find_scoped db s org i e,
              ground (arith, db.update_one_lem (scoped org i) (λ _. new) s.agreements),
              refl,
            )
      ]

  pub add_obligation-Wrote :
      (new_id org i : DocId) (dto : ObligationDto) {r : Agreement × Store}
      → add_obligation db new_id org i dto s ≡ ok r
      → Wrote (scoped org i) (λ old new. new ≡ obliged new_id dto old) s r.1
  unfolding add_obligation
  add_obligation-Wrote new_id org i dto {r} h =
      elim (Option-cases (db.find_one (scoped org i) s.agreements)) [
        | inl e ↦ ground arith
        | inr (old, e) ↦
            let new : Agreement = obliged new_id dto old in
            (
              old,
              new,
              find_scoped db s org i e,
              ground (arith, db.update_one_lem (scoped org i) (λ _. new) s.agreements),
              refl,
            )
      ]

  pub toggle_obligation-Wrote :
      (org i o : DocId) {r : Agreement × Store}
      → toggle_obligation db org i o s ≡ ok r
      → Wrote
          (scoped org i)
          (λ old new.
            new
            ≡ record old { obligations = modify_first (is_obligation o) flipped old.obligations })
          s
          r.1
  unfolding toggle_obligation
  toggle_obligation-Wrote org i o {r} h =
      elim (Option-cases (db.find_one (scoped org i) s.agreements)) [
        | inl e ↦ ground arith
        | inr (old, e) ↦
            let new : Agreement = record old {
              obligations = modify_first (is_obligation o) flipped old.obligations;
            } in
            (
              old,
              new,
              find_scoped db s org i e,
              ground (arith, db.update_one_lem (scoped org i) (λ _. new) s.agreements),
              refl,
            )
      ]

  pub remove_obligation-Wrote :
      (org i o : DocId) {r : Agreement × Store}
      → remove_obligation db org i o s ≡ ok r
      → Wrote
          (scoped org i)
          (λ old new.
            new ≡ record old { obligations = remove_first (is_obligation o) old.obligations })
          s
          r.1
  unfolding remove_obligation
  remove_obligation-Wrote org i o {r} h =
      elim (Option-cases (db.find_one (scoped org i) s.agreements)) [
        | inl e ↦ ground arith
        | inr (old, e) ↦
            let new : Agreement = record old {
              obligations = remove_first (is_obligation o) old.obligations;
            } in
            (
              old,
              new,
              find_scoped db s org i e,
              ground (arith, db.update_one_lem (scoped org i) (λ _. new) s.agreements),
              refl,
            )
      ]
