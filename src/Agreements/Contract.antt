-- ===== src/Agreements/Contract.antt =====
-- What may still be changed on an agreement that is signed: its dates and its obligations.
use crossbill_back.Base.{
  ℕ, Bool, false, not, [], ◌∷◌, ◌++◌, Option, none, some, String, ◌==◌, if◌then◌else◌, any,
  modify_first, remove_first,
}
use crossbill_back.Base.Text.{truthy}
use crossbill_back.Base.Http.{Result, ok, not_found, ◌>>=◌, ◌>>◌, throw_if}
use crossbill_back.Mongo.{Mongo}
use crossbill_back.Audit.{DocId}
use crossbill_back.Agreements.Defs.{
  Agreement, Obligation, Store, push_event, find_one_scoped, save_scoped,
}
use crossbill_back.Agreements.Handlers.{audited}

pub record LifecycleDto : Type 0 where
  pub effective_date : Option String
  pub renewal_date : Option String
  pub expiry_date : Option String

pub record ObligationDto : Type 0 where
  pub title : String
  pub owner : Option String
  pub due_date : Option String

-- `if (given !== undefined) old = given || null`.
abbrev given_or : Option String → Option String → Option String
given_or none old = old
given_or (some d) old = if truthy (some d) then some d else none

unfoldable pub dated : ℕ → LifecycleDto → Agreement → Agreement
dated now dto a = push_event now "lifecycle.updated" (record a {
  effective_date = given_or dto.effective_date a.effective_date;
  renewal_date = given_or dto.renewal_date a.renewal_date;
  expiry_date = given_or dto.expiry_date a.expiry_date;
  lifecycle_reminders_sent = [];
})

abbrev pub obliged : DocId → ObligationDto → Agreement → Agreement
obliged new_id dto a = record a {
  obligations =
      a.obligations
      ++ record {
        id = new_id;
        title = dto.title;
        owner = dto.owner;
        due_date = dto.due_date;
        done = false;
      }
        ∷ [];
}

abbrev pub is_obligation : DocId → Obligation → Bool
is_obligation i o = o.id == i

abbrev pub flipped : Obligation → Obligation
flipped o = record o { done = not o.done }

module _ (db : Mongo) where
  unfoldable pub set_lifecycle :
      ℕ → DocId → DocId → LifecycleDto → Store → Result (Agreement × Store)
  set_lifecycle now org i dto s = do
    doc ← find_one_scoped db org i s
    let doc' = dated now dto doc
    ok (doc', audited db "agreement.lifecycle.set" doc' none (save_scoped db org i doc' s))

  unfoldable pub add_obligation :
      DocId → DocId → DocId → ObligationDto → Store → Result (Agreement × Store)
  add_obligation new_id org i dto s = do
    doc ← find_one_scoped db org i s
    let doc' = obliged new_id dto doc
    ok (doc', save_scoped db org i doc' s)

  unfoldable pub toggle_obligation : DocId → DocId → DocId → Store → Result (Agreement × Store)
  toggle_obligation org i o s = do
    doc ← find_one_scoped db org i s
    throw_if (not (any (is_obligation o) doc.obligations)) (not_found "Obligation not found")
    let doc' : Agreement = record doc {
      obligations = modify_first (is_obligation o) flipped doc.obligations;
    }
    ok (doc', save_scoped db org i doc' s)

  unfoldable pub remove_obligation : DocId → DocId → DocId → Store → Result (Agreement × Store)
  remove_obligation org i o s = do
    doc ← find_one_scoped db org i s
    throw_if (not (any (is_obligation o) doc.obligations)) (not_found "Obligation not found")
    let doc' : Agreement = record doc {
      obligations = remove_first (is_obligation o) doc.obligations;
    }
    ok (doc', save_scoped db org i doc' s)
