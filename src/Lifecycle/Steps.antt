-- ===== src/Lifecycle/Steps.antt =====
-- How an update moves an exit.
use crossbill_back.Base.{
  ℕ, ◌<◌, ◌≡◌, sym, ◌∙◌, ◌⊎◌, inl, inr, true, Option, none, some, arith, Option-cases, find?,
  modify_first,
}
use crossbill_back.Base.Money.{cents_of, is_money}
use crossbill_back.Base.Http.{ok, Result-cases}
use crossbill_back.Mongo.{Mongo}
use crossbill_back.Audit.{DocId}
use crossbill_back.Lifecycle.Defs.{ExitStatus, initiated, notice, cleared, settled, Exit, Store}
use crossbill_back.Lifecycle.Exits.{
  UpdateExitDto, assets_returned, with_fields, with_status, updated_exit, update_exit, scoped_exit,
}

-- The graph of `EXIT_TRANSITIONS`, with the no-op.
abbrev pub Forward : ExitStatus → ExitStatus → Type 0
Forward from to =
    (to ≡ from)
    ⊎ ((from ≡ initiated) × (to ≡ notice))
    ⊎ ((from ≡ notice) × (to ≡ cleared))
    ⊎ ((from ≡ cleared) × (to ≡ settled))

-- What an update may do to an exit. Clearance needs both approvals and every asset, settlement a
-- valid amount above zero, at the moment of the step; a settled exit is never updated.
pub record ExitStep (now : ℕ) (e e' : Exit) : Type 0 where
  pub same_id : e'.id ≡ e.id
  pub same_org : e'.org_id ≡ e.org_id
  pub same_employee : e'.employee_id ≡ e.employee_id
  pub same_resignation : e'.resignation_date ≡ e.resignation_date
  pub was_open : (e.status ≡ initiated) ⊎ (e.status ≡ notice) ⊎ (e.status ≡ cleared)
  pub forward : Forward e.status e'.status
  pub cleared_by :
      e.status ≡ notice
      → e'.status ≡ cleared
      → (e'.manager_approved ≡ true) × (e'.hr_approved ≡ true) × (assets_returned e'.assets ≡ true)
  pub settled_by :
      e'.status ≡ settled
      → (is_money e'.final_settlement ≡ true) × (0 < cents_of e'.final_settlement)
  pub completed : e'.status ≡ settled → e'.completed_at ≡ some now

-- The fields are set first, and leave the identity and the status alone.
abbrev SameCore : Exit → Exit → Type 0
SameCore e e' =
    (e'.id ≡ e.id)
    × (e'.org_id ≡ e.org_id)
    × (e'.employee_id ≡ e.employee_id)
    × (e'.resignation_date ≡ e.resignation_date)
    × (e'.status ≡ e.status)

with_fields-SameCore :
    (dto : UpdateExitDto) (e : Exit) {e' : Exit} → with_fields dto e ≡ ok e' → SameCore e e'
unfolding with_fields
with_fields-SameCore dto e h = ground arith

-- What the status step may do to an exit that is not settled.
record StatusStep (e e' : Exit) : Type 0 where
  same_id : e'.id ≡ e.id
  same_org : e'.org_id ≡ e.org_id
  same_employee : e'.employee_id ≡ e.employee_id
  same_resignation : e'.resignation_date ≡ e.resignation_date
  forward : Forward e.status e'.status
  cleared_by :
      e.status ≡ notice
      → e'.status ≡ cleared
      → (e'.manager_approved ≡ true) × (e'.hr_approved ≡ true) × (assets_returned e'.assets ≡ true)
  settled_by :
      ¬ (e.status ≡ settled)
      → e'.status ≡ settled
      → (is_money e'.final_settlement ≡ true) × (0 < cents_of e'.final_settlement)

with_status-StatusStep :
    (to : Option ExitStatus) (e : Exit) {e' : Exit} → with_status to e ≡ ok e' → StatusStep e e'
unfolding with_status
with_status-StatusStep none e h = ground arith
with_status-StatusStep (some to) e h = ground arith

pub updated_exit-ExitStep :
    (now : ℕ) (dto : UpdateExitDto) (e : Exit) {e' : Exit}
    → updated_exit now dto e ≡ ok e'
    → ExitStep now e e'
unfolding updated_exit
updated_exit-ExitStep now dto e h = elim (Result-cases (with_fields dto e)) [
  | inr (x, q) ↦ ground arith
  | inl (e1, q) ↦ elim (Result-cases (with_status dto.status e1)) [
    | inr (x, r) ↦ ground arith
    | inl (e2, r) ↦
        ground (arith, with_fields-SameCore dto e q, with_status-StatusStep dto.status e1 r)
  ]
]

module _ (db : Mongo) (now : ℕ) (org : DocId) (user : Option DocId) (i : DocId)
    (dto : UpdateExitDto) (s : Store) where
  -- What a successful `update_exit` has passed and written.
  pub update_exit-eq-ok :
      {r : Exit × Store}
      → update_exit db now org user i dto s ≡ ok r
      → (e : Exit) × (find? (scoped_exit org i) s.exits ≡ some e)
        × (updated_exit now dto e ≡ ok r.0)
        × (r.1.exits ≡ modify_first (scoped_exit org i) (λ _. r.0) s.exits)
  unfolding update_exit
  update_exit-eq-ok {r} h = elim (Option-cases (db.find_one (scoped_exit org i) s.exits)) [
    | inl q ↦ ground arith
    | inr (e, q) ↦ (
      e,
      sym (db.find_one_lem (scoped_exit org i) s.exits) ∙ q,
      ground arith,
      ground (arith, db.update_one_lem (scoped_exit org i) (λ _. r.0) s.exits),
    )
  ]

  -- A successful update finds the exit in the organisation, not yet settled, moves its status by no
  -- more than one edge of the graph, and writes that exit alone. It clears an exit on notice only
  -- with both approvals and all assets returned, and settles one only with a valid amount above 0.
  pub update_exit-ExitStep :
      {r : Exit × Store}
      → update_exit db now org user i dto s ≡ ok r
      → (e : Exit) × (find? (scoped_exit org i) s.exits ≡ some e)
        × ExitStep now e r.0
        × (r.1.exits ≡ modify_first (scoped_exit org i) (λ _. r.0) s.exits)
  update_exit-ExitStep h =
      let (e, found, updated, wrote) = update_exit-eq-ok h in
      (e, found, updated_exit-ExitStep now dto e updated, wrote)
