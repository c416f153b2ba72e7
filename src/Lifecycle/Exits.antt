-- ===== src/Lifecycle/Exits.antt =====
-- `createExit` and `updateExit`.
use crossbill_back.Base.{
  ℕ, ◌+◌, Bool, true, false, not, List, [], ◌∷◌, Option, none, some, String, ◌==◌, ◌&&◌, ◌||◌, map,
  any, all, length, ltb, get_or, is_some, if◌then◌else◌,
}
use crossbill_back.Base.Text.{Text, codes, truthy}
use crossbill_back.Base.Money.{is_money, cents_of}
use crossbill_back.Base.Http.{
  Result, ok, err, bad_request, not_found, ◌>>=◌, ◌>>◌, throw_if, or_throw,
}
use crossbill_back.Mongo.{Mongo, Written, written, duplicate}
use crossbill_back.Audit.{DocId, log, entry}
use crossbill_back.Employees.{on_notice, exited}
use crossbill_back.Employees.Defs as StaffDefs
use crossbill_back.Lifecycle.Defs.{
  ExitStatus, initiated, notice, cleared, settled, AssetItem, Exit, Store, full_name,
}
use crossbill_back.Lifecycle.Onboarding.{set_employee_status}

pub record CreateExitDto : Type 0 where
  pub employee_id : DocId
  pub resignation_date : ℕ
  pub notice_days : Option ℕ
  pub reason : Option String

pub record AssetDto : Type 0 where
  pub asset : String
  pub returned : Option Bool

pub record UpdateExitDto : Type 0 where
  pub assets : Option (List AssetDto)
  pub manager_approved : Option Bool
  pub hr_approved : Option Bool
  pub final_settlement : Option Text
  pub settlement_notes : Option String
  pub last_working_date : Option ℕ
  pub status : Option ExitStatus

abbrev pub eq_exit : ExitStatus → ExitStatus → Bool
eq_exit initiated initiated = true
eq_exit notice notice = true
eq_exit cleared cleared = true
eq_exit settled settled = true
eq_exit _ _ = false

-- `EXIT_TRANSITIONS`.
unfoldable pub exit_transitions : ExitStatus → List ExitStatus
exit_transitions initiated = notice ∷ []
exit_transitions notice = cleared ∷ []
exit_transitions cleared = settled ∷ []
exit_transitions settled = []

unfoldable pub assert_exit_transition : ExitStatus → ExitStatus → Result (Unit {0})
unfolding exit_transitions
assert_exit_transition from to =
    if eq_exit from to
    then ok tt
    else throw_if (not (any (eq_exit to) (exit_transitions from)))
        (bad_request "Invalid exit status transition")

default_assets : List String
default_assets = "Laptop" ∷ "ID card" ∷ "Access card" ∷ []

-- A day some days later.
abbrev pub add_days : ℕ → ℕ → ℕ
add_days day days = day + days

abbrev pub given_asset : AssetDto → AssetItem
given_asset a = record { asset = a.asset; returned = get_or a.returned false }

-- `dto.notes !== undefined ? dto.notes || null : old`.
abbrev pub new_notes : Option String → Option String → Option String
new_notes none old = old
new_notes (some n) old = if truthy (some n) then some n else none

abbrev check_money : Option Text → Text → Result Text
check_money none old = ok old
check_money (some m) old =
    if is_money m then ok m else err (bad_request "Final settlement must be a valid amount.")

abbrev check_last_day : ℕ → Option ℕ → Option ℕ → Result (Option ℕ)
check_last_day resignation none old = ok old
check_last_day resignation (some d) old =
    if ltb d resignation
    then err (bad_request "Last working date cannot be before resignation date.")
    else ok (some d)

-- The fields of the request, other than the status.
unfoldable pub with_fields : UpdateExitDto → Exit → Result Exit
with_fields dto e = do
  money ← check_money dto.final_settlement e.final_settlement
  last_day ← check_last_day e.resignation_date dto.last_working_date e.last_working_date
  ok (record e {
    assets = elim dto.assets [ none ↦ e.assets | some given ↦ map given_asset given ];
    manager_approved = get_or dto.manager_approved e.manager_approved;
    hr_approved = get_or dto.hr_approved e.hr_approved;
    final_settlement = money;
    settlement_notes = new_notes dto.settlement_notes e.settlement_notes;
    last_working_date = last_day;
  })

-- `e.assets.length === 0 || e.assets.every((a) => a.returned)`.
abbrev pub assets_returned : List AssetItem → Bool
assets_returned assets = length assets == 0 || all (λ a. a.returned) assets

abbrev pub is_approved : Exit → Bool
is_approved e = e.manager_approved && e.hr_approved && assets_returned e.assets

-- `MONEY_RE.test(s) && parseFloat(s) > 0`.
abbrev pub is_paid_out : Text → Bool
is_paid_out s = is_money s && ltb 0 (cents_of s)

-- The status that the request asks for, or the automatic clearance.
unfoldable pub with_status : Option ExitStatus → Exit → Result Exit
unfolding assert_exit_transition
with_status (some to) e = do
  assert_exit_transition e.status to
  throw_if (eq_exit to cleared && not (is_approved e))
      (bad_request "Manager + HR approval and returned assets are required before clearance.")
  throw_if (eq_exit to settled && not (is_paid_out e.final_settlement))
      (bad_request "Record the final settlement before settling this exit.")
  ok (record e { status = to })
with_status none e =
    ok (if is_approved e && eq_exit e.status notice then record e { status = cleared } else e)

-- The document after `updateExit`, or the exception.
unfoldable pub updated_exit : ℕ → UpdateExitDto → Exit → Result Exit
updated_exit now dto e = do
  throw_if (eq_exit e.status settled)
      (bad_request "This exit is settled and can no longer be changed.")
  e1 ← with_fields dto e
  e2 ← with_status dto.status e1
  ok (if eq_exit e2.status settled then record e2 { completed_at = some now } else e2)

abbrev pub scoped_exit : DocId → DocId → Exit → Bool
scoped_exit org i e = e.id == i && e.org_id == org

-- An exit of the employee that is not settled.
abbrev pub is_open : DocId → DocId → Exit → Bool
is_open org employee e =
    e.org_id == org && e.employee_id == employee && not (eq_exit e.status settled)

module _ (db : Mongo) where
  -- The collection after a write that no unique index guards.
  abbrev or_same : List Exit → Written Exit → List Exit
  or_same xs (written ys) = ys
  or_same xs (duplicate k) = xs

  unfoldable pub create_exit :
      DocId → DocId → Option DocId → CreateExitDto → Store → Result (Exit × Store)
  unfolding default_assets
  create_exit new_id org user dto s = do
    emp ← StaffDefs.find_one_scoped db org dto.employee_id s.staff
    let notice_days : ℕ = get_or dto.notice_days 30
    throw_if (ltb notice_days 0) (bad_request "Notice days cannot be negative.")
    throw_if (is_some (db.find_one (is_open org dto.employee_id) s.exits))
        (bad_request "This employee already has an exit in progress.")
    let doc : Exit = record {
      id = new_id;
      org_id = org;
      employee_id = dto.employee_id;
      employee_name = full_name emp;
      resignation_date = dto.resignation_date;
      last_working_date = some (add_days dto.resignation_date notice_days);
      notice_days = notice_days;
      reason = dto.reason;
      assets = map (λ a. record { asset = a; returned = false }) default_assets;
      manager_approved = false;
      hr_approved = false;
      final_settlement = codes "0.00";
      settlement_notes = none;
      status = notice;
      completed_at = none;
    }
    let staff = set_employee_status db org dto.employee_id on_notice s.staff
    ok (
      doc,
      record s {
        exits = or_same s.exits (db.create [] doc s.exits);
        staff = record staff {
          events = log db (entry "exit.initiated" org user new_id) staff.events;
        };
      },
    )

  unfoldable pub get_exit : DocId → DocId → Store → Result Exit
  get_exit org i s =
      or_throw (db.find_one (scoped_exit org i) s.exits) (not_found "Exit record not found")

  unfoldable pub update_exit :
      ℕ → DocId → Option DocId → DocId → UpdateExitDto → Store → Result (Exit × Store)
  unfolding get_exit
  update_exit now org user i dto s = do
    e ← get_exit org i s
    e' ← updated_exit now dto e
    let finished = eq_exit e'.status settled
    let left = set_employee_status db org e'.employee_id exited s.staff
    let staff = if finished then left else s.staff
    let action : String = if finished then "exit.settled" else "exit.updated"
    ok (
      e',
      record s {
        exits = db.update_one (scoped_exit org i) (λ _. e') s.exits;
        staff = record staff { events = log db (entry action org user i) staff.events };
      },
    )
