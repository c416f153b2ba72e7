-- ===== src/Letters/Defs.antt =====
-- HR letters and their handlers. The PDF service is the function `render`, which gives the address
-- of a letter's document, or nothing when the call fails.
use crossbill_back.Base.{
  ℕ, Bool, true, false, not, List, [], ◌∷◌, Option, none, some, String, ◌==◌, ◌&&◌, any, is_some,
  if◌then◌else◌,
}
use crossbill_back.Base.Text.{Text, truthy}
use crossbill_back.Base.Http.{Result, ok, bad_request, not_found, ◌>>=◌, ◌>>◌, throw_if, or_throw}
use crossbill_back.Mongo.{Mongo, Written, written, duplicate}
use crossbill_back.Audit.{DocId, log, entry}
use crossbill_back.Employees.Defs as StaffDefs
use crossbill_back.Lifecycle.Defs.{full_name}

pub data LetterKind : Type 0 where
  offer experience relieving : LetterKind

pub data LetterStatus : Type 0 where
  draft sent accepted rejected expired : LetterStatus

pub record HrLetter : Type 0 where
  pub id : DocId
  pub org_id : DocId
  pub employee_id : DocId
  pub employee_name : Text
  pub kind : LetterKind
  pub status : LetterStatus
  pub designation : Option String
  pub department : Option String
  pub joining_date : Option String
  pub ctc : Option String
  pub reporting_manager : Option String
  pub from_date : Option String
  pub to_date : Option String
  pub pdf_url : Option String
  pub generated_at : Option ℕ
  pub sent_at : Option ℕ
  pub decided_at : Option ℕ

pub record CreateLetterDto : Type 0 where
  pub employee_id : DocId
  pub kind : LetterKind
  pub designation : Option String
  pub department : Option String
  pub joining_date : Option String
  pub ctc : Option String
  pub reporting_manager : Option String
  pub from_date : Option String
  pub to_date : Option String

pub record Store : Type 0 where
  pub staff : StaffDefs.Store
  pub letters : List HrLetter

abbrev pub eq_letter : LetterStatus → LetterStatus → Bool
eq_letter draft draft = true
eq_letter sent sent = true
eq_letter accepted accepted = true
eq_letter rejected rejected = true
eq_letter expired expired = true
eq_letter _ _ = false

-- `STATUS_TRANSITIONS`.
unfoldable pub letter_transitions : LetterStatus → List LetterStatus
letter_transitions draft = sent ∷ expired ∷ []
letter_transitions sent = accepted ∷ rejected ∷ expired ∷ []
letter_transitions accepted = []
letter_transitions rejected = []
letter_transitions expired = []

-- `given ?? old`.
abbrev or_old : Option String → Option String → Option String
or_old none old = old
or_old (some x) old = some x

-- `emp.ctcAnnual && emp.ctcAnnual !== '0.00' ? emp.ctcAnnual : null`.
abbrev known_ctc : String → Option String
known_ctc c =
    if truthy (some c) && not (StaffDefs.same_text (some c) (some "0.00")) then some c else none

abbrev pub new_letter : DocId → DocId → CreateLetterDto → StaffDefs.Employee → HrLetter
new_letter new_id org dto emp = record {
  id = new_id;
  org_id = org;
  employee_id = dto.employee_id;
  employee_name = full_name emp;
  kind = dto.kind;
  status = draft;
  designation = or_old dto.designation emp.designation;
  department = or_old dto.department emp.department;
  joining_date = or_old dto.joining_date emp.joining_date;
  ctc = or_old dto.ctc (known_ctc emp.ctc_annual);
  reporting_manager = or_old dto.reporting_manager emp.reporting_manager;
  from_date = or_old dto.from_date emp.joining_date;
  to_date = dto.to_date;
  pdf_url = none;
  generated_at = none;
  sent_at = none;
  decided_at = none;
}

abbrev pub printed : ℕ → Option String → HrLetter → HrLetter
printed now none l = l
printed now (some url) l = record l { pdf_url = some url; generated_at = some now }

-- The status and the stamps of a transition.
abbrev pub moved : ℕ → LetterStatus → HrLetter → HrLetter
moved now to l = record l {
  status = to;
  sent_at = if eq_letter to sent then some now else l.sent_at;
  decided_at =
      if eq_letter to accepted
      then some now
      else if eq_letter to rejected
      then some now
      else l.decided_at;
}

abbrev pub scoped_letter : DocId → DocId → HrLetter → Bool
scoped_letter org i l = l.id == i && l.org_id == org

abbrev or_same : List HrLetter → Written HrLetter → List HrLetter
or_same xs (written ys) = ys
or_same xs (duplicate key) = xs

module _ (db : Mongo) (render : HrLetter → Option String) where
  abbrev audited : String → DocId → Option DocId → DocId → Store → Store
  audited action org user i s = record s {
    staff = record s.staff { events = log db (entry action org user i) s.staff.events };
  }

  abbrev pub save_letter : DocId → DocId → HrLetter → Store → Store
  save_letter org i l s = record s {
    letters = db.update_one (scoped_letter org i) (λ _. l) s.letters;
  }

  unfoldable pub create_letter :
      ℕ → DocId → DocId → Option DocId → CreateLetterDto → Store → Result (HrLetter × Store)
  create_letter now new_id org user dto s = do
    emp ← StaffDefs.find_one_scoped db org dto.employee_id s.staff
    let doc = new_letter new_id org dto emp
    let doc' = printed now (render doc) doc
    ok (
      doc',
      audited "letter.created" org user new_id (
          save_letter org new_id doc'
            (record s { letters = or_same s.letters (db.create [] doc s.letters) })),
    )

  unfoldable pub get_letter : ℕ → DocId → DocId → Store → Result (HrLetter × Store)
  get_letter now org i s = do
    l ← or_throw (db.find_one (scoped_letter org i) s.letters) (not_found "Letter not found")
    let l' = printed now (render l) l
    ok (if is_some l.pdf_url then (l, s) else (l', save_letter org i l' s))

  unfoldable pub set_status :
      ℕ → DocId → Option DocId → DocId → LetterStatus → Store → Result (HrLetter × Store)
  set_status now org user i to s = do
    l ← or_throw (db.find_one (scoped_letter org i) s.letters) (not_found "Letter not found")
    throw_if (not (eq_letter l.status to) && not (any (eq_letter to) (letter_transitions l.status)))
        (bad_request "Invalid letter status transition")
    throw_if
        (not (eq_letter l.status to)
          && eq_letter to sent
          && not (is_some l.pdf_url)
          && not (is_some l.generated_at))
        (bad_request "Generate the letter PDF before sending.")
    let l' = moved now to l
    ok (
        if eq_letter l.status to
        then (l, s)
        else (l', audited "letter.status_changed" org user i (save_letter org i l' s)))

  unfoldable pub remove_letter : DocId → Option DocId → DocId → Store → Result Store
  remove_letter org user i s = do
    l ← or_throw (db.find_one (scoped_letter org i) s.letters) (not_found "Letter not found")
    ok (
        audited "letter.removed" org user i
          (record s { letters = db.delete_one (scoped_letter org i) s.letters }))
