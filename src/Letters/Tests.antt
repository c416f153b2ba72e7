-- ===== src/Letters/Tests.antt =====
-- A letter that is sent and accepted.
use crossbill_back.Base.{◌≡◌, ◌⊎◌, refl, [], ◌∷◌, Option, none, some, String, find?, modify_first}
use crossbill_back.Base.Text.{codes}
use crossbill_back.Base.Http.{ok, err, bad_request}
use crossbill_back.Mongo.InMemory.{in_memory}
use crossbill_back.Letters.Defs.{
  LetterKind, LetterStatus, draft, sent, accepted, HrLetter, Store, letter_transitions, moved,
  scoped_letter, set_status,
}
use crossbill_back.Letters.Steps.{Move, set_status-Move}

abbrev letter : LetterStatus → Option String → HrLetter
letter status url = record {
  id = 3;
  org_id = 9;
  employee_id = 1;
  employee_name = codes "Anita Rao";
  kind = LetterKind.offer;
  status = status;
  designation = none;
  department = none;
  joining_date = none;
  ctc = none;
  reporting_manager = none;
  from_date = none;
  to_date = none;
  pdf_url = url;
  generated_at = none;
  sent_at = none;
  decided_at = none;
}

abbrev store : LetterStatus → Option String → Store
store status url = record {
  staff = record { employees = []; events = [] };
  letters = letter status url ∷ [];
}

abbrev no_pdf : HrLetter → Option String
no_pdf l = none

unprinted_refused :
    set_status in_memory no_pdf 7 9 none 3 sent (store draft none)
    ≡ err (bad_request "Generate the letter PDF before sending.")
unfolding set_status letter_transitions
unprinted_refused = refl

answer : HrLetter × Store
unfolding set_status letter_transitions
answer = elim (set_status in_memory no_pdf 7 9 none 3 accepted (store sent none)) [
  | ok r ↦ r
  | err e ↦ (letter draft none, store draft none)
]

answer_lem : set_status in_memory no_pdf 7 9 none 3 accepted (store sent none) ≡ ok answer
unfolding answer
answer_lem = refl

set_status-Move_example :
    (l : HrLetter) × (find? (scoped_letter 9 3) (store sent none).letters ≡ some l)
    × (((l.status ≡ accepted) × (answer.0 ≡ l) × (answer.1 ≡ store sent none))
        ⊎ (Move 7 l answer.0
            × (answer.0 ≡ moved 7 accepted l)
            × (answer.1.letters
                ≡ modify_first (scoped_letter 9 3) (λ _. answer.0) (store sent none).letters)))
set_status-Move_example =
    set_status-Move in_memory no_pdf 7 9 none 3 accepted (store sent none) answer_lem
