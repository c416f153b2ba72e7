-- ===== src/Lifecycle/Onboarding.antt =====
-- `getOnboarding` and `toggleChecklist`, with the default checklist.
use crossbill_back.Base.{
  ℕ, suc, Bool, true, false, not, List, [], ◌∷◌, Option, none, some, String, ◌==◌, ◌&&◌, all,
  length, ltb, find?, modify_first, if◌then◌else◌,
}
use crossbill_back.Base.Text.{truthy}
use crossbill_back.Base.Http.{Result, ok, not_found, ◌>>=◌, or_throw}
use crossbill_back.Mongo.{Mongo, Index, Written, written, duplicate}
use crossbill_back.Audit.{DocId, log, entry}
use crossbill_back.Employees.{EmployeeStatus, active, store_after, status_only}
use crossbill_back.Employees.Defs as StaffDefs
use crossbill_back.Lifecycle.Defs.{
  OnboardingStatus, in_progress, complete, ChecklistItem, Onboarding, Store,
}

-- An item of `DEFAULT_CHECKLIST`.
record CheckTemplate : Type 0 where
  key : String
  label : String
  required : Bool

default_checklist : List CheckTemplate
default_checklist =
    record { key = "aadhaar"; label = "Aadhaar card upload"; required = true }
    ∷ record { key = "pan"; label = "PAN card upload"; required = true }
    ∷ record { key = "photo"; label = "Passport photo upload"; required = true }
    ∷ record { key = "bank"; label = "Bank account details"; required = true }
    ∷ record { key = "certs"; label = "Educational certificates"; required = true }
    ∷ record { key = "offer"; label = "Signed offer letter"; required = true }
    ∷ record { key = "it"; label = "IT setup & access provisioning"; required = false }
    ∷ []

-- The checklist of a new onboarding; its items get the ids from `first_id` on.
fresh_items : DocId → List CheckTemplate → List ChecklistItem
fresh_items first_id [] = []
fresh_items first_id (c ∷ cs) =
    record {
      id = first_id;
      key = c.key;
      label = c.label;
      required = c.required;
      done = false;
      doc_url = none;
    }
    ∷ fresh_items (suc first_id) cs

-- `ToggleChecklistDto`.
pub record ToggleChecklistDto : Type 0 where
  pub done : Bool
  pub doc_url : Option String

-- `if (dto.docUrl !== undefined) item.docUrl = dto.docUrl || null`.
abbrev new_url : Option String → Option String → Option String
new_url none old = old
new_url (some u) old = if truthy (some u) then some u else none

toggle_item : ToggleChecklistDto → ChecklistItem → ChecklistItem
toggle_item dto item = record item { done = dto.done; doc_url = new_url dto.doc_url item.doc_url }

abbrev is_complete : OnboardingStatus → Bool
is_complete complete = true
is_complete in_progress = false

-- `doc.checklist.length > 0 && doc.checklist.every((c) => c.done)`.
abbrev pub all_done : List ChecklistItem → Bool
all_done items = ltb 0 (length items) && all (λ c. c.done) items

-- The document with one item changed and its status recomputed.
unfoldable pub toggled : ℕ → DocId → ToggleChecklistDto → Onboarding → Onboarding
unfolding toggle_item
toggled now item_id dto doc =
    let items = modify_first (λ c. c.id == item_id) (toggle_item dto) doc.checklist in
    record doc {
      checklist = items;
      status = if all_done items then complete else in_progress;
      completed_at = if all_done items then some now else none;
    }

abbrev pub of_employee : DocId → DocId → Onboarding → Bool
of_employee org employee o = o.org_id == org && o.employee_id == employee

-- The unique index of `OnboardingSchema`.
abbrev onboarding_indexes : List (Index Onboarding)
onboarding_indexes =
    record { key = "orgId"; clash = λ d o. of_employee d.org_id d.employee_id o } ∷ []

module _ (db : Mongo) where
  abbrev after_create : Onboarding → Store → Written Onboarding → Onboarding × Store
  after_create doc s (written xs) = (doc, record s { onboardings = xs })
  after_create doc s (duplicate k) = (doc, s)

  unfoldable pub get_onboarding : DocId → DocId → DocId → Store → Result (Onboarding × Store)
  unfolding default_checklist fresh_items
  get_onboarding first_id org employee s = do
    e ← StaffDefs.find_one_scoped db org employee s.staff
    let doc : Onboarding = record {
      org_id = org;
      employee_id = employee;
      checklist = fresh_items first_id default_checklist;
      status = in_progress;
      completed_at = none;
    }
    elim (db.find_one (of_employee org employee) s.onboardings) [
      | some found ↦ ok (found, s)
      | none ↦ ok (after_create doc s (db.create onboarding_indexes doc s.onboardings))
    ]

  -- `this.employees.update(orgId, employeeId, { status }).catch(() => {})`.
  unfoldable pub set_employee_status :
      DocId → DocId → EmployeeStatus → StaffDefs.Store → StaffDefs.Store
  set_employee_status org employee status staff =
      store_after staff (StaffDefs.update db org employee (status_only status) none staff)

  unfoldable pub toggle_checklist :
      ℕ
      → DocId
      → Option DocId
      → DocId
      → DocId
      → ToggleChecklistDto
      → Store
      → Result (Onboarding × Store)
  unfolding toggled set_employee_status
  toggle_checklist now org user employee item_id dto s = do
    doc ←
        or_throw (db.find_one (of_employee org employee) s.onboardings)
          (not_found "Onboarding not found")
    item ←
        or_throw (find? (λ c. c.id == item_id) doc.checklist) (not_found "Checklist item not found")
    let doc' = toggled now item_id dto doc
    let finished = is_complete doc'.status && not (is_complete doc.status)
    let saved = db.update_one (of_employee org employee) (λ _. doc') s.onboardings
    let staff = record s.staff {
      events = log db (entry "onboarding.item_toggled" org user employee) s.staff.events;
    }
    let promoted = set_employee_status org employee active staff
    let staff' = record promoted {
      events = log db (entry "onboarding.completed" org user employee) promoted.events;
    }
    ok (doc', record s { onboardings = saved; staff = if finished then staff' else staff })
