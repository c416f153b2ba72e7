-- ===== src/Lifecycle/Defs.antt =====
-- The documents that the service keeps. A date without time is its day number, which orders dates as
-- the code's comparison of ISO texts does; an instant is its milliseconds since 1970.
use crossbill_back.Base.{ℕ, Bool, List, ◌∷◌, Option, String, ◌++◌}
use crossbill_back.Base.Text.{Text, codes, trim}
use crossbill_back.Audit.{DocId}
use crossbill_back.Employees.{Employee}
use crossbill_back.Employees.Defs as StaffDefs

pub data ExitStatus : Type 0 where
  initiated notice cleared settled : ExitStatus

pub record AssetItem : Type 0 where
  pub asset : String
  pub returned : Bool

pub record Exit : Type 0 where
  pub id : DocId
  pub org_id : DocId
  pub employee_id : DocId
  pub employee_name : Text
  pub resignation_date : ℕ
  pub last_working_date : Option ℕ
  pub notice_days : ℕ
  pub reason : Option String
  pub assets : List AssetItem
  pub manager_approved : Bool
  pub hr_approved : Bool
  pub final_settlement : Text
  pub settlement_notes : Option String
  pub status : ExitStatus
  pub completed_at : Option ℕ

pub data OnboardingStatus : Type 0 where
  in_progress complete : OnboardingStatus

pub record ChecklistItem : Type 0 where
  pub id : DocId
  pub key : String
  pub label : String
  pub required : Bool
  pub done : Bool
  pub doc_url : Option String

pub record Onboarding : Type 0 where
  pub org_id : DocId
  pub employee_id : DocId
  pub checklist : List ChecklistItem
  pub status : OnboardingStatus
  pub completed_at : Option ℕ

pub record Store : Type 0 where
  pub staff : StaffDefs.Store
  pub onboardings : List Onboarding
  pub exits : List Exit

-- `${emp.firstName} ${emp.lastName ?? ''}`.trim()
unfoldable pub full_name : Employee → Text
full_name e = trim (codes e.first_name ++ b' ' ∷ codes e.last_name)
