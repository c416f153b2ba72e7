-- ===== src/Organizations.antt =====
-- Organizations: api/src/modules/organizations/organizations.service.ts. Of a geofence only the service
-- of agreements reads the values.
use crossbill_back.Base.{ℕ, Bool, List, [], Option, none, some, String, ◌==◌}
use crossbill_back.Base.Text.{Text, codes}
use crossbill_back.Mongo.{Mongo, Written, written, duplicate}
use crossbill_back.Audit.{DocId, EventLog, log, entry}

pub data VerificationState : Type 0 where
  unsubmitted pending verified rejected : VerificationState

-- `SignGeofence`, with angles and kilometres in the code's numbers.
pub record SignGeofence (W : Type 0) : Type 0 where
  pub label : String
  pub lat : W
  pub lng : W
  pub radius_km : W

-- What a company says of itself.
pub record Company : Type 0 where
  pub gstin : Option Text
  pub pan : Option Text
  pub registered_address : Option Text
  pub logo_url : Option Text
  pub website : Option Text
  pub owner_name : Option Text
  pub owner_email : Option Text
  pub owner_mobile : Option Text

pub record Organization (W : Type 0) : Type 0 where
  pub id : DocId
  pub name : Option Text
  pub owner_id : Option DocId
  pub plan : Text
  pub plan_activated_at : Option ℕ
  pub razorpay_subscription_id : Option Text
  pub sign_geofences : List (SignGeofence W)
  pub company : Company
  pub verification_status : VerificationState
  pub verification_notes : Option String
  pub verification_submitted_at : Option ℕ
  pub verified_at : Option ℕ

-- `UpdateCompanyDto`.
pub record UpdateCompanyDto : Type 0 where
  pub name : Option Text
  pub fields : Company

pub record Store (W : Type 0) : Type 0 where
  pub orgs : List (Organization W)
  pub events : EventLog

-- The two answers of `setVerification`.
pub data Verdict : Type 0 where
  approved refused : Verdict

abbrev pub has_id : {W : Type 0} → DocId → Organization W → Bool
has_id i org = org.id == i

-- `patch[k] !== undefined ? patch[k] || null : (as it was)`.
abbrev field_of : Option Text → Option Text → Option Text
field_of none old = old
field_of (some List.[]) old = none
field_of (some (List.◌∷◌ c s)) old = some (List.◌∷◌ c s)

abbrev pub company_after : Company → Company → Company
company_after asked old = record {
  gstin = field_of asked.gstin old.gstin;
  pan = field_of asked.pan old.pan;
  registered_address = field_of asked.registered_address old.registered_address;
  logo_url = field_of asked.logo_url old.logo_url;
  website = field_of asked.website old.website;
  owner_name = field_of asked.owner_name old.owner_name;
  owner_email = field_of asked.owner_email old.owner_email;
  owner_mobile = field_of asked.owner_mobile old.owner_mobile;
}

-- The document of `create`, with the defaults of the schema.
abbrev pub new_organization : {W : Type 0} → DocId → Text → Organization W
new_organization new_id name = record {
  id = new_id;
  name = some name;
  owner_id = none;
  plan = codes "free";
  plan_activated_at = none;
  razorpay_subscription_id = none;
  sign_geofences = [];
  company = record {
    gstin = none;
    pan = none;
    registered_address = none;
    logo_url = none;
    website = none;
    owner_name = none;
    owner_email = none;
    owner_mobile = none;
  };
  verification_status = unsubmitted;
  verification_notes = none;
  verification_submitted_at = none;
  verified_at = none;
}

abbrev or_same : {D : Type 0} → List D → Written D → List D
or_same xs (written ys) = ys
or_same xs (duplicate k) = xs

abbrev pub with_plan : {W : Type 0} → ℕ → Text → Option Text → Organization W → Organization W
with_plan now plan subscription org = record org {
  plan = plan;
  plan_activated_at = some now;
  razorpay_subscription_id = elim subscription [
    | none ↦ org.razorpay_subscription_id
    | some s ↦ some s
  ];
}

abbrev pub submitted : {W : Type 0} → ℕ → Organization W → Organization W
submitted now org = record org {
  verification_status = pending;
  verification_submitted_at = some now;
  verification_notes = none;
}

abbrev pub judged : {W : Type 0} → ℕ → Verdict → Option String → Organization W → Organization W
judged now approved notes org = record org {
  verification_status = verified;
  verification_notes = notes;
  verified_at = some now;
}
judged now refused notes org = record org {
  verification_status = rejected;
  verification_notes = notes;
  verified_at = none;
}

module _ (db : Mongo) {W : Type 0} where
  unfoldable pub create_for_owner : DocId → Text → Store W → Organization W × Store W
  create_for_owner new_id name s =
      let org = new_organization new_id name in
      (org, record s { orgs = or_same s.orgs (db.create [] org s.orgs) })

  unfoldable pub find_by_id : DocId → List (Organization W) → Option (Organization W)
  find_by_id i orgs = db.find_one (has_id i) orgs

  unfoldable pub set_owner : DocId → DocId → Store W → Store W
  set_owner i owner s = record s {
    orgs = db.update_one (has_id i) (λ org. record org { owner_id = some owner }) s.orgs;
  }

  unfoldable pub set_plan :
      ℕ → DocId → Text → Option Text → List (Organization W) → List (Organization W)
  set_plan now i plan subscription orgs =
      db.update_one (has_id i) (with_plan now plan subscription) orgs

  -- The write of one organization, the entry for it, and the document that is answered.
  abbrev recorded :
      String
      → DocId
      → Option DocId
      → (Organization W → Organization W)
      → Store W
      → Option (Organization W) × Store W
  recorded action i user f s =
      let orgs = db.update_one (has_id i) f s.orgs in
      (
        db.find_one (has_id i) orgs,
        record { orgs = orgs; events = log db (entry action i user i) s.events },
      )

  unfoldable pub update_company :
      DocId → UpdateCompanyDto → Option DocId → Store W → Option (Organization W) × Store W
  update_company i dto user s =
      recorded "company.updated" i user
        (λ org. record org {
          name = field_of dto.name org.name;
          company = company_after dto.fields org.company;
        })
        s

  unfoldable pub submit_verification :
      ℕ → DocId → Option DocId → Store W → Option (Organization W) × Store W
  submit_verification now i user s =
      recorded "company.verification_submitted" i user (submitted now) s

  unfoldable pub set_verification :
      ℕ
      → DocId
      → Verdict
      → Option String
      → Option DocId
      → Store W
      → Option (Organization W) × Store W
  set_verification now i verdict notes user s =
      recorded "company.verification_decided" i user (judged now verdict notes) s

  unfoldable pub get_geofences : DocId → List (Organization W) → List (SignGeofence W)
  get_geofences i orgs = elim (db.find_one (has_id i) orgs) [
    | none ↦ []
    | some org ↦ org.sign_geofences
  ]

  unfoldable pub set_geofences :
      DocId → List (SignGeofence W) → Store W → List (SignGeofence W) × Store W
  unfolding get_geofences
  set_geofences i fences s =
      let orgs = db.update_one (has_id i) (λ org. record org { sign_geofences = fences }) s.orgs in
      (get_geofences i orgs, record s { orgs = orgs })
