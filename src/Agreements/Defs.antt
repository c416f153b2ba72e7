-- ===== src/Agreements/Defs.antt =====
-- The documents and requests of agreements, and `evaluateGeofence`. A double that is only handed on
-- is a natural number that stands for it.
use crossbill_back.Base.{
  ℕ, Bool, true, false, List, [], ◌∷◌, ◌++◌, Option, none, some, String, ◌==◌, ◌&&◌, any, length,
  if◌then◌else◌,
}
use crossbill_back.Base.Text.{Text}
use crossbill_back.Base.Http.{Result, not_found, or_throw}
use crossbill_back.Mongo.{Mongo}
use crossbill_back.Audit.{DocId}
use crossbill_back.Aadhaar as Aadhaar

pub data AgreementStatus : Type 0 where
  draft sent viewed signed declined voided : AgreementStatus

-- An event of an agreement's trail, without its free text.
pub record AuditEvent : Type 0 where
  pub at : ℕ
  pub event : String

pub record Obligation : Type 0 where
  pub id : DocId
  pub title : String
  pub owner : Option String
  pub due_date : Option String
  pub done : Bool

pub data GeoFenceStatus : Type 0 where
  inside outside unknown : GeoFenceStatus

pub record Geofence : Type 0 where
  pub label : String
  pub lat : ℕ
  pub lng : ℕ
  pub radius_km : ℕ

pub record Agreement : Type 0 where
  pub id : DocId
  pub org_id : DocId
  pub client_id : Option DocId
  pub title : String
  pub category : String
  pub seller_name : Option String
  pub client_name : Option String
  pub body : String
  pub status : AgreementStatus
  pub sign_token : Option DocId
  pub signer_name : Option String
  pub signer_email : Option String
  pub otp_hash : Option ℕ
  pub otp_expires_at : Option ℕ
  pub otp_required : Bool
  pub signature_image : Option String
  pub signed_name : Option String
  pub signed_pdf_url : Option String
  pub signer_ip : Option String
  pub signer_user_agent : Option Text
  pub signer_lat : Option ℕ
  pub signer_lng : Option ℕ
  pub signer_geo_accuracy : Option ℕ
  pub geo_fence_status : GeoFenceStatus
  pub selfie_image : Option String
  pub face_match_status : Option String
  pub verify_code : Option ℕ
  pub sent_at : Option ℕ
  pub viewed_at : Option ℕ
  pub signed_at : Option ℕ
  pub declined_at : Option ℕ
  pub aadhaar_required : Bool
  pub aadhaar_verified : Bool
  pub aadhaar_last4 : Option Text
  pub audit_trail : List AuditEvent
  pub effective_date : Option String
  pub renewal_date : Option String
  pub expiry_date : Option String
  pub obligations : List Obligation
  pub lifecycle_reminders_sent : List String

pub record CreateAgreementDto : Type 0 where
  pub client_id : Option DocId
  pub title : String
  pub category : Option String
  pub body : Option String

pub record SendAgreementDto : Type 0 where
  pub signer_name : String
  pub signer_email : String
  pub aadhaar_required : Option Bool

-- `SignAgreementDto`; its `consent` is always true.
pub record SignAgreementDto : Type 0 where
  pub signed_name : String
  pub signature_image : String
  pub otp : Option Text
  pub lat : Option ℕ
  pub lng : Option ℕ
  pub accuracy : Option ℕ
  pub selfie : Option String

pub record Store : Type 0 where
  pub agreements : List Agreement
  pub aadhaar : Aadhaar.Store

-- What the service is built with: SHA-256 of a token and an OTP, two settings, the geofences of an
-- organisation, the distance test of `haversineKm`, and the PDF service.
pub record Setup : Type 0 where
  pub hash_otp : DocId → Text → ℕ
  pub email_configured : Bool
  pub aadhaar_configured : Bool
  pub fences_of : DocId → List Geofence
  pub is_within : Geofence → ℕ → ℕ → Bool
  pub render : Agreement → Option String

abbrev pub is_signed : AgreementStatus → Bool
is_signed signed = true
is_signed _ = false

abbrev pub is_closed : AgreementStatus → Bool
is_closed declined = true
is_closed voided = true
is_closed _ = false

abbrev pub is_sent : AgreementStatus → Bool
is_sent sent = true
is_sent _ = false

unfoldable pub evaluate_geofence :
    (Geofence → ℕ → ℕ → Bool) → List Geofence → Option ℕ → Option ℕ → GeoFenceStatus
evaluate_geofence within fences (some lat) (some lng) =
    if length fences == 0
    then inside
    else if any (λ f. within f lat lng) fences
    then inside
    else outside
evaluate_geofence within fences _ _ = unknown

-- `doc.auditTrail.push({ at, event })`.
abbrev pub push_event : ℕ → String → Agreement → Agreement
push_event now name a = record a {
  audit_trail = a.audit_trail ++ record { at = now; event = name } ∷ [];
}

abbrev pub scoped : DocId → DocId → Agreement → Bool
scoped org i a = a.id == i && a.org_id == org

abbrev pub has_token : DocId → Agreement → Bool
has_token token a = elim a.sign_token [ none ↦ false | some t ↦ t == token ]

module _ (db : Mongo) where
  abbrev pub find_one_scoped : DocId → DocId → Store → Result Agreement
  find_one_scoped org i s =
      or_throw (db.find_one (scoped org i) s.agreements) (not_found "Agreement not found")

  abbrev pub by_token : DocId → Store → Result Agreement
  by_token token s =
      or_throw (db.find_one (has_token token) s.agreements)
        (not_found "This signing link is invalid or has expired")

  -- `doc.save()`, for a document found by its id or by its token.
  abbrev pub save_scoped : DocId → DocId → Agreement → Store → Store
  save_scoped org i a s = record s {
    agreements = db.update_one (scoped org i) (λ _. a) s.agreements;
  }

  abbrev pub save_by_token : DocId → Agreement → Store → Store
  save_by_token token a s = record s {
    agreements = db.update_one (has_token token) (λ _. a) s.agreements;
  }
