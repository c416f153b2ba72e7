-- ===== src/Agreements/Signing.antt =====
-- The handlers of the signing flow. Two saves of one handler are one write of what the second saves;
-- the e-mails that are sent are not kept. An OTP that was drawn is an argument.
use crossbill_back.Base.{
  ℕ, ◌+◌, true, false, not, List, [], ◌∷◌, Option, none, some, String, ◌==◌, ltb, length,
  if◌then◌else◌, is_some, get_or,
}
use crossbill_back.Base.Text.{Text}
use crossbill_back.Base.Http.{Result, ok, bad_request, ◌>>◌, throw_if}
use crossbill_back.Mongo.{Written, written, duplicate}
use crossbill_back.Audit.{DocId}
use crossbill_back.Aadhaar as Aadhaar
use crossbill_back.Agreements.Defs.{
  draft, sent, signed, outside, unknown, Agreement, CreateAgreementDto, SendAgreementDto,
  SignAgreementDto, Setup, GeoFenceStatus, evaluate_geofence, push_event,
}

abbrev pub or_same : List Agreement → Written Agreement → List Agreement
or_same xs (written ys) = ys
or_same xs (duplicate key) = xs

-- The document that `create` stores; the two names are looked up by the services of users and
-- clients, whose failures leave them absent.
abbrev pub drafted :
    ℕ → DocId → DocId → Option String → Option String → CreateAgreementDto → Agreement
drafted now new_id org seller client dto = record {
  id = new_id;
  org_id = org;
  client_id = dto.client_id;
  title = dto.title;
  category = get_or dto.category "custom";
  seller_name = seller;
  client_name = client;
  body = get_or dto.body "";
  status = draft;
  sign_token = none;
  signer_name = none;
  signer_email = none;
  otp_hash = none;
  otp_expires_at = none;
  otp_required = false;
  signature_image = none;
  signed_name = none;
  signed_pdf_url = none;
  signer_ip = none;
  signer_user_agent = none;
  signer_lat = none;
  signer_lng = none;
  signer_geo_accuracy = none;
  geo_fence_status = unknown;
  selfie_image = none;
  face_match_status = none;
  verify_code = none;
  sent_at = none;
  viewed_at = none;
  signed_at = none;
  declined_at = none;
  aadhaar_required = false;
  aadhaar_verified = false;
  aadhaar_last4 = none;
  audit_trail = record { at = now; event = "created" } ∷ [];
  effective_date = none;
  renewal_date = none;
  expiry_date = none;
  obligations = [];
  lifecycle_reminders_sent = [];
}

-- Fifteen minutes, in milliseconds.
abbrev pub otp_ttl : ℕ
otp_ttl = 900000

-- The document with a link and an OTP for its signer.
unfoldable pub sent_doc : Setup → ℕ → DocId → Text → SendAgreementDto → Agreement → Agreement
sent_doc setup now token otp dto a = push_event now "sent" (record a {
  sign_token = some token;
  signer_name = some dto.signer_name;
  signer_email = some dto.signer_email;
  status = sent;
  sent_at = some now;
  otp_required = setup.email_configured;
  declined_at = none;
  aadhaar_required = get_or dto.aadhaar_required false;
  aadhaar_verified = false;
  aadhaar_last4 = none;
  otp_hash = if setup.email_configured then some (setup.hash_otp token otp) else none;
  otp_expires_at = if setup.email_configured then some (now + otp_ttl) else none;
})

-- `if (geoFenceStatus === 'outside') doc.auditTrail.push(…)`.
abbrev pub flagged : ℕ → GeoFenceStatus → Agreement → Agreement
flagged now outside a = push_event now "flag" a
flagged now _ a = a

-- The document as `sign` leaves it, before its PDF.
unfoldable pub signed_doc :
    Setup → ℕ → ℕ → SignAgreementDto → String → Option Text → Agreement → Agreement
signed_doc setup now code dto ip ua a =
    let geo = evaluate_geofence setup.is_within (setup.fences_of a.org_id) dto.lat dto.lng in
    flagged now geo (
      push_event now "signed" (record a {
        signer_lat = dto.lat;
        signer_lng = dto.lng;
        signer_geo_accuracy = dto.accuracy;
        geo_fence_status = geo;
        selfie_image = dto.selfie;
        face_match_status =
            if is_some dto.selfie
            then some
                (if setup.aadhaar_configured then "pending_provider" else "captured_not_checked")
            else none;
        verify_code = some code;
        signature_image = some dto.signature_image;
        signed_name = some dto.signed_name;
        signer_ip = some ip;
        signer_user_agent = elim ua [ none ↦ none | some u ↦ some (Aadhaar.first_chars 400 u) ];
        signed_at = some now;
        status = signed;
        sign_token = none;
        otp_hash = none;
      }))

-- The OTP check of `sign`.
unfoldable pub check_otp : Setup → ℕ → DocId → Option Text → Agreement → Result (Unit {0})
check_otp setup now token none a =
    throw_if a.otp_required (bad_request "Enter the OTP sent to your email")
check_otp setup now token (some otp) a =
    if a.otp_required
    then (do
      throw_if (length otp == 0) (bad_request "Enter the OTP sent to your email")
      throw_if (elim a.otp_expires_at [ none ↦ true | some t ↦ ltb t now ])
          (bad_request "OTP expired — request a new one")
      throw_if (not (elim a.otp_hash [ none ↦ false | some h ↦ h == setup.hash_otp token otp ]))
          (bad_request "Incorrect OTP"))
    else ok tt
