-- ===== src/Agreements/Handlers.antt =====
-- The handlers of the signing flow, over the documents of `Signing`.
use crossbill_back.Base.{
  ℕ, ◌+◌, Bool, true, false, not, [], Option, none, some, String, ◌&&◌, if◌then◌else◌,
}
use crossbill_back.Base.Text.{Text}
use crossbill_back.Base.Http.{Result, ok, err, bad_request, forbidden, ◌>>=◌, ◌>>◌, throw_if}
use crossbill_back.Mongo.{Mongo}
use crossbill_back.Audit.{DocId, log, entry}
use crossbill_back.Aadhaar as Aadhaar
use crossbill_back.Agreements.Defs.{
  viewed, declined, Agreement, CreateAgreementDto, SendAgreementDto, SignAgreementDto, Store, Setup,
  is_signed, is_closed, is_sent, push_event, find_one_scoped, by_token, save_scoped, save_by_token,
}
use crossbill_back.Agreements.Signing.{or_same, drafted, otp_ttl, sent_doc, signed_doc, check_otp}

-- The store after an entry of the audit trail.
abbrev pub audited : Mongo → String → Agreement → Option DocId → Store → Store
audited db action a user s = record s {
  aadhaar = record s.aadhaar { events = log db (entry action a.org_id user a.id) s.aadhaar.events };
}

-- The document after the PDF service, which a failure leaves as it was.
abbrev pub with_pdf : Option String → Agreement → Agreement
with_pdf none a = a
with_pdf (some url) a = record a { signed_pdf_url = some url }

abbrev pub viewed_doc : ℕ → Agreement → Agreement
viewed_doc now a = push_event now "viewed" (record a { status = viewed; viewed_at = some now })

abbrev pub declined_doc : ℕ → Agreement → Agreement
declined_doc now a =
    push_event now "declined"
      (record a { status = declined; declined_at = some now; sign_token = none })

abbrev pub new_otp : Setup → ℕ → DocId → Text → Agreement → Agreement
new_otp setup now token otp a = record a {
  otp_hash = some (setup.hash_otp token otp);
  otp_expires_at = some (now + otp_ttl);
}

abbrev pub aadhaar_doc : ℕ → Option Text → Agreement → Agreement
aadhaar_doc now last4 a =
    push_event now "aadhaar.verified" (record a { aadhaar_verified = true; aadhaar_last4 = last4 })

module _ (db : Mongo) (setup : Setup) where
  unfoldable pub create :
      ℕ
      → DocId
      → DocId
      → Option String
      → Option String
      → CreateAgreementDto
      → Store
      → Agreement × Store
  create now new_id org seller client dto s =
      let doc : Agreement = drafted now new_id org seller client dto in
      (
        doc,
        audited db "agreement.created" doc none
            (record s { agreements = or_same s.agreements (db.create [] doc s.agreements) }),
      )

  unfoldable pub send :
      ℕ
      → DocId
      → Text
      → DocId
      → Option DocId
      → DocId
      → SendAgreementDto
      → Store
      → Result (Agreement × Store)
  send now token otp org user i dto s = do
    doc ← find_one_scoped db org i s
    throw_if (is_signed doc.status) (bad_request "Agreement is already signed")
    let doc' = sent_doc setup now token otp dto doc
    ok (doc', audited db "agreement.sent" doc' user (save_scoped db org i doc' s))

  unfoldable pub get_for_signing : ℕ → DocId → Store → Result (Agreement × Store)
  get_for_signing now token s = do
    doc ← by_token db token s
    ok (
        if is_sent doc.status
        then (viewed_doc now doc, save_by_token db token (viewed_doc now doc) s)
        else (doc, s))

  unfoldable pub aadhaar_init :
      Aadhaar.AadhaarProvider
      → DocId
      → Text
      → Option Text
      → Option Text
      → Store
      → Result (Option Aadhaar.Initiated × Store)
  aadhaar_init provider token aadhaar ip ua s = do
    doc ← by_token db token s
    if doc.aadhaar_required && not doc.aadhaar_verified
        then (do
          r ← Aadhaar.initiate db provider doc.org_id (some doc.id) aadhaar ip ua s.aadhaar
          ok (some r.0, record s { aadhaar = r.1 }))
        else ok (none, s)

  -- What `aadhaarVerify` does with the answer of the Aadhaar service, whose writes stay either way.
  abbrev pub aadhaar_answered :
      ℕ
      → DocId
      → Agreement
      → Store
      → Result (Option Text) × Aadhaar.Store
      → Result (Option Text) × Store
  aadhaar_answered now token doc s (ok last4, t) =
      (ok last4, save_by_token db token (aadhaar_doc now last4 doc) (record s { aadhaar = t }))
  aadhaar_answered now token doc s (err e, t) = (err e, record s { aadhaar = t })

  unfoldable pub aadhaar_verify :
      Aadhaar.AadhaarProvider → ℕ → DocId → DocId → Text → Store → Result (Option Text) × Store
  aadhaar_verify provider now token reference otp s = elim (by_token db token s) [
    | err e ↦ (err e, s)
    | ok doc ↦
        aadhaar_answered now token doc s
          (Aadhaar.verify db provider now doc.org_id reference otp s.aadhaar)
  ]

  unfoldable pub resend_otp : ℕ → DocId → Text → Store → Result (Bool × Store)
  resend_otp now token otp s = do
    doc ← by_token db token s
    if doc.otp_required
        then (do
          throw_if (is_signed doc.status) (bad_request "Already signed")
          ok (true, save_by_token db token (new_otp setup now token otp doc) s))
        else ok (false, s)

  unfoldable pub sign :
      ℕ → ℕ → DocId → SignAgreementDto → String → Option Text → Store → Result (Agreement × Store)
  sign now code token dto ip ua s = do
    doc ← by_token db token s
    throw_if (is_signed doc.status) (bad_request "This agreement is already signed")
    throw_if (is_closed doc.status) (forbidden "This agreement can no longer be signed")
    throw_if (doc.aadhaar_required && not doc.aadhaar_verified)
        (bad_request "Aadhaar verification is required before signing")
    check_otp setup now token dto.otp doc
    let doc1 = signed_doc setup now code dto ip ua doc
    let doc2 = with_pdf (setup.render doc1) doc1
    ok (doc2, audited db "agreement.signed" doc2 none (save_by_token db token doc2 s))

  unfoldable pub decline : ℕ → DocId → Store → Result (Agreement × Store)
  decline now token s = do
    doc ← by_token db token s
    throw_if (is_signed doc.status) (bad_request "Already signed")
    let doc' = declined_doc now doc
    ok (doc', audited db "agreement.declined" doc' none (save_by_token db token doc' s))
