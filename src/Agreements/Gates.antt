-- ===== src/Agreements/Gates.antt =====
-- What stands before a signature.
use crossbill_back.Base.{
  ℕ, suc, ◌≤◌, ◌<◌, ◌≡◌, refl, sym, ◌∙◌, ◌⊎◌, inl, inr, true, false, Option, none, some, String,
  arith, find?, modify_first, Option-cases,
}
use crossbill_back.Base.Text.{Text, trim}
use crossbill_back.Base.Updates.{find?-modify_first, find?-holds}
use crossbill_back.Base.Http.{ok, err, bad_request}
use crossbill_back.Mongo.{Mongo}
use crossbill_back.Audit.{DocId}
use crossbill_back.Aadhaar as Aadhaar
use crossbill_back.Agreements.Defs.{
  Agreement, GeoFenceStatus, inside, outside, unknown, SignAgreementDto, Store, Setup, is_signed,
  is_closed, has_token,
}
use crossbill_back.Agreements.Signing.{flagged, signed_doc, check_otp}
use crossbill_back.Agreements.Handlers.{with_pdf, sign, aadhaar_verify, aadhaar_doc}
use crossbill_back.Agreements.Writes.{sign-Wrote}

-- The OTP is there, its hash with the link's token is the one on file, and it has not expired.
abbrev pub OtpPassed : Setup → ℕ → DocId → Option Text → Agreement → Type 0
OtpPassed setup now token given a =
    (otp : Text) × (given ≡ some otp)
    × (a.otp_hash ≡ some (setup.hash_otp token otp))
    × ((until : ℕ) × (a.otp_expires_at ≡ some until) × (now ≤ until))

check_otp-OtpPassed :
    (setup : Setup) (now : ℕ) (token : DocId) (given : Option Text) (a : Agreement)
    → check_otp setup now token given a ≡ ok tt
    → a.otp_required ≡ true
    → OtpPassed setup now token given a
unfolding check_otp
check_otp-OtpPassed setup now token none a h y = cc (rw y at h)
check_otp-OtpPassed setup now token (some otp) a h y = elim (Option-cases a.otp_expires_at) [
  | inl e ↦ ground arith
  | inr (until, e) ↦ elim (Option-cases a.otp_hash) [
    | inl f ↦ ground arith
    | inr (x, f) ↦ (otp, refl, ground arith, (until, e, ground arith))
  ]
]

-- A signature closes the agreement and its link.
abbrev pub IsClosedBy : SignAgreementDto → ℕ → Agreement → Type 0
IsClosedBy dto now a =
    (is_signed a.status ≡ true)
    × (a.sign_token ≡ none)
    × (a.otp_hash ≡ none)
    × (a.signed_name ≡ some dto.signed_name)
    × (a.signature_image ≡ some dto.signature_image)
    × (a.signed_at ≡ some now)

flagged-IsClosedBy :
    (dto : SignAgreementDto) (now : ℕ) (g : GeoFenceStatus) (a : Agreement)
    → IsClosedBy dto now a
    → IsClosedBy dto now (flagged now g a)
flagged-IsClosedBy dto now inside a h = h
flagged-IsClosedBy dto now outside a h = h
flagged-IsClosedBy dto now unknown a h = h

with_pdf-IsClosedBy :
    (dto : SignAgreementDto) (now : ℕ) (u : Option String) (a : Agreement)
    → IsClosedBy dto now a
    → IsClosedBy dto now (with_pdf u a)
with_pdf-IsClosedBy dto now none a h = h
with_pdf-IsClosedBy dto now (some url) a h = h

signed_doc-IsClosedBy :
    (setup : Setup) (now code : ℕ) (dto : SignAgreementDto) (ip : String) (ua : Option Text)
    (a : Agreement)
    → IsClosedBy dto now (signed_doc setup now code dto ip ua a)
unfolding signed_doc
signed_doc-IsClosedBy setup now code dto ip ua a =
    flagged-IsClosedBy dto now _ _ (refl, refl, refl, refl, refl, refl)

module _ (db : Mongo) (setup : Setup) (s : Store) where
  -- A signature that goes through found the agreement of the link, neither signed, declined nor
  -- voided; if it requires Aadhaar, that was verified; if it requires an OTP, the one given matches
  -- and has not expired. Only that agreement is written: it is signed, with the name and signature
  -- given, and its link and OTP are gone.
  pub sign-gates :
      (now code token : DocId) (dto : SignAgreementDto) (ip : String) (ua : Option Text)
      {r : Agreement × Store}
      → sign db setup now code token dto ip ua s ≡ ok r
      → (old : Agreement) × (find? (has_token token) s.agreements ≡ some old)
        × (is_signed old.status ≡ false)
        × (is_closed old.status ≡ false)
        × ((old.aadhaar_required ≡ false) ⊎ (old.aadhaar_verified ≡ true))
        × (old.otp_required ≡ true → OtpPassed setup now token dto.otp old)
        × IsClosedBy dto now r.0
        × (r.1.agreements ≡ modify_first (has_token token) (λ _. r.0) s.agreements)
  sign-gates now code token dto ip ua {r} h =
      let (old, new, found, wrote, k) = sign-Wrote db s setup now code token dto ip ua h in
      (
        old,
        found,
        k.0,
        k.1,
        k.2,
        check_otp-OtpPassed setup now token dto.otp old k.3,
        rw (sym k.4, k.5)
            (with_pdf-IsClosedBy dto now _ _ (signed_doc-IsClosedBy setup now code dto ip ua old)),
        rw (sym k.4) wrote,
      )

-- What an accepted OTP makes of a verification, and what a refused one does.
abbrev pub IsAcceptedFrom : ℕ → Aadhaar.AadhaarVerification → Aadhaar.AadhaarVerification → Type 0
IsAcceptedFrom now old v =
    (v.status ≡ Aadhaar.verified)
    × (v.verified_at ≡ some now)
    × (v.attempts ≡ suc old.attempts)
    × (v.aadhaar_last4 ≡ old.aadhaar_last4)
    × (v.agreement_id ≡ old.agreement_id)

abbrev pub IsRefusedFrom : Aadhaar.AadhaarVerification → Aadhaar.AadhaarVerification → Type 0
IsRefusedFrom old v =
    (v.attempts ≡ suc old.attempts)
    × (4 ≤ old.attempts → v.status ≡ Aadhaar.failed)
    × (old.attempts < 4 → v.status ≡ old.status)
    × (v.verified_at ≡ old.verified_at)
    × (v.agreement_id ≡ old.agreement_id)

refused-IsRefusedFrom : (v : Aadhaar.AadhaarVerification) → IsRefusedFrom v (Aadhaar.refused v)
refused-IsRefusedFrom v = (refl, λ many. ground arith, λ few. ground arith, refl, refl)

module _ (db : Mongo) (provider : Aadhaar.AadhaarProvider) (now : ℕ) where
  -- On a verification that is not verified, the provider's answer to the trimmed OTP decides alone,
  -- however many attempts were made before and whether or not they had failed. Accepted, the
  -- verification on file has the status verified, with the instant. Refused, the request fails, and the
  -- verification on file counts one more attempt: from the fifth on its status is failed, before that
  -- as it was.
  pub verify-open :
      (org i : DocId) (otp : Text) (s : Aadhaar.Store) {v : Aadhaar.AadhaarVerification}
      → find? (Aadhaar.by_reference org i) s.verifications ≡ some v
      → Aadhaar.is_verified v.status ≡ false
      → let r = Aadhaar.verify db provider now org i otp s in
        ((provider.verify i (trim otp)).accepted ≡ true
          → ((d : Option Text) × (r.0 ≡ ok d))
            × ((w : Aadhaar.AadhaarVerification) × (find?
                    (Aadhaar.by_reference org i)
                    r.1.verifications
                  ≡ some w)
                × IsAcceptedFrom now v w))
        × ((provider.verify i (trim otp)).accepted ≡ false
            → (r.0 ≡ err (bad_request "Incorrect or expired OTP"))
              × ((w : Aadhaar.AadhaarVerification) × (find?
                      (Aadhaar.by_reference org i)
                      r.1.verifications
                    ≡ some w)
                  × IsRefusedFrom v w))
  unfolding Aadhaar.verify
  verify-open org i otp s {v} found free =
      let p = Aadhaar.by_reference org i in
      let found' : db.find_one p s.verifications ≡ some v =
        db.find_one_lem p s.verifications ∙ found in
      let mine = find?-holds p s.verifications found in
      (
        λ yes. (
          elim (Option-cases v.aadhaar_last4) [
            | inl e ↦ ((provider.verify i (trim otp)).last4, ground arith)
            | inr (d, e) ↦ (some d, ground arith)
          ],
          (
            Aadhaar.accepted_at now v,
            ground (
              arith,
              db.update_one_lem p (λ _. Aadhaar.accepted_at now v) s.verifications,
              find?-modify_first p (λ _. Aadhaar.accepted_at now v) s.verifications found mine,
            ),
            (refl, refl, refl, refl, refl),
          ),
        ),
        λ no. (
          ground arith,
          (
            Aadhaar.refused v,
            ground (
              arith,
              db.update_one_lem p (λ _. Aadhaar.refused v) s.verifications,
              find?-modify_first p (λ _. Aadhaar.refused v) s.verifications found mine,
            ),
            refused-IsRefusedFrom v,
          ),
        ),
      )

  -- A verification of the organisation that is verified answers for any agreement of it, whichever
  -- agreement it was made for, and for any OTP, also one that the provider refuses: the agreement of
  -- the link is marked as verified on file, with the last four digits of the verification, and what was
  -- signed and asked of it stays; the verification itself is not written.
  pub aadhaar_verify-verified :
      (setup : Setup) (token reference : DocId) (otp : Text) (s : Store) {doc : Agreement}
      {v : Aadhaar.AadhaarVerification}
      → find? (has_token token) s.agreements ≡ some doc
      → find? (Aadhaar.by_reference doc.org_id reference) s.aadhaar.verifications ≡ some v
      → Aadhaar.is_verified v.status ≡ true
      → let r = aadhaar_verify db setup provider now token reference otp s in
        (r.0 ≡ ok v.aadhaar_last4)
        × (r.1.aadhaar.verifications ≡ s.aadhaar.verifications)
        × ((d : Agreement) × (find? (has_token token) r.1.agreements ≡ some d)
            × (d.aadhaar_verified ≡ true)
            × (d.aadhaar_last4 ≡ v.aadhaar_last4)
            × (d.id ≡ doc.id)
            × (d.status ≡ doc.status)
            × (d.aadhaar_required ≡ doc.aadhaar_required))
  unfolding aadhaar_verify Aadhaar.verify
  aadhaar_verify-verified setup token reference otp s {doc} {v} linked found done =
      let doc' : Agreement = aadhaar_doc now v.aadhaar_last4 doc in
      let linked' : db.find_one (has_token token) s.agreements ≡ some doc =
        db.find_one_lem (has_token token) s.agreements ∙ linked in
      let found' : db.find_one (Aadhaar.by_reference doc.org_id reference) s.aadhaar.verifications
          ≡ some v =
        db.find_one_lem (Aadhaar.by_reference doc.org_id reference) s.aadhaar.verifications
        ∙ found in
      (
        ground arith,
        ground arith,
        (
          doc',
          ground (
            arith,
            db.update_one_lem (has_token token) (λ _. doc') s.agreements,
            find?-modify_first (has_token token) (λ _. doc') s.agreements linked
                (find?-holds (has_token token) s.agreements linked),
          ),
          refl,
          refl,
          refl,
          refl,
          refl,
        ),
      )
