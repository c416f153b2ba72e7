-- ===== src/Agreements/Tests.antt =====
-- An agreement on its way to a signature.
use crossbill_back.Base.{
  ◌+◌, ◌*◌, ◌≡◌, ◌⊎◌, refl, true, false, List, [], ◌∷◌, none, some, Option, find?, modify_first,
  ◌==◌, length, arith,
}
use crossbill_back.Base.Text.{Text, codes, trim}
use crossbill_back.Base.Http.{ok, err, bad_request}
use crossbill_back.Mongo.InMemory.{in_memory}
use crossbill_back.Aadhaar as Aadhaar
use crossbill_back.Agreements.Defs.{
  viewed, Agreement, SignAgreementDto, CreateAgreementDto, Store, Setup, is_signed, is_closed,
  has_token,
}
use crossbill_back.Agreements.Signing.{drafted, check_otp}
use crossbill_back.Agreements.Handlers.{sign, aadhaar_verify}
use crossbill_back.Agreements.Requests.{Request, serve}
use crossbill_back.Agreements.Evidence.{Continues, NoLinks}
use crossbill_back.Agreements.Signed.{serve-Continues}
use crossbill_back.Agreements.Reuse.{aadhaar_verify-reused}
use crossbill_back.Agreements.Gates.{
  OtpPassed, IsClosedBy, sign-gates, IsAcceptedFrom, IsRefusedFrom, verify-open,
}

abbrev setup : Setup
setup = record {
  hash_otp = λ token otp. token * 100 + length otp;
  email_configured = true;
  aadhaar_configured = false;
  fences_of = λ org. [];
  is_within = λ f lat lng. true;
  render = λ a. some "https://pdf/1";
}

abbrev provider : Aadhaar.AadhaarProvider
provider = record {
  name = "sandbox";
  sandbox = true;
  initiate = λ digits. (31, none);
  verify = λ i otp. record { accepted = length otp == 6; last4 = none };
}

abbrev create_dto : CreateAgreementDto
create_dto = record { client_id = none; title = "NDA"; category = none; body = some "Text" }

abbrev base : Agreement
base = drafted 1 5 9 none none create_dto

-- The agreement once its link is opened, with the link 7.
abbrev opened : Agreement
opened = record base {
  status = viewed;
  sign_token = some 7;
  otp_required = true;
  otp_hash = some 706;
  otp_expires_at = some 900;
  aadhaar_required = true;
  aadhaar_verified = true;
}

abbrev waiting : Agreement
waiting = record opened { aadhaar_verified = false }

-- A verification made for another agreement, 44.
abbrev check : Aadhaar.VerificationStatus → Aadhaar.AadhaarVerification
check status = record {
  org_id = 9;
  agreement_id = some 44;
  channel = "aadhaar_otp";
  provider = "sandbox";
  reference_id = 31;
  aadhaar_last4 = some (codes "1234");
  status = status;
  attempts = 7;
  ip = none;
  user_agent = none;
  verified_at = none;
}

abbrev store : Agreement → Aadhaar.VerificationStatus → Store
store a status = record {
  agreements = a ∷ [];
  aadhaar = record { verifications = check status ∷ []; events = [] };
}

abbrev sign_dto : SignAgreementDto
sign_dto = record {
  signed_name = "Anita Rao";
  signature_image = "data:image/png;base64,AA";
  otp = some (codes "123456");
  lat = none;
  lng = none;
  accuracy = none;
  selfie = none;
}

abbrev requests : List Request
requests =
    Request.create 1 6 9 none none create_dto
    ∷ Request.sign 500 77 7 sign_dto "10.0.0.1" none
    ∷ Request.decline 600 7
    ∷ Request.send 700 8 (codes "000000") 9 none 5
        (record { signer_name = "A"; signer_email = "a@b.c"; aadhaar_required = none })
    ∷ []

serve-Continues_example :
    Continues
      (store opened Aadhaar.otp_sent)
      (serve in_memory setup provider requests (store opened Aadhaar.otp_sent))
    × NoLinks (serve in_memory setup provider requests (store opened Aadhaar.otp_sent))
serve-Continues_example =
    serve-Continues in_memory setup provider requests (store opened Aadhaar.otp_sent) (λ y. cc, tt)

signing : Agreement × Store
unfolding sign check_otp
signing =
    elim (sign in_memory setup 500 77 7 sign_dto "10.0.0.1" none (store opened Aadhaar.otp_sent)) [
      | ok r ↦ r
      | err e ↦ (base, store base Aadhaar.otp_sent)
    ]

signing_lem :
    sign in_memory setup 500 77 7 sign_dto "10.0.0.1" none (store opened Aadhaar.otp_sent)
    ≡ ok signing
unfolding signing
signing_lem = refl

sign-gates_example :
    (old : Agreement) × (find? (has_token 7) (opened ∷ []) ≡ some old)
    × (is_signed old.status ≡ false)
    × (is_closed old.status ≡ false)
    × ((old.aadhaar_required ≡ false) ⊎ (old.aadhaar_verified ≡ true))
    × (old.otp_required ≡ true → OtpPassed setup 500 7 (some (codes "123456")) old)
    × IsClosedBy sign_dto 500 signing.0
    × (signing.1.agreements ≡ modify_first (has_token 7) (λ _. signing.0) (opened ∷ []))
sign-gates_example =
    sign-gates in_memory setup (store opened Aadhaar.otp_sent) 500 77 7 sign_dto "10.0.0.1" none
      signing_lem

verify-open_example :
    let r =
      Aadhaar.verify in_memory provider 800 9 31
        (codes "123456")
        (store waiting Aadhaar.failed).aadhaar in
    ((provider.verify 31 (trim (codes "123456"))).accepted ≡ true
      → ((d : Option Text) × (r.0 ≡ ok d))
        × ((w : Aadhaar.AadhaarVerification) × (find? (Aadhaar.by_reference 9 31) r.1.verifications
              ≡ some w)
            × IsAcceptedFrom 800 (check Aadhaar.failed) w))
    × ((provider.verify 31 (trim (codes "123456"))).accepted ≡ false
        → (r.0 ≡ err (bad_request "Incorrect or expired OTP"))
          × ((w : Aadhaar.AadhaarVerification) × (find?
                  (Aadhaar.by_reference 9 31)
                  r.1.verifications
                ≡ some w)
              × IsRefusedFrom (check Aadhaar.failed) w))
verify-open_example =
    verify-open in_memory provider 800 9 31 (codes "123456") (store waiting Aadhaar.failed).aadhaar
      refl refl

-- Another agreement, with the link 8.
abbrev second : Agreement
second = record waiting { id = 2; sign_token = some 8 }

abbrev both : Store
both = record {
  agreements = waiting ∷ second ∷ [];
  aadhaar = record { verifications = check Aadhaar.otp_sent ∷ []; events = [] };
}

aadhaar_verify-reused_example :
    let t = (aadhaar_verify in_memory setup provider 800 7 31 (codes "123456") both).1 in
    let r = aadhaar_verify in_memory setup provider 800 8 31 (codes "nonsense") t in
    (r.0 ≡ ok (some (codes "1234")))
    × ((d : Agreement) × (find? (has_token 8) r.1.agreements ≡ some d)
        × (d.aadhaar_verified ≡ true)
        × (d.aadhaar_last4 ≡ some (codes "1234"))
        × (d.id ≡ 2)
        × (d.status ≡ viewed)
        × (d.aadhaar_required ≡ true))
unfolding trim
aadhaar_verify-reused_example =
    aadhaar_verify-reused in_memory setup provider 800 7 8 31 (codes "123456") (codes "nonsense")
      both refl refl (λ e. omega (arith, e)) refl refl refl refl
