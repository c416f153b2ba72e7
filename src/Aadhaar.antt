-- ===== src/Aadhaar.antt =====
-- The Aadhaar OTP service: api/src/modules/aadhaar/aadhaar.service.ts, its schema and the interface
-- of its providers.
use crossbill_back.Base.{
  ℕ, zero, suc, ◌-◌, Bool, true, false, not, List, [], ◌∷◌, Option, none, some, String, ◌==◌, ◌&&◌,
  leb, length, all, filter, if◌then◌else◌, get_or,
}
use crossbill_back.Base.Text.{Text, trim, is_space}
use crossbill_back.Base.Http.{Result, ok, err, bad_request, ◌>>◌, throw_if}
use crossbill_back.Mongo.{Mongo, Written, written, duplicate}
use crossbill_back.Audit.{DocId, EventLog, log, entry}

pub data VerificationStatus : Type 0 where
  initiated otp_sent verified failed expired : VerificationStatus

pub record AadhaarVerification : Type 0 where
  pub org_id : DocId
  pub agreement_id : Option DocId
  pub channel : String
  pub provider : String
  pub reference_id : DocId
  pub aadhaar_last4 : Option Text
  pub status : VerificationStatus
  pub attempts : ℕ
  pub ip : Option Text
  pub user_agent : Option Text
  pub verified_at : Option ℕ

-- What a provider answers to an OTP.
pub record Answer : Type 0 where
  pub accepted : Bool
  pub last4 : Option Text

-- `AadhaarProvider`: the reference and the test OTP of a new verification, and the check of an OTP.
pub record AadhaarProvider : Type 0 where
  pub name : String
  pub sandbox : Bool
  pub initiate : Text → DocId × Option Text
  pub verify : DocId → Text → Answer

pub record Initiated : Type 0 where
  pub reference_id : DocId
  pub sandbox : Bool
  pub dev_otp : Option Text

pub record Store : Type 0 where
  pub verifications : List AadhaarVerification
  pub events : EventLog

abbrev pub is_verified : VerificationStatus → Bool
is_verified verified = true
is_verified _ = false

abbrev is_digit : ℕ → Bool
is_digit c = leb b'0' c && leb c b'9'

-- `/^\d{12}$/.test(digits)`.
abbrev pub is_aadhaar : Text → Bool
is_aadhaar digits = length digits == 12 && all is_digit digits

abbrev drop : ℕ → Text → Text
drop zero s = s
drop (suc n) [] = []
drop (suc n) (c ∷ s) = drop n s

-- `s.slice(0, n)` and `s.slice(-4)`.
abbrev pub first_chars : ℕ → Text → Text
first_chars zero s = []
first_chars (suc n) [] = []
first_chars (suc n) (c ∷ s) = c ∷ first_chars n s

abbrev pub last_four : Text → Text
last_four s = drop (length s - 4) s

abbrev short_agent : Option Text → Option Text
short_agent none = none
short_agent (some ua) = some (first_chars 400 ua)

abbrev or_same : List AadhaarVerification → Written AadhaarVerification → List AadhaarVerification
or_same xs (written ys) = ys
or_same xs (duplicate key) = xs

abbrev pub by_reference : DocId → DocId → AadhaarVerification → Bool
by_reference org i v = v.org_id == org && v.reference_id == i

-- A verification after a refused OTP, and after an accepted one.
abbrev pub refused : AadhaarVerification → AadhaarVerification
refused v = record v {
  attempts = suc v.attempts;
  status = if leb 5 (suc v.attempts) then failed else v.status;
}

abbrev pub accepted_at : ℕ → AadhaarVerification → AadhaarVerification
accepted_at now v = record v {
  attempts = suc v.attempts;
  status = verified;
  verified_at = some now;
}

module _ (db : Mongo) (provider : AadhaarProvider) where
  unfoldable pub initiate :
      DocId → Option DocId → Text → Option Text → Option Text → Store → Result (Initiated × Store)
  initiate org agreement aadhaar ip ua s = do
    let digits = filter (λ c. not (is_space c)) aadhaar
    throw_if (not (is_aadhaar digits)) (bad_request "Enter a valid 12-digit Aadhaar number")
    let (reference, dev_otp) = provider.initiate digits
    let doc : AadhaarVerification = record {
      org_id = org;
      agreement_id = agreement;
      channel = "aadhaar_otp";
      provider = provider.name;
      reference_id = reference;
      aadhaar_last4 = some (last_four digits);
      status = otp_sent;
      attempts = 0;
      ip = ip;
      user_agent = short_agent ua;
      verified_at = none;
    }
    ok (
      record { reference_id = reference; sandbox = provider.sandbox; dev_otp = dev_otp },
      record {
        verifications = or_same s.verifications (db.create [] doc s.verifications);
        events = log db (entry "aadhaar.otp_sent" org none (get_or agreement reference)) s.events;
      },
    )

  -- The outcome on a verification that was found. A refusal is written before it is thrown.
  abbrev pub checked :
      ℕ → DocId → DocId → Text → AadhaarVerification → Store → Result (Option Text) × Store
  checked now org i otp v s =
      let answer = provider.verify i (trim otp) in
      let resource = get_or v.agreement_id i in
      if is_verified v.status
      then (ok v.aadhaar_last4, s)
      else if answer.accepted
      then (
        ok (elim v.aadhaar_last4 [ some d ↦ some d | none ↦ answer.last4 ]),
        record {
          verifications =
              db.update_one (by_reference org i) (λ _. accepted_at now v) s.verifications;
          events = log db (entry "aadhaar.verified" org none resource) s.events;
        },
      )
      else (
        err (bad_request "Incorrect or expired OTP"),
        record {
          verifications = db.update_one (by_reference org i) (λ _. refused v) s.verifications;
          events = log db (entry "aadhaar.verify_failed" org none resource) s.events;
        },
      )

  unfoldable pub verify : ℕ → DocId → DocId → Text → Store → Result (Option Text) × Store
  verify now org i otp s = elim (db.find_one (by_reference org i) s.verifications) [
    | none ↦ (err (bad_request "Verification not found or expired"), s)
    | some v ↦ checked now org i otp v s
  ]
