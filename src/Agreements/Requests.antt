-- ===== src/Agreements/Requests.antt =====
-- The requests on agreements, served one after the other.
use crossbill_back.Base.{ℕ, List, [], ◌∷◌, Option, String}
use crossbill_back.Base.Text.{Text}
use crossbill_back.Base.Http.{Result, ok, err}
use crossbill_back.Mongo.{Mongo}
use crossbill_back.Audit.{DocId}
use crossbill_back.Aadhaar as Aadhaar
use crossbill_back.Agreements.Defs.{
  CreateAgreementDto, SendAgreementDto, SignAgreementDto, Store, Setup,
}
use crossbill_back.Agreements.Handlers as Handlers
use crossbill_back.Agreements.Contract as Contract

-- A request, with the instant and the random values that it is served with.
pub data Request : Type 0 where
  create : ℕ → DocId → DocId → Option String → Option String → CreateAgreementDto → Request
  send : ℕ → DocId → Text → DocId → Option DocId → DocId → SendAgreementDto → Request
  open_link : ℕ → DocId → Request
  aadhaar_init : DocId → Text → Option Text → Option Text → Request
  aadhaar_verify : ℕ → DocId → DocId → Text → Request
  resend_otp : ℕ → DocId → Text → Request
  sign : ℕ → ℕ → DocId → SignAgreementDto → String → Option Text → Request
  decline : ℕ → DocId → Request
  set_lifecycle : ℕ → DocId → DocId → Contract.LifecycleDto → Request
  add_obligation : DocId → DocId → DocId → Contract.ObligationDto → Request
  toggle_obligation : DocId → DocId → DocId → Request
  remove_obligation : DocId → DocId → DocId → Request

-- The store after a request, which a refusal leaves as it was.
abbrev pub store_after {ℓ} : {A : Type ℓ} → Store → Result (A × Store) → Store
store_after s (ok r) = r.1
store_after s (err e) = s

module _ (db : Mongo) (setup : Setup) (provider : Aadhaar.AadhaarProvider) where
  unfoldable pub serve_one : Request → Store → Store
  serve_one (create now i org seller client dto) s =
      (Handlers.create db setup now i org seller client dto s).1
  serve_one (send now token otp org user i dto) s =
      store_after s (Handlers.send db setup now token otp org user i dto s)
  serve_one (open_link now token) s = store_after s (Handlers.get_for_signing db setup now token s)
  serve_one (aadhaar_init token aadhaar ip ua) s =
      store_after s (Handlers.aadhaar_init db setup provider token aadhaar ip ua s)
  serve_one (aadhaar_verify now token reference otp) s =
      (Handlers.aadhaar_verify db setup provider now token reference otp s).1
  serve_one (resend_otp now token otp) s =
      store_after s (Handlers.resend_otp db setup now token otp s)
  serve_one (sign now code token dto ip ua) s =
      store_after s (Handlers.sign db setup now code token dto ip ua s)
  serve_one (decline now token) s = store_after s (Handlers.decline db setup now token s)
  serve_one (set_lifecycle now org i dto) s =
      store_after s (Contract.set_lifecycle db now org i dto s)
  serve_one (add_obligation o org i dto) s =
      store_after s (Contract.add_obligation db o org i dto s)
  serve_one (toggle_obligation org i o) s = store_after s (Contract.toggle_obligation db org i o s)
  serve_one (remove_obligation org i o) s = store_after s (Contract.remove_obligation db org i o s)

  unfoldable pub serve : List Request → Store → Store
  serve [] s = s
  serve (q ∷ qs) s = serve qs (serve_one q s)
