-- ===== src/Payments/Defs.antt =====
-- Plans, payment links and the client of Razorpay: api/src/modules/payments/plans.ts, the schema and
-- clients/razorpay.client.ts. HTTP, HMAC and the parser of JSON are arguments.
use crossbill_back.Base.{
  ℕ, Bool, true, false, not, List, [], ◌∷◌, Option, none, some, String, ◌||◌, find?, if◌then◌else◌,
}
use crossbill_back.Base.Text.{Text, codes, text_eq}
use crossbill_back.Base.Http.{Result, ok, err, bad_gateway, service_unavailable}
use crossbill_back.Audit.{DocId}
use crossbill_back.Organizations.{Organization}
use crossbill_back.Clients
use crossbill_back.Invoices.Defs.{Invoice}

pub record Plan : Type 0 where
  pub id : Text
  pub name : Text
  pub price_inr : ℕ

-- `PLANS`, without the texts of the price list.
unfoldable pub plans : List Plan
plans =
    record { id = codes "free"; name = codes "Free"; price_inr = 0 }
    ∷ record { id = codes "pro"; name = codes "Pro"; price_inr = 999 }
    ∷ record { id = codes "agency"; name = codes "Agency"; price_inr = 2499 }
    ∷ []

unfoldable pub plan_by_id : Text → Option Plan
unfolding plans
plan_by_id i = find? (λ p. text_eq p.id i) plans

pub data PaymentPurpose : Type 0 where
  for_invoice for_subscription : PaymentPurpose

pub data PaymentStatus : Type 0 where
  created paid cancelled expired failed : PaymentStatus

pub record Payment : Type 0 where
  pub id : DocId
  pub org_id : DocId
  pub purpose : PaymentPurpose
  pub invoice_id : Option DocId
  pub invoice_number : Option Text
  pub plan_id : Option Text
  pub razorpay_link_id : Text
  pub short_url : Text
  pub amount : Text
  pub amount_paise : ℕ
  pub currency : Text
  pub status : PaymentStatus
  pub razorpay_payment_id : Option Text
  pub paid_at : Option ℕ

pub record Customer : Type 0 where
  pub name : Option String
  pub email : Option String

-- The `notes` of a link.
pub record Notes : Type 0 where
  pub org_id : Option DocId
  pub purpose : Option PaymentPurpose
  pub invoice_id : Option DocId
  pub invoice_number : Option Text
  pub plan_id : Option Text

-- `CreatePaymentLinkInput`.
pub record LinkInput : Type 0 where
  pub amount_paise : ℕ
  pub currency : Text
  pub description : Text
  pub reference_id : Text
  pub customer : Option Customer
  pub notes : Notes
  pub callback_url : Text

pub record RazorpayLink : Type 0 where
  pub id : Text
  pub short_url : Text

-- The body of a webhook, as far as the service reads it.
pub record Event : Type 0 where
  pub event : Text
  pub link_id : Option Text
  pub notes : Notes
  pub payment_id : Option Text

-- What the service is configured with and what is not in the repository: the POST of a link, which may
-- fail, the HMAC of a body and the parser.
pub record Razorpay (B : Type 0) : Type 0 where
  pub is_configured : Bool
  pub webhook_secret : Text
  pub post_link : LinkInput → Option RazorpayLink
  pub hmac : Text → B → Text
  pub parse : B → Option Event

abbrev is_empty : Text → Bool
is_empty [] = true
is_empty (c ∷ s) = false

module _ {B : Type 0} (razorpay : Razorpay B) where
  -- `createPaymentLink`.
  unfoldable pub create_payment_link : LinkInput → Result RazorpayLink
  create_payment_link input =
      if not razorpay.is_configured
      then err (
          service_unavailable
            "Razorpay is not configured. Add RAZORPAY_KEY_ID and RAZORPAY_KEY_SECRET to the API .env.")
      else elim (razorpay.post_link input) [
        | none ↦ err (bad_gateway "Razorpay error")
        | some link ↦ ok link
      ]

  abbrev matches : B → Text → Bool
  matches body signature =
      if is_empty razorpay.webhook_secret || is_empty signature
      then false
      else text_eq (razorpay.hmac razorpay.webhook_secret body) signature

  -- `verifyWebhook`.
  unfoldable pub verify_webhook : B → Option Text → Bool
  verify_webhook body none = false
  verify_webhook body (some signature) = matches body signature

pub record Store (W : Type 0) : Type 0 where
  pub orgs : List (Organization W)
  pub base : Clients.Store
  pub invoices : List Invoice
  pub payments : List Payment
