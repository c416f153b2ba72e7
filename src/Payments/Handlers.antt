-- ===== src/Payments/Handlers.antt =====
-- The operations of api/src/modules/payments/payments.service.ts. An amount on file is a text with two
-- decimals, so `parseFloat` and the rounding to paise give its hundredths.
use crossbill_back.Base.{
  ℕ, ◌*◌, Bool, true, false, List, [], ◌∷◌, ◌++◌, Option, none, some, String, ◌==◌, ◌&&◌, ltb,
  if◌then◌else◌,
}
use crossbill_back.Base.Text.{Text, codes, text_eq}
use crossbill_back.Base.Money.{fixed2, cents_of}
use crossbill_back.Base.Decimal.{decimal}
use crossbill_back.Base.Http.{Result, ok, err, bad_request, ◌>>=◌, ◌>>◌, throw_if}
use crossbill_back.Mongo.{Mongo, Written, written, duplicate}
use crossbill_back.Audit.{DocId, log, entry}
use crossbill_back.Clients.{Client, find_one_scoped as client_of}
use crossbill_back.Invoices.Defs.{Invoice, export, domestic}
use crossbill_back.Invoices.Handlers.{is_paid}
use crossbill_back.Invoices.Changes.{find_one_scoped as invoice_of}
use crossbill_back.Payments.Defs.{
  Plan, plan_by_id, PaymentPurpose, for_invoice, for_subscription, PaymentStatus, Payment, Customer,
  Notes, LinkInput, RazorpayLink, Razorpay, Store, create_payment_link,
}

abbrev payable : Invoice → Text
payable invoice = elim invoice.charges.kind [
  | domestic ↦ invoice.charges.grand_total
  | export ↦ invoice.charges.inr_equivalent
]

-- `invoiceInrAmount`, in paise.
unfoldable pub invoice_inr_paise : Invoice → Result ℕ
invoice_inr_paise invoice =
    let n = cents_of (payable invoice) in
    if ltb 0 n then ok n else err (bad_request "Invoice has no payable INR amount")

abbrev is_invoice : PaymentPurpose → Bool
is_invoice for_invoice = true
is_invoice for_subscription = false

abbrev is_created : PaymentStatus → Bool
is_created PaymentStatus.created = true
is_created _ = false

abbrev pub has_been_paid : PaymentStatus → Bool
has_been_paid PaymentStatus.paid = true
has_been_paid _ = false

abbrev is_for : Option DocId → DocId → Bool
is_for none i = false
is_for (some j) i = j == i

abbrev pub pending_link : DocId → DocId → Payment → Bool
pending_link org i p =
    p.org_id == org && is_for p.invoice_id i && is_invoice p.purpose && is_created p.status

abbrev pub has_link : Text → Payment → Bool
has_link link p = text_eq p.razorpay_link_id link

abbrev customer_of : Result Client → Option Customer
customer_of (err e) = none
customer_of (ok client) = some (record { name = some client.name; email = client.email })

abbrev no_notes : Notes
no_notes = record {
  org_id = none;
  purpose = none;
  invoice_id = none;
  invoice_number = none;
  plan_id = none;
}

abbrev or_same : {D : Type 0} → List D → Written D → List D
or_same xs (written ys) = ys
or_same xs (duplicate k) = xs

-- The link that is asked for an invoice; `stamp` is the time in base 36.
abbrev pub invoice_link : Text → Text → DocId → Invoice → Option Customer → ℕ → LinkInput
invoice_link app_url stamp org invoice customer paise = record {
  amount_paise = paise;
  currency = codes "INR";
  description = codes "Payment for invoice " ++ invoice.number;
  reference_id = codes "inv-" ++ (decimal invoice.id ++ b'-' ∷ stamp);
  customer = customer;
  notes = record {
    org_id = some org;
    purpose = some for_invoice;
    invoice_id = some invoice.id;
    invoice_number = some invoice.number;
    plan_id = none;
  };
  callback_url = app_url ++ (codes "/invoices/" ++ (decimal invoice.id ++ codes "?paid=1"));
}

abbrev pub invoice_payment : DocId → DocId → Invoice → ℕ → RazorpayLink → Payment
invoice_payment new_id org invoice paise link = record {
  id = new_id;
  org_id = org;
  purpose = for_invoice;
  invoice_id = some invoice.id;
  invoice_number = some invoice.number;
  plan_id = none;
  razorpay_link_id = link.id;
  short_url = link.short_url;
  amount = fixed2 paise;
  amount_paise = paise;
  currency = codes "INR";
  status = PaymentStatus.created;
  razorpay_payment_id = none;
  paid_at = none;
}

abbrev pub plan_link : Text → Text → DocId → Plan → Option String → LinkInput
plan_link app_url stamp org plan email = record {
  amount_paise = plan.price_inr * 100;
  currency = codes "INR";
  description = codes "Crossbill " ++ (plan.name ++ codes " plan");
  reference_id = codes "sub-" ++ (decimal org ++ b'-' ∷ stamp);
  customer = elim email [ none ↦ none | some e ↦ some (record { name = none; email = some e }) ];
  notes = record {
    org_id = some org;
    purpose = some for_subscription;
    invoice_id = none;
    invoice_number = none;
    plan_id = some plan.id;
  };
  callback_url = app_url ++ codes "/billing?upgraded=1";
}

abbrev pub plan_payment : DocId → DocId → Plan → RazorpayLink → Payment
plan_payment new_id org plan link = record {
  id = new_id;
  org_id = org;
  purpose = for_subscription;
  invoice_id = none;
  invoice_number = none;
  plan_id = some plan.id;
  razorpay_link_id = link.id;
  short_url = link.short_url;
  amount = fixed2 (plan.price_inr * 100);
  amount_paise = plan.price_inr * 100;
  currency = codes "INR";
  status = PaymentStatus.created;
  razorpay_payment_id = none;
  paid_at = none;
}

abbrev paid_plan : Option Plan → Result Plan
paid_plan none = err (bad_request "Unknown or free plan")
paid_plan (some plan) =
    if ltb 0 plan.price_inr then ok plan else err (bad_request "Unknown or free plan")

module _ {B W : Type 0} (razorpay : Razorpay B) (app_url : Text) (db : Mongo) where
  -- A new payment, with its entry in the log.
  abbrev pub filed : String → Option DocId → Payment → Store W → Store W
  filed action user doc s = record s {
    payments = or_same s.payments (db.create [] doc s.payments);
    base = record s.base { events = log db (entry action doc.org_id user doc.id) s.base.events };
  }

  abbrev pub new_link : DocId → Text → DocId → Invoice → Store W → Result (Payment × Store W)
  new_link new_id stamp org invoice s = do
    paise ← invoice_inr_paise invoice
    link ← create_payment_link razorpay (
        invoice_link app_url stamp org invoice
          (customer_of (client_of db org invoice.client_id s.base)) paise)
    let doc = invoice_payment new_id org invoice paise link
    ok (doc, filed "payment.link.created" none doc s)

  unfoldable pub create_invoice_link :
      DocId → Text → DocId → DocId → Store W → Result (Payment × Store W)
  create_invoice_link new_id stamp org i s = do
    invoice ← invoice_of db org i s.invoices
    throw_if (is_paid invoice.status) (bad_request "Invoice is already paid")
    elim (db.find_one (pending_link org i) s.payments) [
      | some existing ↦ ok (existing, s)
      | none ↦ new_link new_id stamp org invoice s
    ]

  unfoldable pub create_subscription_link :
      DocId → Text → DocId → DocId → Text → Option String → Store W → Result (Payment × Store W)
  create_subscription_link new_id stamp org user plan_id email s = do
    plan ← paid_plan (plan_by_id plan_id)
    link ← create_payment_link razorpay (plan_link app_url stamp org plan email)
    let doc = plan_payment new_id org plan link
    ok (doc, filed "billing.checkout.created" (some user) doc s)
