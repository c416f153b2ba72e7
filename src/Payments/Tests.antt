-- ===== src/Payments/Tests.antt =====
-- The payment of an invoice.
use crossbill_back.Base.{◌≡◌, refl, [], ◌∷◌, Option, none, some, true, arith}
use crossbill_back.Base.Text.{Text, codes}
use crossbill_back.Base.Http.{ok}
use crossbill_back.Mongo.InMemory.{in_memory}
use crossbill_back.Payments.Defs.{
  for_invoice, PaymentStatus, Payment, Notes, Event, Razorpay, Store, verify_webhook,
}
use crossbill_back.Payments.Webhook.{
  Receipt, reconciled, idempotent, payment_writes, run_all, handle_webhook, handle_event,
}
use crossbill_back.Payments.Once.{IsKeyed, first_of, webhook-again, webhook-lost}

abbrev no_notes : Notes
no_notes = record {
  org_id = none;
  purpose = none;
  invoice_id = none;
  invoice_number = none;
  plan_id = none;
}

abbrev paid_event : Event
paid_event = record {
  event = codes "payment_link.paid";
  link_id = some (codes "plink_1");
  notes = no_notes;
  payment_id = some (codes "pay_1");
}

-- A body is one event here, and its HMAC the secret.
abbrev razorpay : Razorpay (Unit {0})
razorpay = record {
  is_configured = true;
  webhook_secret = codes "s3cret";
  post_link = λ input. none;
  hmac = λ secret body. secret;
  parse = λ body. some paid_event;
}

abbrev payment : Payment
payment = record {
  id = 5;
  org_id = 9;
  purpose = for_invoice;
  invoice_id = some 1;
  invoice_number = none;
  plan_id = none;
  razorpay_link_id = codes "plink_1";
  short_url = codes "https://rzp.io/i/1";
  amount = codes "1180.00";
  amount_paise = 118000;
  currency = codes "INR";
  status = PaymentStatus.created;
  razorpay_payment_id = none;
  paid_at = none;
}

abbrev store : Store (Unit {0})
store = record {
  orgs = [];
  base = record { clients = []; events = [] };
  invoices = [];
  payments = payment ∷ [];
}

abbrev signed : Option Text
signed = some (codes "s3cret")

store-IsKeyed : IsKeyed store.payments
store-IsKeyed link doc h = ground arith

after : Store (Unit {0})
unfolding handle_event
after = (handle_event in_memory 100 paid_event store).1

after_lem : handle_webhook in_memory razorpay 100 tt signed store ≡ ok (reconciled, after)
unfolding after handle_webhook verify_webhook
after_lem = refl

webhook-again_example :
    (r : Receipt) × (handle_webhook in_memory razorpay 200 tt signed after ≡ ok (r, after))
webhook-again_example =
    webhook-again in_memory razorpay 100 200 tt signed store store-IsKeyed after_lem

webhook-lost_example :
    let writes = payment_writes in_memory 100 paid_event payment in
    let u = run_all in_memory (first_of writes) store in
    (handle_webhook in_memory razorpay 100 tt signed store
      ≡ ok (reconciled, run_all in_memory writes store))
    × (handle_webhook in_memory razorpay 200 tt signed u ≡ ok (idempotent, u))
    × (u.invoices ≡ store.invoices)
    × (u.orgs ≡ store.orgs)
unfolding verify_webhook
webhook-lost_example =
    webhook-lost in_memory razorpay 100 200 tt signed store refl refl refl refl refl refl refl
