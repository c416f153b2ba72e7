-- ===== src/Payments/Webhook.antt =====
-- The webhook of Razorpay: `handleWebhook` in api/src/modules/payments/payments.service.ts, as its two
-- parts, the write of the payment and what follows from it.
use crossbill_back.Base.{ℕ, Bool, not, List, [], ◌∷◌, Option, none, some, ◌==◌, if◌then◌else◌}
use crossbill_back.Base.Text.{Text, codes, text_eq}
use crossbill_back.Base.Http.{
  Result, ok, bad_request, internal_server_error, ◌>>=◌, ◌>>◌, throw_if, or_throw,
}
use crossbill_back.Mongo.{Mongo}
use crossbill_back.Audit.{DocId, log, entry}
use crossbill_back.Organizations.{set_plan}
use crossbill_back.Invoices.Handlers.{nonempty}
use crossbill_back.Invoices.Changes.{mark_paid}
use crossbill_back.Payments.Defs.{
  PaymentPurpose, for_invoice, for_subscription, PaymentStatus, Payment, Notes, Event, Razorpay,
  Store, verify_webhook,
}
use crossbill_back.Payments.Handlers.{has_link, has_been_paid}

-- What the webhook answers.
pub data Receipt : Type 0 where
  ignored idempotent reconciled : Receipt

-- `doc.status = 'paid'` and the fields with it.
abbrev pub paid_doc : ℕ → Option Text → Payment → Payment
paid_doc now payment_id p = record p {
  status = PaymentStatus.paid;
  razorpay_payment_id = payment_id;
  paid_at = some now;
}

-- `doc.invoiceId ?? notes.invoiceId`.
abbrev pub invoice_for : Option DocId → Option DocId → Option DocId
invoice_for none noted = noted
invoice_for (some i) noted = some i

abbrev pub has_payment_id : DocId → Payment → Bool
has_payment_id i p = p.id == i

module _ {W : Type 0} (db : Mongo) where
  -- `await doc.save()`.
  unfoldable pub save_paid : ℕ → Option Text → Payment → Store W → Store W
  save_paid now payment_id doc s = record s {
    payments = db.update_one (has_payment_id doc.id) (paid_doc now payment_id) s.payments;
  }

  abbrev pub settle_invoice : DocId → Option DocId → Store W → Store W
  settle_invoice org none s = s
  settle_invoice org (some i) s = record s {
    invoices = mark_paid db org i s.invoices;
    base = record s.base { events = log db (entry "payment.reconciled" org none i) s.base.events };
  }

  abbrev pub activate : ℕ → Payment → Option Text → Store W → Store W
  activate now doc none s = s
  activate now doc (some plan) s = record s {
    orgs = set_plan db now doc.org_id plan none s.orgs;
    base = record s.base {
      events = log db (entry "billing.activated" doc.org_id none doc.id) s.base.events;
    };
  }

  -- What a payment that has been saved leads to.
  abbrev pub follow : PaymentPurpose → ℕ → Payment → Notes → Store W → Store W
  follow for_invoice now doc notes s =
      settle_invoice doc.org_id (invoice_for doc.invoice_id notes.invoice_id) s
  follow for_subscription now doc notes s = activate now doc doc.plan_id s

  unfoldable pub reconcile : ℕ → Payment → Notes → Store W → Store W
  reconcile now doc notes s = follow doc.purpose now doc notes s

  -- The writes on a payment that is not paid yet, in their order, and a run of writes.
  abbrev pub payment_writes : ℕ → Event → Payment → List (Store W → Store W)
  payment_writes now event doc =
      save_paid now event.payment_id doc ∷ reconcile now doc event.notes ∷ []

  abbrev pub run_all : List (Store W → Store W) → Store W → Store W
  run_all [] s = s
  run_all (f ∷ fs) s = run_all fs (f s)

  abbrev pub for_payment : ℕ → Event → Payment → Store W → Receipt × Store W
  for_payment now event doc s =
      if has_been_paid doc.status
      then (idempotent, s)
      else (reconciled, run_all (payment_writes now event doc) s)

  abbrev pub for_found : ℕ → Event → Option Payment → Store W → Receipt × Store W
  for_found now event none s = (ignored, s)
  for_found now event (some doc) s = for_payment now event doc s

  abbrev pub for_link : ℕ → Event → Option Text → Store W → Receipt × Store W
  for_link now event none s = (ignored, s)
  for_link now event (some link) s = for_found now event (db.find_one (has_link link) s.payments) s

  unfoldable pub handle_event : ℕ → Event → Store W → Receipt × Store W
  handle_event now event s =
      if text_eq event.event (codes "payment_link.paid")
      then for_link now event (nonempty event.link_id) s
      else (ignored, s)

  module _ {B : Type 0} (razorpay : Razorpay B) where
    unfoldable pub handle_webhook : ℕ → B → Option Text → Store W → Result (Receipt × Store W)
    unfolding handle_event
    handle_webhook now body signature s = do
      throw_if (not (verify_webhook razorpay body signature)) (bad_request "Invalid signature")
      event ← or_throw (razorpay.parse body) (internal_server_error "Internal server error")
      ok (handle_event now event s)
