-- ===== src/Payments/Once.antt =====
-- A webhook that is delivered again, and one that was interrupted.
use crossbill_back.Base.{
  ℕ, ◌≡◌, refl, sym, ap, ◌∙◌, inl, inr, true, false, List, [], ◌∷◌, Option, none, some, arith,
  find?, Option-cases, Bool-cases,
}
use crossbill_back.Base.Updates.{find?-modify_same, find?-holds}
use crossbill_back.Base.Text.{Text, codes, text_eq}
use crossbill_back.Base.Http.{ok}
use crossbill_back.Mongo.{Mongo}
use crossbill_back.Payments.Defs.{
  for_invoice, for_subscription, PaymentPurpose, Payment, Notes, Event, Razorpay, Store,
  verify_webhook,
}
use crossbill_back.Payments.Handlers.{has_link, has_been_paid}
use crossbill_back.Payments.Webhook.{
  Receipt, idempotent, reconciled, payment_writes, run_all, paid_doc, has_payment_id, save_paid,
  reconcile, for_link, handle_event, handle_webhook, settle_invoice, activate, follow, invoice_for,
}
use crossbill_back.Invoices.Handlers.{nonempty}
use crossbill_back.Audit.{DocId}

-- The id of every payment finds that payment: no two share one.
abbrev pub IsKeyed : List Payment → Type 0
IsKeyed xs =
    (link : Text) (doc : Payment)
    → find? (has_link link) xs ≡ some doc
    → find? (has_payment_id doc.id) xs ≡ some doc

-- The first of some writes, after which the service stops.
abbrev pub first_of : {A : Type 0} → List A → List A
first_of [] = []
first_of (w ∷ ws) = w ∷ []

module _ {W : Type 0} (db : Mongo) where
  settle_invoice-payments :
      (org : DocId) (i : Option DocId) (s : Store W)
      → (settle_invoice db org i s).payments ≡ s.payments
  settle_invoice-payments org none s = refl
  settle_invoice-payments org (some i) s = refl

  activate-payments :
      (now : ℕ) (doc : Payment) (plan : Option Text) (s : Store W)
      → (activate db now doc plan s).payments ≡ s.payments
  activate-payments now doc none s = refl
  activate-payments now doc (some plan) s = refl

  follow-payments :
      (purpose : PaymentPurpose) (now : ℕ) (doc : Payment) (notes : Notes) (s : Store W)
      → (follow db purpose now doc notes s).payments ≡ s.payments
  follow-payments for_invoice now doc notes s =
      settle_invoice-payments doc.org_id (invoice_for doc.invoice_id notes.invoice_id) s
  follow-payments for_subscription now doc notes s = activate-payments now doc doc.plan_id s

  reconcile-payments :
      (now : ℕ) (doc : Payment) (notes : Notes) (s : Store W)
      → (reconcile db now doc notes s).payments ≡ s.payments
  unfolding reconcile
  reconcile-payments now doc notes s = follow-payments doc.purpose now doc notes s

  -- After the first write, the payment is found as paid.
  saved-found :
      (now : ℕ) (pid : Option Text) (link : Text) (doc : Payment) (s : Store W)
      → find? (has_link link) s.payments ≡ some doc
      → find? (has_payment_id doc.id) s.payments ≡ some doc
      → db.find_one (has_link link) (save_paid db now pid doc s).payments
        ≡ some (paid_doc now pid doc)
  unfolding save_paid
  saved-found now pid link doc s found known =
      db.find_one_lem (has_link link)
        (db.update_one (has_payment_id doc.id) (paid_doc now pid) s.payments)
      ∙ ap (find? (has_link link))
          (db.update_one_lem (has_payment_id doc.id) (paid_doc now pid) s.payments)
      ∙ find?-modify_same (has_payment_id doc.id) (has_link link) (paid_doc now pid) s.payments
          known found (find?-holds (has_link link) s.payments found)

  -- A store on which the payment of the link is paid does not change.
  for_found-paid :
      (now : ℕ) (event : Event) (link : Text) (doc : Payment) (s : Store W)
      → db.find_one (has_link link) s.payments ≡ some doc
      → has_been_paid doc.status ≡ true
      → for_link db now event (some link) s ≡ (idempotent, s)
  for_found-paid now event link doc s found paid = rw (found, paid) refl

  -- What one event leaves, the same event leaves as it is.
  for_link-again :
      (now now' : ℕ) (event : Event) (link : Text) (s : Store W)
      → IsKeyed s.payments
      → let t = (for_link db now event (some link) s).1 in
        (for_link db now' event (some link) t).1 ≡ t
  for_link-again now now' event link s keyed =
      elim (Option-cases (db.find_one (has_link link) s.payments)) [
        | inl e ↦ rw (e, e) refl
        | inr (doc, e) ↦ elim (Bool-cases (has_been_paid doc.status)) [
          | inl paid ↦ rw (e, paid, e, paid) refl
          | inr free ↦
              let found = sym (db.find_one_lem (has_link link) s.payments) ∙ e in
              let u = save_paid db now event.payment_id doc s in
              let t = reconcile db now doc event.notes u in
              let still : db.find_one (has_link link) t.payments
                  ≡ some (paid_doc now event.payment_id doc) =
                ap (db.find_one (has_link link)) (reconcile-payments now doc event.notes u)
                ∙ saved-found now event.payment_id link doc s found (keyed link doc found) in
              rw (e, free)
                (ap (λ r. r.1)
                  (for_found-paid now' event link (paid_doc now event.payment_id doc) t still refl))
        ]
      ]

  handle_event-again :
      (now now' : ℕ) (event : Event) (s : Store W)
      → IsKeyed s.payments
      → let t = (handle_event db now event s).1 in (handle_event db now' event t).1 ≡ t
  unfolding handle_event
  handle_event-again now now' event s keyed =
      elim (Bool-cases (text_eq event.event (codes "payment_link.paid"))) [
        | inr other ↦ rw other refl
        | inl it ↦ rw it (go (nonempty event.link_id))
      ]
    where
      go :
          (link : Option Text)
          → (for_link db now' event link (for_link db now event link s).1).1
            ≡ (for_link db now event link s).1
      go none = refl
      go (some link) = for_link-again now now' event link s keyed

  module _ {B : Type 0} (razorpay : Razorpay B) where
    handle_webhook-ok :
        (now : ℕ) (body : B) (signature : Option Text) (s : Store W) {r : Receipt × Store W}
        → handle_webhook db razorpay now body signature s ≡ ok r
        → (event : Event) × (verify_webhook razorpay body signature ≡ true)
          × (razorpay.parse body ≡ some event)
          × (handle_event db now event s ≡ r)
    unfolding handle_webhook
    handle_webhook-ok now body signature s h =
        elim (Bool-cases (verify_webhook razorpay body signature)) [
          | inr bad ↦ ground arith
          | inl good ↦ elim (Option-cases (razorpay.parse body)) [
            | inl e ↦ ground arith
            | inr (event, e) ↦ (event, good, e, ground arith)
          ]
        ]

    handle_webhook-event :
        (now : ℕ) (body : B) (signature : Option Text) (event : Event) (s : Store W)
        → verify_webhook razorpay body signature ≡ true
        → razorpay.parse body ≡ some event
        → handle_webhook db razorpay now body signature s ≡ ok (handle_event db now event s)
    unfolding handle_webhook
    handle_webhook-event now body signature event s good e = rw (good, e) refl

    -- A webhook that was answered changes nothing when it is delivered again, at whatever time, if no two
    -- payments share an id: the invoice or the plan, the payments and the log stay as the first delivery
    -- left them.
    pub webhook-again :
        (now now' : ℕ) (body : B) (signature : Option Text) (s : Store W) {r : Receipt}
        {t : Store W}
        → IsKeyed s.payments
        → handle_webhook db razorpay now body signature s ≡ ok (r, t)
        → (r' : Receipt) × (handle_webhook db razorpay now' body signature t ≡ ok (r', t))
    webhook-again now now' body signature s {t} keyed h =
        let (event, good, e, done) = handle_webhook-ok now body signature s h in
        let is_t : (handle_event db now event s).1 ≡ t = ap (λ x. x.1) done in
        let same : (handle_event db now' event t).1 ≡ t =
          rw (sym is_t) (handle_event-again now now' event s keyed) in
        (
          (handle_event db now' event t).0,
          handle_webhook-event now' body signature event t good e
              ∙ ap (λ u. ok ((handle_event db now' event t).0, u)) same,
        )

    -- A webhook on a payment that is not paid yet, and that its id finds, runs two writes in turn. If the service stops
    -- after the first of them, each later delivery is answered as one already handled and changes
    -- nothing, and the invoices and organisations are as they were: what was paid for is never settled.
    pub webhook-lost :
        (now now' : ℕ) (body : B) (signature : Option Text) (s : Store W) {event : Event}
        {link : Text} {doc : Payment}
        → verify_webhook razorpay body signature ≡ true
        → razorpay.parse body ≡ some event
        → event.event ≡ codes "payment_link.paid"
        → nonempty event.link_id ≡ some link
        → find? (has_link link) s.payments ≡ some doc
        → find? (has_payment_id doc.id) s.payments ≡ some doc
        → has_been_paid doc.status ≡ false
        → let writes = payment_writes db now event doc in
          let u = run_all db (first_of writes) s in
          (handle_webhook db razorpay now body signature s ≡ ok (reconciled, run_all db writes s))
          × (handle_webhook db razorpay now' body signature u ≡ ok (idempotent, u))
          × (u.invoices ≡ s.invoices)
          × (u.orgs ≡ s.orgs)
    unfolding handle_event save_paid
    webhook-lost now now' body signature s {event} {link} {doc} good e kind given found known
          unpaid =
        let u = save_paid db now event.payment_id doc s in
        let ignored_again : handle_event db now' event u ≡ (idempotent, u) =
          rw (kind, given)
            (for_found-paid now' event link (paid_doc now event.payment_id doc) u
              (saved-found now event.payment_id link doc s found known) refl) in
        let found' : db.find_one (has_link link) s.payments ≡ some doc =
          db.find_one_lem (has_link link) s.payments ∙ found in
        let whole : handle_event db now event s
            ≡ (reconciled, run_all db (payment_writes db now event doc) s) =
          rw (kind, given, found', unpaid) refl in
        (
          handle_webhook-event now body signature event s good e ∙ ap ok whole,
          handle_webhook-event now' body signature event u good e ∙ ap ok ignored_again,
          refl,
          refl,
        )
