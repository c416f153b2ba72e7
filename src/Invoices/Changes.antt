-- ===== src/Invoices/Changes.antt =====
-- The writes to an invoice that exists, in api/src/modules/invoices/invoices.service.ts.
use crossbill_back.Base.{not, List, Option, none, some, String, ◌&&◌, if◌then◌else◌}
use crossbill_back.Base.Http.{Result, ok, err, not_found, bad_request, ◌>>=◌, or_throw}
use crossbill_back.Mongo.{Mongo}
use crossbill_back.Audit.{DocId}
use crossbill_back.Invoices.Defs.{InvoiceStatus, paid, overdue, Invoice}
use crossbill_back.Invoices.Handlers.{scoped, has_id, is_paid, differs, with_status, with_reminder}

module _ (db : Mongo) where
  unfoldable pub find_one_scoped : DocId → DocId → List Invoice → Result Invoice
  find_one_scoped org i invoices =
      or_throw (db.find_one (scoped org i) invoices) (not_found "Invoice not found")

  -- The end of an update that has a status to set.
  abbrev pub update_status :
      DocId → DocId → InvoiceStatus → Invoice → List Invoice → Result (Invoice × List Invoice)
  update_status org i status current invoices =
      if is_paid current.status
      then err (bad_request "A paid invoice is settled and can no longer be changed.")
      else elim (db.find_one (scoped org i)
          (db.update_one (scoped org i) (with_status status) invoices)) [
            | none ↦ err (not_found "Invoice not found")
            | some invoice ↦
                ok (invoice, db.update_one (scoped org i) (with_status status) invoices)
          ]

  abbrev pub update_from :
      DocId
      → DocId
      → Option InvoiceStatus
      → Invoice
      → List Invoice
      → Result (Invoice × List Invoice)
  update_from org i none current invoices = ok (current, invoices)
  update_from org i (some status) current invoices =
      if differs status current.status
      then update_status org i status current invoices
      else ok (current, invoices)

  unfoldable pub update :
      DocId → DocId → Option InvoiceStatus → List Invoice → Result (Invoice × List Invoice)
  update org i asked invoices = do
    current ← or_throw (db.find_one (scoped org i) invoices) (not_found "Invoice not found")
    update_from org i asked current invoices

  unfoldable pub set_pdf_url : DocId → String → List Invoice → List Invoice
  set_pdf_url i url invoices =
      db.update_one (has_id i) (λ inv. record inv { pdf_url = some url }) invoices

  unfoldable pub mark_paid : DocId → DocId → List Invoice → List Invoice
  mark_paid org i invoices = db.update_one (scoped org i) (with_status paid) invoices

  unfoldable pub mark_overdue : DocId → List Invoice → List Invoice
  mark_overdue i invoices =
      db.update_one (λ inv. has_id i inv && not (is_paid inv.status)) (with_status overdue) invoices

  unfoldable pub push_reminder_sent : DocId → String → List Invoice → List Invoice
  push_reminder_sent i k invoices = db.update_one (has_id i) (with_reminder k) invoices
