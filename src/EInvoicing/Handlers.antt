-- ===== src/EInvoicing/Handlers.antt =====
-- The operations of api/src/modules/einvoicing/einvoicing.service.ts.
use crossbill_back.Base.{ℕ, ◌+◌, not, Option, none, some, String, ltb, if◌then◌else◌, get_or}
use crossbill_back.Base.Http.{
  Result, ok, err, bad_request, conflict, not_found, ◌>>=◌, ◌>>◌, throw_if, or_throw,
}
use crossbill_back.Mongo.{Mongo}
use crossbill_back.Audit.{DocId, log, entry}
use crossbill_back.Organizations.{find_by_id}
use crossbill_back.Clients.{find_one_scoped as client_of}
use crossbill_back.Invoices.Changes.{find_one_scoped as invoice_of}
use crossbill_back.EInvoicing.Defs.{
  EInvoice, EInvoiceProvider, Store, active, blank_einvoice, cancel_window_ms, is_eligible,
  is_generated, of_invoice, payload_of, registered, withdrawn,
}

abbrev pub assert_active : Option EInvoice → Result EInvoice
assert_active none = err (not_found "No active e-invoice to cancel for this invoice.")
assert_active (some e) =
    if is_generated e.status
    then ok e
    else err (not_found "No active e-invoice to cancel for this invoice.")

module _ (provider : EInvoiceProvider) (db : Mongo) {W : Type 0} where
  unfoldable pub generate : ℕ → DocId → DocId → Option DocId → Store W → Result (EInvoice × Store W)
  generate now org i user s = do
    inv ← invoice_of db org i s.invoices
    throw_if (active (db.find_one (of_invoice org i) s.einvoices))
        (conflict "An e-invoice (IRN) has already been generated for this invoice.")
    client ← client_of db org inv.client_id s.base
    throw_if (not (is_eligible inv client)) (
        bad_request
          "E-invoicing applies to export and domestic B2B (GST-registered) invoices only.")
    result ←
        or_throw (provider.generate (payload_of inv client (find_by_id db org s.orgs)))
          (bad_request "IRP registration failed")
    let wrote =
        db.upsert (of_invoice org i) (registered provider now inv result) (blank_einvoice now org i)
          s.einvoices
    ok (
      wrote.0,
      record s {
        einvoices = wrote.1;
        base = record s.base {
          events = log db (entry "einvoice.generated" org user i) s.base.events;
        };
      },
    )

  -- The clock is read twice: for the age of the e-invoice, and, after the provider has answered, for the
  -- instant of the cancellation.
  unfoldable pub cancel :
      ℕ → ℕ → DocId → DocId → String → Option DocId → Store W → Result (EInvoice × Store W)
  cancel checked_at stamped_at org i reason user s = do
    doc ← assert_active (db.find_one (of_invoice org i) s.einvoices)
    throw_if (ltb (get_or doc.generated_at doc.created_at + cancel_window_ms) checked_at)
        (bad_request "An IRN can only be cancelled within 24 hours of generation.")
    answer ← or_throw (provider.cancel doc.irn reason) (bad_request "IRP cancellation failed")
    ok (
      withdrawn stamped_at reason doc,
      record s {
        einvoices = db.update_one (of_invoice org i) (withdrawn stamped_at reason) s.einvoices;
        base = record s.base {
          events = log db (entry "einvoice.cancelled" org user i) s.base.events;
        };
      },
    )
