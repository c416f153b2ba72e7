-- ===== src/Invoices/Create.antt =====
-- The creation of an invoice: `create`, `buildExport` and the calls it makes, in
-- api/src/modules/invoices/invoices.service.ts, and the validation of its schema.
use text.Mathlib.Text.{◌==◌ as same_text}
use crossbill_back.Base.{
  ℕ, Bool, true, false, not, all, List, [], ◌∷◌, Option, none, some, ◌==◌, map, get_or,
}
use crossbill_back.Base.Text.{Text, codes}
use crossbill_back.Base.Decimal.{decimal}
use crossbill_back.Base.Money.{fixed2}
use crossbill_back.Base.Doubles.{Double}
use crossbill_back.Base.Http.{Result, ok, err, internal_server_error}
use crossbill_back.Mongo.{Mongo, Written, written, duplicate}
use crossbill_back.Audit.{DocId}
use crossbill_back.FinancialYear.{Date, financial_year_of, fema_due_date}
use crossbill_back.Gst.{lut_zero}
use crossbill_back.Numbering.{Counter, allocate}
use crossbill_back.States.{place_of_supply_export}
use crossbill_back.Clients.{Client, ClientType, find_one_scoped as client_of}
use crossbill_back.Invoices.Rates.{CapturedRate, LiveAnswer, Cache, capture}
use crossbill_back.Invoices.Defs.{
  InvoiceStatus, InvoiceType, InvoiceItem, Charges, Invoice, invoice_indexes, InvoiceItemDto,
  CreateInvoiceDto, Profile, Store, iso_date,
}
use crossbill_back.Invoices.Handlers.{
  Line, sum_cents, default_sac_of, declaration_of, export_currency, build_domestic,
}

-- `required: true` refuses an empty text, and the DTO asks only that a description be a text. The other
-- required texts of an invoice are never empty: the SAC codes are of a list, the rest is computed.
abbrev pub is_filled : InvoiceItem → Bool
is_filled i = not (same_text i.description "")

module _ {W : Type 0} (num : Double W) where
  -- `dto.items.map(...)`.
  abbrev pub line_of : Text → InvoiceItemDto W → Line
  line_of sac i =
      let cents = num.product_cents i.quantity i.unit_amount in
      record {
        cents = cents;
        item = record {
          description = i.description;
          sac_code = get_or i.sac_code sac;
          quantity = num.to_fixed 2 i.quantity;
          unit_amount = num.to_fixed 2 i.unit_amount;
          line_total = fixed2 cents;
          gst_rate = get_or i.gst_rate 0;
        };
      }

  abbrev pub lines_of : Text → List (InvoiceItemDto W) → List Line
  lines_of sac [] = []
  lines_of sac (i ∷ is) = line_of sac i ∷ lines_of sac is

  -- What `buildExport` returns.
  unfoldable pub export_charges : Option Profile → Text → CapturedRate W → ℕ → Date → Charges
  export_charges profile currency captured subtotal_cents date = record {
    kind = InvoiceType.export;
    currency = currency;
    fx_rate = num.to_fixed 6 captured.rate;
    fx_rate_source = captured.source;
    fx_rate_date = captured.rate_date;
    subtotal = fixed2 subtotal_cents;
    inr_equivalent = fixed2 (num.scaled_cents subtotal_cents captured.rate);
    tax_type = lut_zero;
    cgst_amount = codes "0.00";
    sgst_amount = codes "0.00";
    igst_amount = codes "0.00";
    tax_total = codes "0.00";
    grand_total = fixed2 subtotal_cents;
    declaration_text = declaration_of profile;
    place_of_supply = place_of_supply_export;
    place_of_supply_state = none;
    fema_due_date = some (fema_due_date date);
  }

  module _ {R : Type 0} (live : Text → Text → Option (LiveAnswer W))
      (redis : Cache R (CapturedRate W)) where
    unfoldable pub build_export : Option Profile → ℕ → Date → Option Text → R → Charges × R
    build_export profile subtotal_cents date asked rates =
        let currency = export_currency asked in
        let (captured, rates') = capture num live redis currency (iso_date date) rates in
        (export_charges profile currency captured subtotal_cents date, rates')

    -- `client.type === 'domestic' ? this.buildDomestic(...) : await this.buildExport(...)`.
    abbrev pub charges_of :
        ClientType
        → Client
        → Option Profile
        → List Line
        → Date
        → Date
        → Option Text
        → R
        → Result (Charges × R)
    charges_of ClientType.domestic client profile lines date today asked rates =
        elim (build_domestic client profile lines (sum_cents lines) today) [
          | err e ↦ err e
          | ok charges ↦ ok (charges, rates)
        ]
    charges_of ClientType.foreign client profile lines date today asked rates =
        ok (build_export profile (sum_cents lines) date asked rates)

    module _ (db : Mongo) where
      abbrev pub profile_of : DocId → Store R → Option Profile
      profile_of user s = db.find_one (λ p. p.id == user) s.profiles

      -- The document, with the defaults of the schema.
      abbrev pub invoice_of : DocId → DocId → DocId → Date → List Line → Charges → Text → Invoice
      invoice_of new_id org client_id date lines charges number = record {
        id = new_id;
        org_id = org;
        client_id = client_id;
        number = number;
        financial_year = financial_year_of date;
        invoice_date = date;
        items = map (λ l. l.item) lines;
        charges = charges;
        status = InvoiceStatus.draft;
        pdf_url = none;
        fema_reminders_sent = [];
      }

      -- The end of a creation, from the outcome of the write.
      abbrev pub created :
          Invoice → R → List Counter → Store R → Written Invoice → Result Invoice × Store R
      created doc rates counters s (duplicate k) = (
        err (internal_server_error "Internal server error"),
        record s { rates = rates; counters = counters },
      )
      created doc rates counters s (written invoices) = (
        ok doc,
        record s {
          rates = rates;
          counters = counters;
          invoices = invoices;
          pdf_jobs = record { invoice_id = doc.id; org_id = doc.org_id } ∷ s.pdf_jobs;
        },
      )

      -- `this.invoices.create(...)`: the document is validated before it is written, and an error of
      -- either is not an `HttpException`.
      abbrev pub saved : Invoice → R → List Counter → Store R → Bool → Result Invoice × Store R
      saved doc rates counters s true =
          created doc rates counters s (db.create invoice_indexes doc s.invoices)
      saved doc rates counters s false = (
        err (internal_server_error "Internal server error"),
        record s { rates = rates; counters = counters },
      )

      -- From the charges on: the number is taken, and the invoice saved.
      unfoldable pub numbered :
          DocId
          → DocId
          → DocId
          → Date
          → List Line
          → Charges
          → R
          → Store R
          → Result Invoice × Store R
      numbered new_id org client_id date lines charges rates s =
          let (number, counters) = allocate db (decimal org) (financial_year_of date) s.counters in
          let doc = invoice_of new_id org client_id date lines charges number in
          saved doc rates counters s (all is_filled doc.items)

      -- What follows the charges, and what follows the client.
      abbrev pub charged :
          DocId
          → DocId
          → DocId
          → Date
          → List Line
          → Store R
          → Result (Charges × R)
          → Result Invoice × Store R
      charged new_id org client_id date lines s (err e) = (err e, s)
      charged new_id org client_id date lines s (ok (charges, rates)) =
          numbered new_id org client_id date lines charges rates s

      abbrev pub billed :
          DocId
          → DocId
          → DocId
          → Date
          → CreateInvoiceDto W
          → Store R
          → Result Client
          → Result Invoice × Store R
      billed new_id org user today dto s (err e) = (err e, s)
      billed new_id org user today dto s (ok client) =
          let profile = profile_of user s in
          let date = get_or dto.invoice_date today in
          let lines = lines_of (default_sac_of profile) dto.items in
          charged new_id org dto.client_id date lines s
            (charges_of client.kind client profile lines date today dto.currency s.rates)

      unfoldable pub create :
          DocId → DocId → DocId → Date → CreateInvoiceDto W → Store R → Result Invoice × Store R
      create new_id org user today dto s =
          billed new_id org user today dto s (client_of db org dto.client_id s.base)
