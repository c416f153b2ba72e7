-- ===== src/Notes/Create.antt =====
-- The creation of a note: `create` in api/src/modules/notes/notes.service.ts. The lines are computed as
-- those of an invoice. The PDF is a rendering of the note, which may fail, and is an argument.
use text.Mathlib.Text.{◌==◌ as same_text}
use crossbill_back.Base.{
  Bool, true, false, not, ◌&&◌, all, List, [], Option, none, some, String, ◌==◌, map, get_or,
}
use crossbill_back.Base.Text.{Text, codes}
use crossbill_back.Base.Decimal.{decimal}
use crossbill_back.Base.Money.{fixed2}
use crossbill_back.Base.Doubles.{Double}
use crossbill_back.Base.Http.{Result, ok, err, internal_server_error}
use crossbill_back.Mongo.{Mongo, Written, written, duplicate}
use crossbill_back.Audit.{DocId, log, entry}
use crossbill_back.FinancialYear.{Date, financial_year_of}
use crossbill_back.Gst.{lut_zero, GstResult, compute_gst}
use crossbill_back.Numbering.{Counter, allocate_series}
use crossbill_back.States.{state_code_from_gstin}
use crossbill_back.Clients.{Client, find_one_scoped as client_of}
use crossbill_back.Invoices.Defs.{InvoiceType, export, domestic, Invoice, Profile}
use crossbill_back.Invoices.Handlers.{Line, sum_cents, gst_lines, default_sac_of, gstin_of}
use crossbill_back.Invoices.Create.{lines_of, is_filled}
use crossbill_back.Invoices.Changes.{find_one_scoped as invoice_of}
use crossbill_back.Notes.Defs.{
  NoteKind, credit, debit, NoteTax, Note, note_indexes, CreateNoteDto, Store,
}

abbrev pub tax_of_gst : GstResult → NoteTax
tax_of_gst r = record {
  tax_type = r.tax_type;
  cgst = fixed2 r.cgst_cents;
  sgst = fixed2 r.sgst_cents;
  igst = fixed2 r.igst_cents;
  tax_total = fixed2 r.tax_total_cents;
  grand = fixed2 r.grand_total_cents;
}

-- `supplierState ?? client.stateCode ?? ''`.
abbrev pub supplier_state_of : Option Profile → Client → Text
supplier_state_of profile client = elim (state_code_from_gstin (gstin_of profile)) [
  | some state ↦ state
  | none ↦ get_or client.state_code []
]

-- The tax of a note, from the type of its invoice.
abbrev pub tax_of : InvoiceType → Option Profile → Client → List Line → NoteTax
tax_of export profile client lines = record {
  tax_type = lut_zero;
  cgst = codes "0.00";
  sgst = codes "0.00";
  igst = codes "0.00";
  tax_total = codes "0.00";
  grand = fixed2 (sum_cents lines);
}
tax_of domestic profile client lines = tax_of_gst (
    compute_gst (sum_cents lines) (gst_lines lines) (supplier_state_of profile client)
      (get_or client.state_code []))

abbrev pub prefix_of : NoteKind → Text
prefix_of credit = codes "CN"
prefix_of debit = codes "DN"

abbrev action_of : NoteKind → String
action_of credit = "note.credit.created"
action_of debit = "note.debit.created"

abbrev pub note_of :
    {W : Type 0}
    → DocId
    → DocId
    → Date
    → Invoice
    → CreateNoteDto W
    → List Line
    → NoteTax
    → Text
    → Note
note_of new_id org today invoice dto lines tax number = record {
  id = new_id;
  org_id = org;
  kind = dto.kind;
  number = number;
  financial_year = financial_year_of today;
  note_date = today;
  invoice_id = invoice.id;
  invoice_number = invoice.number;
  invoice_date = invoice.invoice_date;
  client_id = invoice.client_id;
  invoice_type = invoice.charges.kind;
  currency = invoice.charges.currency;
  fx_rate = invoice.charges.fx_rate;
  fx_rate_source = invoice.charges.fx_rate_source;
  fx_rate_date = invoice.charges.fx_rate_date;
  reason = dto.reason;
  subtotal = fixed2 (sum_cents lines);
  tax = tax;
  place_of_supply = invoice.charges.place_of_supply;
  place_of_supply_state = invoice.charges.place_of_supply_state;
  pdf_url = none;
  items = map (λ l. l.item) lines;
}

-- `note.pdfUrl = url`, unless the rendering fails.
abbrev pub printed : (Note → Option String) → Note → Note
printed render note = elim (render note) [
  | none ↦ note
  | some url ↦ record note { pdf_url = some url }
]

-- The required texts that the DTO lets be empty: the reason and the descriptions of the items.
abbrev pub is_complete : Note → Bool
is_complete note = not (same_text note.reason "") && all is_filled note.items

abbrev is_note : DocId → Note → Bool
is_note i note = note.id == i

module _ {W : Type 0} (num : Double W) (render : Note → Option String) (db : Mongo) where
  -- The end of a creation, from the outcome of the write.
  abbrev pub filed :
      DocId → DocId → Note → List Counter → Store → Written Note → Result Note × Store
  filed new_id org note counters s (duplicate k) =
      (err (internal_server_error "Internal server error"), record s { counters = counters })
  filed new_id org note counters s (written notes) = (
    ok (printed render note),
    record s {
      counters = counters;
      notes = db.update_one (is_note new_id) (λ _. printed render note) notes;
      base = record s.base {
        events = log db (entry (action_of note.kind) org none new_id) s.base.events;
      };
    },
  )

  -- `this.notes.create(...)`: the document is validated before it is written, and an error of either is not
  -- an `HttpException`.
  abbrev pub saved : DocId → DocId → Note → List Counter → Store → Bool → Result Note × Store
  saved new_id org note counters s true =
      filed new_id org note counters s (db.create note_indexes note s.notes)
  saved new_id org note counters s false =
      (err (internal_server_error "Internal server error"), record s { counters = counters })

  -- From the tax on: the number is taken, and the note saved.
  unfoldable pub numbered :
      DocId
      → DocId
      → Date
      → Invoice
      → CreateNoteDto W
      → List Line
      → NoteTax
      → Store
      → Result Note × Store
  numbered new_id org today invoice dto lines tax s =
      let (number, counters) =
        allocate_series db (decimal org) (financial_year_of today) (prefix_of dto.kind)
          s.counters in
      let note = note_of new_id org today invoice dto lines tax number in
      saved new_id org note counters s (is_complete note)

  abbrev pub profile_of : DocId → Store → Option Profile
  profile_of user s = db.find_one (λ p. p.id == user) s.profiles

  abbrev pub for_client :
      DocId
      → DocId
      → DocId
      → Date
      → CreateNoteDto W
      → Store
      → Invoice
      → Result Client
      → Result Note × Store
  for_client new_id org user today dto s invoice (err e) = (err e, s)
  for_client new_id org user today dto s invoice (ok client) =
      let profile = profile_of user s in
      let lines = lines_of num (default_sac_of profile) dto.items in
      numbered new_id org today invoice dto lines (tax_of invoice.charges.kind profile client lines)
        s

  abbrev pub for_invoice :
      DocId → DocId → DocId → Date → CreateNoteDto W → Store → Result Invoice → Result Note × Store
  for_invoice new_id org user today dto s (err e) = (err e, s)
  for_invoice new_id org user today dto s (ok invoice) =
      for_client new_id org user today dto s invoice (client_of db org invoice.client_id s.base)

  unfoldable pub create :
      DocId → DocId → DocId → Date → CreateNoteDto W → Store → Result Note × Store
  create new_id org user today dto s =
      for_invoice new_id org user today dto s (invoice_of db org dto.invoice_id s.invoices)
