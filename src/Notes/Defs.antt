-- ===== src/Notes/Defs.antt =====
-- The documents of notes and the requests for them: api/src/modules/notes/schemas/note.schema.ts and the
-- DTOs. The fields of the tax are one record, `NoteTax`, as in the code.
use crossbill_back.Base.{Bool, List, [], ◌∷◌, Option, String, ◌==◌, ◌&&◌, not}
use crossbill_back.Base.Text.{Text, text_eq}
use crossbill_back.Mongo.{Index}
use crossbill_back.Audit.{DocId}
use crossbill_back.FinancialYear.{Date}
use crossbill_back.Gst.{GstTaxType}
use crossbill_back.Numbering.{Counter}
use crossbill_back.Clients
use crossbill_back.Invoices.Defs.{InvoiceType, InvoiceItem, InvoiceItemDto, Invoice, Profile}

pub data NoteKind : Type 0 where
  credit debit : NoteKind

-- `tax`.
pub record NoteTax : Type 0 where
  pub tax_type : GstTaxType
  pub cgst : Text
  pub sgst : Text
  pub igst : Text
  pub tax_total : Text
  pub grand : Text

pub record Note : Type 0 where
  pub id : DocId
  pub org_id : DocId
  pub kind : NoteKind
  pub number : Text
  pub financial_year : Text
  pub note_date : Date
  pub invoice_id : DocId
  pub invoice_number : Text
  pub invoice_date : Date
  pub client_id : DocId
  pub invoice_type : InvoiceType
  pub currency : Text
  pub fx_rate : Text
  pub fx_rate_source : Text
  pub fx_rate_date : Text
  pub reason : String
  pub subtotal : Text
  pub tax : NoteTax
  pub place_of_supply : Text
  pub place_of_supply_state : Option Text
  pub pdf_url : Option String
  pub items : List InvoiceItem

abbrev same_number : Note → Note → Bool
same_number a b =
    not (a.id == b.id)
    && a.org_id == b.org_id
    && text_eq a.financial_year b.financial_year
    && text_eq a.number b.number

abbrev pub note_indexes : List (Index Note)
note_indexes = record { key = "orgId_financialYear_number"; clash = same_number } ∷ []

-- `CreateNoteDto`, whose items are those of an invoice.
pub record CreateNoteDto (W : Type 0) : Type 0 where
  pub invoice_id : DocId
  pub kind : NoteKind
  pub reason : String
  pub items : List (InvoiceItemDto W)

pub record Store : Type 0 where
  pub base : Clients.Store
  pub profiles : List Profile
  pub counters : List Counter
  pub invoices : List Invoice
  pub notes : List Note
