-- ===== src/Invoices/Defs.antt =====
-- The documents of invoices and the requests for them: api/src/modules/invoices/schemas/invoice.schema.ts
-- and the DTOs. The fields that the two builders return are one record, `Charges`.
use crossbill_back.Base.{ℕ, ◌+◌, Bool, List, [], ◌∷◌, ◌++◌, Option, String, ◌==◌, ◌&&◌, not}
use crossbill_back.Base.Text.{Text, text_eq, pad_start}
use crossbill_back.Base.Decimal.{decimal}
use crossbill_back.Mongo.{Index}
use crossbill_back.Audit.{DocId}
use crossbill_back.FinancialYear.{Date}
use crossbill_back.Gst.{GstTaxType}
use crossbill_back.Numbering.{Counter}
use crossbill_back.Clients

pub data InvoiceStatus : Type 0 where
  draft sent paid overdue : InvoiceStatus

pub data InvoiceType : Type 0 where
  export domestic : InvoiceType

pub record InvoiceItem : Type 0 where
  pub description : String
  pub sac_code : Text
  pub quantity : Text
  pub unit_amount : Text
  pub line_total : Text
  pub gst_rate : ℕ

pub record Charges : Type 0 where
  pub kind : InvoiceType
  pub currency : Text
  pub fx_rate : Text
  pub fx_rate_source : Text
  pub fx_rate_date : Text
  pub subtotal : Text
  pub inr_equivalent : Text
  pub tax_type : GstTaxType
  pub cgst_amount : Text
  pub sgst_amount : Text
  pub igst_amount : Text
  pub tax_total : Text
  pub grand_total : Text
  pub declaration_text : Text
  pub place_of_supply : Text
  pub place_of_supply_state : Option Text
  pub fema_due_date : Option Date

pub record Invoice : Type 0 where
  pub id : DocId
  pub org_id : DocId
  pub client_id : DocId
  pub number : Text
  pub financial_year : Text
  pub invoice_date : Date
  pub items : List InvoiceItem
  pub charges : Charges
  pub status : InvoiceStatus
  pub pdf_url : Option String
  pub fema_reminders_sent : List String

-- `InvoiceSchema.index({ orgId: 1, financialYear: 1, number: 1 }, { unique: true })`.
abbrev pub same_number : Invoice → Invoice → Bool
same_number a b =
    not (a.id == b.id)
    && a.org_id == b.org_id
    && text_eq a.financial_year b.financial_year
    && text_eq a.number b.number

abbrev pub invoice_indexes : List (Index Invoice)
invoice_indexes = record { key = "orgId_financialYear_number"; clash = same_number } ∷ []

pub record InvoiceItemDto (W : Type 0) : Type 0 where
  pub description : String
  pub sac_code : Option Text
  pub quantity : W
  pub unit_amount : W
  pub gst_rate : Option ℕ

pub record CreateInvoiceDto (W : Type 0) : Type 0 where
  pub client_id : DocId
  pub invoice_date : Option Date
  pub currency : Option Text
  pub items : List (InvoiceItemDto W)

-- Of a user, the fields that an invoice reads.
pub record Profile : Type 0 where
  pub id : DocId
  pub gstin : Option Text
  pub default_sac : Option Text
  pub lut_number : Option Text
  pub lut_arn : Option Text
  pub lut_fy : Option Text

pub record PdfJob : Type 0 where
  pub invoice_id : DocId
  pub org_id : DocId

-- The collections that invoices touch, the cache of rates, and the jobs sent to the PDF queue.
pub record Store (R : Type 0) : Type 0 where
  pub base : Clients.Store
  pub profiles : List Profile
  pub counters : List Counter
  pub rates : R
  pub invoices : List Invoice
  pub pdf_jobs : List PdfJob

-- `d.toISOString().slice(0, 10)`.
abbrev pub iso_date : Date → Text
iso_date d =
    pad_start 4 (decimal d.year)
    ++ b'-' ∷ (pad_start 2 (decimal (d.month + 1)) ++ b'-' ∷ pad_start 2 (decimal d.day))
