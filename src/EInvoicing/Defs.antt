-- ===== src/EInvoicing/Defs.antt =====
-- The documents of e-invoices, and what the provider is sent: the schema and the interface of
-- api/src/modules/einvoicing. The IRP provider and the renderer of QR codes are arguments.
use crossbill_back.Base.{
  ℕ, ◌*◌, Bool, true, false, not, List, [], ◌∷◌, Option, none, some, String, ◌==◌, ◌&&◌, ◌||◌,
  is_some, length, if◌then◌else◌, get_or,
}
use crossbill_back.Base.Text.{Text, codes, text_eq}
use crossbill_back.Audit.{DocId}
use crossbill_back.Gst.{GstTaxType, lut_zero, igst, cgst_sgst}
use crossbill_back.Organizations.{Organization}
use crossbill_back.Clients.{Client, CustomerType, b2b, b2c, find_one_scoped as client_of}
use crossbill_back.Clients
use crossbill_back.Invoices.Defs.{InvoiceType, export, domestic, InvoiceItem, Invoice, iso_date}
use crossbill_back.Invoices.Handlers.{nonempty}

pub data EInvoiceStatus : Type 0 where
  generated cancelled : EInvoiceStatus

pub record EInvoice : Type 0 where
  pub org_id : DocId
  pub invoice_id : DocId
  pub invoice_number : Text
  pub invoice_date : Text
  pub total_value : Text
  pub currency : Text
  pub irn : Text
  pub ack_no : Option Text
  pub ack_date : Option Text
  pub signed_invoice : Option Text
  pub signed_qr : Option Text
  pub qr_image : Option Text
  pub status : EInvoiceStatus
  pub provider : Text
  pub sandbox : Bool
  pub generated_at : Option ℕ
  pub cancelled_at : Option ℕ
  pub cancel_reason : Option String
  pub created_at : ℕ

-- `EInvoicePayload`.
pub record EInvoicePayload : Type 0 where
  pub doc_no : Text
  pub doc_date : Text
  pub doc_type : Text
  pub supply_type : Text
  pub seller_gstin : Text
  pub buyer_gstin : Text
  pub total_value : Text
  pub item_count : ℕ
  pub main_hsn : Text
  pub currency : Text

-- `EInvoiceResult`.
pub record EInvoiceResult : Type 0 where
  pub irn : Text
  pub ack_no : Text
  pub ack_date : Text
  pub signed_invoice : Text
  pub signed_qr : Text

-- `EInvoiceProvider`, whose calls may fail, and the QR image of a text.
pub record EInvoiceProvider : Type 0 where
  pub name : Text
  pub sandbox : Bool
  pub generate : EInvoicePayload → Option EInvoiceResult
  -- `none` if it throws, else `ok` of its answer
  pub cancel : Text → String → Option Bool
  pub render_qr : Text → Option Text

pub record Store (W : Type 0) : Type 0 where
  pub orgs : List (Organization W)
  pub base : Clients.Store
  pub invoices : List Invoice
  pub einvoices : List EInvoice

-- `CANCEL_WINDOW_MS`.
abbrev pub cancel_window_ms : ℕ
cancel_window_ms = 24 * 60 * 60 * 1000

abbrev pub of_invoice : DocId → DocId → EInvoice → Bool
of_invoice org i e = e.org_id == org && e.invoice_id == i

abbrev pub is_generated : EInvoiceStatus → Bool
is_generated generated = true
is_generated cancelled = false

abbrev pub active : Option EInvoice → Bool
active none = false
active (some e) = is_generated e.status

abbrev is_export : InvoiceType → Bool
is_export export = true
is_export domestic = false

abbrev is_b2b : Option CustomerType → Bool
is_b2b (some b2b) = true
is_b2b (some b2c) = false
is_b2b none = false

-- `isExport || isDomesticB2B`.
abbrev pub is_eligible : Invoice → Client → Bool
is_eligible inv client =
    is_export inv.charges.kind || (is_b2b client.customer_type && is_some (nonempty client.gstin))

abbrev seller_gstin : {W : Type 0} → Option (Organization W) → Text
seller_gstin none = codes "URP"
seller_gstin (some org) = get_or (nonempty org.company.gstin) (codes "URP")

abbrev pub total_value_of : Invoice → Text
total_value_of inv =
    let total = inv.charges.grand_total in
    if is_some (nonempty (some total)) && not (text_eq total (codes "0.00"))
    then total
    else inv.charges.subtotal

abbrev pays_igst : GstTaxType → Bool
pays_igst igst = true
pays_igst lut_zero = false
pays_igst cgst_sgst = false

abbrev supply_type_of : Invoice → Text
supply_type_of inv =
    if is_export inv.charges.kind
    then if pays_igst inv.charges.tax_type then codes "EXPWP" else codes "EXPWOP"
    else codes "B2B"

abbrev main_hsn_of : List InvoiceItem → Text
main_hsn_of [] = []
main_hsn_of (i ∷ is) = i.sac_code

abbrev pub payload_of : {W : Type 0} → Invoice → Client → Option (Organization W) → EInvoicePayload
payload_of inv client org = record {
  doc_no = inv.number;
  doc_date = iso_date inv.invoice_date;
  doc_type = codes "INV";
  supply_type = supply_type_of inv;
  seller_gstin = seller_gstin org;
  buyer_gstin =
      if is_export inv.charges.kind
      then codes "URP"
      else get_or (nonempty client.gstin) (codes "URP");
  total_value = total_value_of inv;
  item_count = length inv.items;
  main_hsn = main_hsn_of inv.items;
  currency = inv.charges.currency;
}

-- The fields that `findOneAndUpdate` sets.
abbrev pub registered : EInvoiceProvider → ℕ → Invoice → EInvoiceResult → EInvoice → EInvoice
registered provider now inv result e = record e {
  invoice_number = inv.number;
  invoice_date = iso_date inv.invoice_date;
  total_value = total_value_of inv;
  currency = inv.charges.currency;
  irn = result.irn;
  ack_no = some result.ack_no;
  ack_date = some result.ack_date;
  signed_invoice = some result.signed_invoice;
  signed_qr = some result.signed_qr;
  qr_image = provider.render_qr result.signed_qr;
  status = generated;
  provider = provider.name;
  sandbox = provider.sandbox;
  generated_at = some now;
  cancelled_at = none;
  cancel_reason = none;
}

-- The document that the upsert creates, before the fields are set.
abbrev pub blank_einvoice : ℕ → DocId → DocId → EInvoice
blank_einvoice now org i = record {
  org_id = org;
  invoice_id = i;
  invoice_number = [];
  invoice_date = [];
  total_value = codes "0.00";
  currency = codes "INR";
  irn = [];
  ack_no = none;
  ack_date = none;
  signed_invoice = none;
  signed_qr = none;
  qr_image = none;
  status = generated;
  provider = codes "sandbox";
  sandbox = true;
  generated_at = none;
  cancelled_at = none;
  cancel_reason = none;
  created_at = now;
}

abbrev pub withdrawn : ℕ → String → EInvoice → EInvoice
withdrawn stamped_at reason e = record e {
  status = cancelled;
  cancelled_at = some stamped_at;
  cancel_reason = some reason;
}
