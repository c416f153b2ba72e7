-- ===== src/Invoices/Handlers.antt =====
-- The operations on invoices: api/src/modules/invoices/invoices.service.ts.
use crossbill_back.Base.{
  ℕ, ◌+◌, Bool, true, false, List, [], ◌∷◌, ◌++◌, Option, none, some, String, ◌==◌, ◌&&◌, any,
  is_some, if◌then◌else◌, get_or,
}
use crossbill_back.Base.Text.{Text, codes, text_eq}
use crossbill_back.Base.Money.{fixed2}
use crossbill_back.Base.Http.{Result, ok, bad_request, ◌>>=◌, or_throw}
use text.Mathlib.Text.{◌==◌ as same_text}
use crossbill_back.Audit.{DocId}
use crossbill_back.FinancialYear.{Date}
use crossbill_back.Gst.{GstLineInput, GstResult, compute_gst, default_gst_rate}
use crossbill_back.States.{state_name, state_code_from_gstin, render_declaration}
use crossbill_back.Clients.{Client, upper}
use crossbill_back.Invoices.Defs.{
  InvoiceStatus, draft, paid, overdue, export, InvoiceItem, Charges, Invoice, invoice_indexes,
  InvoiceItemDto, CreateInvoiceDto, Profile, PdfJob, Store, iso_date,
}
use crossbill_back.Invoices.Defs

abbrev pub default_sac : Text
default_sac = codes "998314"

-- `DOMESTIC_TAX_NOTE`.
domestic_tax_note : Text
domestic_tax_note =
    codes
      "Tax invoice issued under the CGST Act, 2017. This is a domestic supply of services within India."

-- An item with `_cents`.
pub record Line : Type 0 where
  pub cents : ℕ
  pub item : InvoiceItem

-- A text that is there and is not empty.
abbrev pub nonempty : Option Text → Option Text
nonempty none = none
nonempty (some []) = none
nonempty (some (c ∷ s)) = some (c ∷ s)

abbrev pub sum_cents : List Line → ℕ
sum_cents [] = 0
sum_cents (l ∷ ls) = l.cents + sum_cents ls

-- `items.map((i) => ({ lineTotalCents: i._cents, gstRate: i.gstRate ?? DEFAULT_GST_RATE }))`.
abbrev pub gst_lines : List Line → List GstLineInput
gst_lines [] = []
gst_lines (l ∷ ls) =
    record { line_total_cents = l.cents; gst_rate = get_or (some l.item.gst_rate) default_gst_rate }
    ∷ gst_lines ls

abbrev pub default_sac_of : Option Profile → Text
default_sac_of none = default_sac
default_sac_of (some profile) = get_or profile.default_sac default_sac

abbrev pub gstin_of : Option Profile → Option Text
gstin_of none = none
gstin_of (some profile) = profile.gstin

abbrev pub declaration_of : Option Profile → Text
declaration_of none = render_declaration false none none
declaration_of (some profile) =
    render_declaration (is_some (nonempty profile.lut_number)) profile.lut_arn profile.lut_fy

-- `(dto.currency && dto.currency !== 'INR' ? dto.currency : 'USD').toUpperCase()`.
abbrev pub export_currency : Option Text → Text
export_currency none = codes "USD"
export_currency (some cur) = if text_eq cur (codes "INR") then codes "USD" else upper cur

-- What `buildDomestic` returns.
unfoldable pub domestic_charges : Text → Date → ℕ → GstResult → Charges
unfolding domestic_tax_note
domestic_charges client_state today subtotal_cents gst = record {
  kind = Defs.InvoiceType.domestic;
  currency = codes "INR";
  fx_rate = codes "1.000000";
  fx_rate_source = codes "NA";
  fx_rate_date = iso_date today;
  subtotal = fixed2 subtotal_cents;
  inr_equivalent = fixed2 gst.grand_total_cents;
  tax_type = gst.tax_type;
  cgst_amount = fixed2 gst.cgst_cents;
  sgst_amount = fixed2 gst.sgst_cents;
  igst_amount = fixed2 gst.igst_cents;
  tax_total = fixed2 gst.tax_total_cents;
  grand_total = fixed2 gst.grand_total_cents;
  declaration_text = domestic_tax_note;
  place_of_supply = state_name (some client_state);
  place_of_supply_state = some client_state;
  fema_due_date = none;
}

unfoldable pub build_domestic : Client → Option Profile → List Line → ℕ → Date → Result Charges
build_domestic client profile lines subtotal_cents today = do
  supplier_state ←
      or_throw (state_code_from_gstin (gstin_of profile))
        (bad_request "Add your GSTIN in Business profile before raising a domestic GST invoice.")
  client_state ←
      or_throw (nonempty client.state_code)
        (bad_request "This domestic client is missing a GST state — edit the client to add it.")
  let gst = compute_gst subtotal_cents (gst_lines lines) supplier_state client_state
  ok (domestic_charges client_state today subtotal_cents gst)

abbrev pub scoped : DocId → DocId → Invoice → Bool
scoped org i inv = inv.id == i && inv.org_id == org

abbrev pub has_id : DocId → Invoice → Bool
has_id i inv = inv.id == i

abbrev pub is_paid : InvoiceStatus → Bool
is_paid paid = true
is_paid _ = false

-- `a !== b`.
abbrev pub differs : InvoiceStatus → InvoiceStatus → Bool
differs draft draft = false
differs Defs.sent Defs.sent = false
differs paid paid = false
differs overdue overdue = false
differs _ _ = true

abbrev pub with_status : InvoiceStatus → Invoice → Invoice
with_status status inv = record inv { status = status }

-- `$addToSet`.
abbrev pub add_to_set : String → List String → List String
add_to_set k ks = if any (λ j. same_text j k) ks then ks else ks ++ k ∷ []

abbrev pub with_reminder : String → Invoice → Invoice
with_reminder k inv = record inv { fema_reminders_sent = add_to_set k inv.fema_reminders_sent }
