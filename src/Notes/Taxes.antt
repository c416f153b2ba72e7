-- ===== src/Notes/Taxes.antt =====
-- The tax of a note.
use crossbill_back.Base.{
  ℕ, ◌+◌, ◌≡◌, refl, inl, inr, Bool-cases, false, List, [], Option, some, arith, get_or,
}
use crossbill_back.Base.Text.{Text, text_eq, text_eq→≡, text_eq_refl}
use crossbill_back.Base.Money.{cents_of, cents_of-fixed2}
use crossbill_back.Gst.{compute_gst, igst, cgst_sgst}
use crossbill_back.Gst.Totals.{compute_gst-IsBreakup}
use crossbill_back.States.{state_code_from_gstin}
use crossbill_back.Clients.{Client}
use crossbill_back.Invoices.Defs.{InvoiceType, export, domestic, Profile}
use crossbill_back.Invoices.Handlers.{Line, sum_cents, gst_lines, gstin_of}
use crossbill_back.Invoices.Amounts.{cents_of_nil}
use crossbill_back.Notes.Defs.{NoteTax}
use crossbill_back.Notes.Create.{tax_of, supplier_state_of}

-- The three taxes add up to the tax total, and the grand total is the subtotal and the tax.
abbrev pub TaxAddsUp : ℕ → NoteTax → Type 0
TaxAddsUp n tax =
    (cents_of tax.cgst + cents_of tax.sgst + cents_of tax.igst ≡ cents_of tax.tax_total)
    × (cents_of tax.grand ≡ n + cents_of tax.tax_total)

pub tax_of-TaxAddsUp :
    (kind : InvoiceType) (profile : Option Profile) (client : Client) (lines : List Line)
    → TaxAddsUp (sum_cents lines) (tax_of kind profile client lines)
tax_of-TaxAddsUp export profile client lines =
    (rw cents_of_nil refl, rw (cents_of_nil, cents_of-fixed2 (sum_cents lines)) (omega arith))
tax_of-TaxAddsUp domestic profile client lines =
    let supplier = supplier_state_of profile client in
    let state = get_or client.state_code [] in
    let r = compute_gst (sum_cents lines) (gst_lines lines) supplier state in
    let sound = compute_gst-IsBreakup (sum_cents lines) (gst_lines lines) supplier state in
    (
      rw
          (
            cents_of-fixed2 r.cgst_cents,
            cents_of-fixed2 r.sgst_cents,
            cents_of-fixed2 r.igst_cents,
            cents_of-fixed2 r.tax_total_cents,
          )
          sound.parts,
      rw (cents_of-fixed2 r.grand_total_cents, cents_of-fixed2 r.tax_total_cents) sound.grand,
    )

supplier_state-here :
    (profile : Option Profile) (client : Client) {state : Text}
    → state_code_from_gstin (gstin_of profile) ≡ some state
    → supplier_state_of profile client ≡ state
supplier_state-here profile client h = rw (supplier_state_of, h) refl

pub text_eq-ne : (s t : Text) → ¬ (s ≡ t) → text_eq s t ≡ false
text_eq-ne s t n = elim (Bool-cases (text_eq s t)) [
  | inl y ↦ absurd (n (text_eq→≡ s t y))
  | inr e ↦ e
]

pub other_state-igst :
    (profile : Option Profile) (client : Client) (lines : List Line) {home state : Text}
    → state_code_from_gstin (gstin_of profile) ≡ some home
    → client.state_code ≡ some state
    → text_eq home state ≡ false
    → (tax_of domestic profile client lines).tax_type ≡ igst
unfolding compute_gst
other_state-igst profile client lines {home} {state} h k n =
    rw (supplier_state-here profile client h, k, n) refl

pub same_state-cgst_sgst :
    (profile : Option Profile) (client : Client) (lines : List Line) {state : Text}
    → state_code_from_gstin (gstin_of profile) ≡ some state
    → client.state_code ≡ some state
    → (tax_of domestic profile client lines).tax_type ≡ cgst_sgst
unfolding compute_gst
same_state-cgst_sgst profile client lines {state} h k =
    rw (supplier_state-here profile client h, k, text_eq_refl state) refl
