-- ===== src/Gst.antt =====
-- The domestic tax engine: api/src/common/constants/gst.ts. Amounts are whole minor units and rates
-- whole percents, as `GST_RATES` fixes them; `Math.round` of a quotient of naturals rounds half up.
pub mod Totals
mod Tests
use crossbill_back.Base.{ℕ, ◌+◌, ◌-◌, ◌*◌, ◌/◌, Bool, List, [], ◌∷◌, if◌then◌else◌}
use crossbill_back.Base.Text.{Text, text_eq}

pub data GstTaxType : Type 0 where
  lut_zero igst cgst_sgst : GstTaxType

abbrev pub default_gst_rate : ℕ
default_gst_rate = 18

pub record GstLineInput : Type 0 where
  pub line_total_cents : ℕ
  pub gst_rate : ℕ

pub record GstResult : Type 0 where
  pub tax_type : GstTaxType
  pub cgst_cents : ℕ
  pub sgst_cents : ℕ
  pub igst_cents : ℕ
  pub tax_total_cents : ℕ
  pub grand_total_cents : ℕ

-- `Math.round(n / d)`.
abbrev pub round_div : ℕ → ℕ → ℕ
round_div n d = (2 * n + d) / (2 * d)

-- The loop over the lines, from the tax so far.
unfoldable pub add_lines : ℕ → List GstLineInput → ℕ
add_lines tax_cents [] = tax_cents
add_lines tax_cents (l ∷ ls) =
    add_lines (tax_cents + round_div (l.line_total_cents * l.gst_rate) 100) ls

unfoldable pub compute_gst : ℕ → List GstLineInput → Text → Text → GstResult
compute_gst subtotal_cents lines supplier_state client_state =
    let intra = text_eq supplier_state client_state in
    let tax_cents = add_lines 0 lines in
    let half = round_div tax_cents 2 in
    if intra
    then record {
      tax_type = cgst_sgst;
      cgst_cents = half;
      sgst_cents = tax_cents - half;
      igst_cents = 0;
      tax_total_cents = tax_cents;
      grand_total_cents = subtotal_cents + tax_cents;
    }
    else record {
      tax_type = igst;
      cgst_cents = 0;
      sgst_cents = 0;
      igst_cents = tax_cents;
      tax_total_cents = tax_cents;
      grand_total_cents = subtotal_cents + tax_cents;
    }
