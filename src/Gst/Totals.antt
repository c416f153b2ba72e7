-- ===== src/Gst/Totals.antt =====
-- The parts of a GST breakup add up, and its rounding is bounded.
use crossbill_back.Base.{ℕ, ◌+◌, ◌*◌, ◌≤◌, ◌≡◌, Bool, true, false, List, [], ◌∷◌, arith, length}
use crossbill_back.Base.Text.{Text, text_eq}
use crossbill_back.Gst.{GstLineInput, GstResult, igst, cgst_sgst, round_div, add_lines, compute_gst}

-- What a GST breakup over `lines` has to be. The tax is within half a minor unit a line of the exact
-- tax, which is a hundredth of the sum of amount times rate.
abbrev pub exact_tax : List GstLineInput → ℕ
exact_tax [] = 0
exact_tax (l ∷ ls) = l.line_total_cents * l.gst_rate + exact_tax ls

pub record IsBreakup (subtotal : ℕ) (lines : List GstLineInput) (intra : Bool) (r : GstResult)
    : Type 0 where
  pub parts : r.cgst_cents + r.sgst_cents + r.igst_cents ≡ r.tax_total_cents
  pub grand : r.grand_total_cents ≡ subtotal + r.tax_total_cents
  pub not_over : 100 * r.tax_total_cents ≤ exact_tax lines + 50 * length lines
  pub not_under : exact_tax lines ≤ 100 * r.tax_total_cents + 50 * length lines
  pub intra_split :
      intra ≡ true
      → (r.tax_type ≡ cgst_sgst)
        × (r.igst_cents ≡ 0)
        × (r.sgst_cents ≤ r.cgst_cents)
        × (r.cgst_cents ≤ r.sgst_cents + 1)
  pub inter_split : intra ≡ false → (r.tax_type ≡ igst) × (r.cgst_cents ≡ 0) × (r.sgst_cents ≡ 0)

add_lines-le :
    (acc : ℕ) (ls : List GstLineInput)
    → 100 * add_lines acc ls ≤ 100 * acc + exact_tax ls + 50 * length ls
unfolding add_lines
add_lines-le acc [] = omega arith
add_lines-le acc (l ∷ ls) =
    omega (arith, add_lines-le (acc + round_div (l.line_total_cents * l.gst_rate) 100) ls)

le-add_lines :
    (acc : ℕ) (ls : List GstLineInput)
    → 100 * acc + exact_tax ls ≤ 100 * add_lines acc ls + 50 * length ls
unfolding add_lines
le-add_lines acc [] = omega arith
le-add_lines acc (l ∷ ls) =
    omega (arith, le-add_lines (acc + round_div (l.line_total_cents * l.gst_rate) 100) ls)

-- For every subtotal, lines and states: the three taxes add up to the tax total, the grand total is
-- the subtotal and the tax, and the tax is within half a minor unit a line of the exact one. Between
-- equal states the tax is CGST and SGST, which differ by at most one unit; otherwise it is IGST alone.
pub compute_gst-IsBreakup :
    (subtotal : ℕ) (lines : List GstLineInput) (supplier client : Text)
    → IsBreakup subtotal lines
        (text_eq supplier client)
        (compute_gst subtotal lines supplier client)
unfolding compute_gst
compute_gst-IsBreakup subtotal lines supplier client =
    ground (arith, add_lines-le 0 lines, le-add_lines 0 lines)
