-- ===== src/Gst/Tests.antt =====
-- The tax engine on concrete invoices.
use crossbill_back.Base.{◌≡◌, refl, false, List, [], ◌∷◌}
use crossbill_back.Base.Text.{codes}
use crossbill_back.Gst.{GstLineInput, add_lines, compute_gst}
use crossbill_back.Gst.Totals.{IsBreakup, compute_gst-IsBreakup}

abbrev lines : List GstLineInput
lines =
    record { line_total_cents = 10003; gst_rate = 18 }
    ∷ record { line_total_cents = 2501; gst_rate = 5 }
    ∷ []

intra_halves :
    let r = compute_gst 12504 lines (codes "27") (codes "27") in
    (r.tax_total_cents ≡ 1926) × (r.cgst_cents ≡ 963) × (r.sgst_cents ≡ 963)
unfolding compute_gst add_lines
intra_halves = (refl, refl, refl)

compute_gst-IsBreakup_example :
    IsBreakup 12504 lines false (compute_gst 12504 lines (codes "27") (codes "29"))
compute_gst-IsBreakup_example = compute_gst-IsBreakup 12504 lines (codes "27") (codes "29")
