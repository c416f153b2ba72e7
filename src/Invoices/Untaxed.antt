-- ===== src/Invoices/Untaxed.antt =====
-- An item that names no GST rate.
use crossbill_back.Base.{
  ℕ, ◌+◌, ◌*◌, ◌≡◌, refl, sym, ap, ◌∙◌, inl, inr, List, [], ◌∷◌, none, Option, get_or, arith, All,
}
use crossbill_back.Base.Text.{Text}
use crossbill_back.Base.Money.{cents_of, cents_of-fixed2}
use crossbill_back.Base.Doubles.{Double}
use crossbill_back.Base.Http.{ok, Result-cases}
use crossbill_back.Mongo.{Mongo}
use crossbill_back.Audit.{DocId}
use crossbill_back.FinancialYear.{Date}
use crossbill_back.Gst.{GstLineInput, compute_gst, add_lines, round_div}
use crossbill_back.Clients.{Client, ClientType, find_one_scoped as client_of}
use crossbill_back.Invoices.Rates.{CapturedRate, LiveAnswer, Cache}
use crossbill_back.Invoices.Defs.{
  Charges, Invoice, InvoiceItemDto, CreateInvoiceDto, Profile, Store,
}
use crossbill_back.Invoices.Handlers.{
  sum_cents, gst_lines, build_domestic, domestic_charges, default_sac_of,
}
use crossbill_back.Invoices.Create.{create, charges_of, lines_of, profile_of}
use crossbill_back.Invoices.Outcome.{create-cases, lines_for}
use crossbill_back.Invoices.Amounts.{build_domestic-ok, numbered-ok}

abbrev pub NoRate : {W : Type 0} → InvoiceItemDto W → Type 0
NoRate i = i.gst_rate ≡ none

zero_rate : (acc n : ℕ) → acc + round_div (n * 0) 100 ≡ acc
zero_rate acc n = omega arith

add_lines-NoRate :
    {W : Type 0} (num : Double W) (sac : Text) (is : List (InvoiceItemDto W)) (acc : ℕ)
    → All NoRate is
    → add_lines acc (gst_lines (lines_of num sac is)) ≡ acc
unfolding add_lines
add_lines-NoRate num sac [] acc h = refl
add_lines-NoRate num sac (i ∷ is) acc h =
    let cents = num.product_cents i.quantity i.unit_amount in
    rw h.0 (
      ap (λ a. add_lines a (gst_lines (lines_of num sac is))) (zero_rate acc cents)
      ∙ add_lines-NoRate num sac is acc h.1)

no_tax :
    (subtotal : ℕ) (lines : List GstLineInput) (supplier client : Text)
    → add_lines 0 lines ≡ 0
    → ((compute_gst subtotal lines supplier client).tax_total_cents ≡ 0)
      × ((compute_gst subtotal lines supplier client).grand_total_cents ≡ subtotal)
unfolding compute_gst
no_tax subtotal lines supplier client h = ground arith

-- The taxes of a domestic invoice are nil.
abbrev Untaxed : Charges → Type 0
Untaxed c = (cents_of c.tax_total ≡ 0) × (c.grand_total ≡ c.subtotal)

module _ {W R : Type 0} (num : Double W) (live : Text → Text → Option (LiveAnswer W))
    (redis : Cache R (CapturedRate W)) where
  domestic-Untaxed :
      (client : Client) (profile : Option Profile) (sac : Text) (is : List (InvoiceItemDto W))
      (today : Date) {c : Charges}
      → All NoRate is
      → build_domestic client profile (lines_of num sac is) (sum_cents (lines_of num sac is)) today
        ≡ ok c
      → Untaxed c
  unfolding domestic_charges
  domestic-Untaxed client profile sac is today none_given h =
      let lines = lines_of num sac is in
      let n = sum_cents lines in
      let (supplier, state, e, f, same) = build_domestic-ok client profile lines n today h in
      let (tax, grand) =
        no_tax n (gst_lines lines) supplier state (add_lines-NoRate num sac is 0 none_given) in
      rw (same, tax, grand) (cents_of-fixed2 0, refl)

  charges_of-Untaxed :
      (kind : ClientType) (client : Client) (profile : Option Profile) (sac : Text)
      (is : List (InvoiceItemDto W)) (date today : Date) (asked : Option Text) (rates : R)
      {charges : Charges} {rates' : R}
      → let lines = lines_of num sac is in
        kind ≡ ClientType.domestic
        → All NoRate is
        → charges_of num live redis kind client profile lines date today asked rates
          ≡ ok (charges, rates')
        → Untaxed charges
  charges_of-Untaxed ClientType.foreign client profile sac is date today asked rates kind none_given
        h =
      ground arith
  charges_of-Untaxed ClientType.domestic client profile sac is date today asked rates {charges} kind
        none_given h =
      elim (Result-cases (
        build_domestic client profile (lines_of num sac is) (sum_cents (lines_of num sac is))
          today)) [
            | inr (e, k) ↦ ground (arith, k)
            | inl (c, k) ↦
                let it : c ≡ charges = ground arith in
                rw (sym it) (domestic-Untaxed client profile sac is today none_given k)
          ]

  -- If no item of a request for a domestic client names its GST rate, the invoice that is created bears
  -- no tax: the default rate of 18 is never applied, since an absent rate was made 0 before.
  pub create-Untaxed :
      (db : Mongo) (new_id org user : DocId) (today : Date) (dto : CreateInvoiceDto W) (s : Store R)
      {inv : Invoice} {t : Store R} {client : Client}
      → client_of db org dto.client_id s.base ≡ ok client
      → client.kind ≡ ClientType.domestic
      → All NoRate dto.items
      → create num live redis db new_id org user today dto s ≡ (ok inv, t)
      → (cents_of inv.charges.tax_total ≡ 0) × (inv.charges.grand_total ≡ inv.charges.subtotal)
  create-Untaxed db new_id org user today dto s {client = known} whose kind none_given h =
      elim (create-cases num live redis db new_id org user today dto s) [
        | inl (e, refused) ↦ ground arith
        | inr (client, charges, rates, found, built, e) ↦
            let (c, i, d) =
              numbered-ok num live redis db new_id org dto.client_id (get_or dto.invoice_date today)
                (lines_for num live redis db user dto s) charges rates s (sym e ∙ h) in
            let it : client ≡ known = ground arith in
            let at_home : client.kind ≡ ClientType.domestic = rw it kind in
            rw c (
              charges_of-Untaxed client.kind client (profile_of num live redis db user s)
                (default_sac_of (profile_of num live redis db user s)) dto.items
                (get_or dto.invoice_date today) today dto.currency s.rates at_home none_given built)
      ]
