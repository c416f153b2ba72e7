-- ===== src/Invoices/Charged.antt =====
-- What an invoice charges, by the type of its client.
use crossbill_back.Base.{
  ℕ, ◌+◌, ◌*◌, ◌≤◌, ◌≡◌, refl, sym, ◌∙◌, inl, inr, true, false, List, [], ◌∷◌, map, length, Option,
  none, some, get_or, arith, Bool-cases,
}
use crossbill_back.Base.Text.{Text, text_eq, text_eq→≡, text_eq_refl}
use crossbill_back.Base.Money.{cents_of, fixed2, cents_of-fixed2}
use crossbill_back.Base.Doubles.{Double}
use crossbill_back.Base.Http.{ok, Result-cases}
use crossbill_back.Mongo.{Mongo}
use crossbill_back.Audit.{DocId}
use crossbill_back.FinancialYear.{Date, fema_due_date}
use crossbill_back.Gst.{lut_zero, igst, cgst_sgst, compute_gst}
use crossbill_back.Gst.Totals.{exact_tax, compute_gst-IsBreakup}
use crossbill_back.States.{state_code_from_gstin}
use crossbill_back.Clients.{Client, ClientType, find_one_scoped as client_of}
use crossbill_back.Invoices.Rates.{CapturedRate, LiveAnswer, Cache, capture}
use crossbill_back.Invoices.Defs.{
  export, domestic, InvoiceItem, Charges, Invoice, InvoiceItemDto, CreateInvoiceDto, Profile, Store,
  iso_date,
}
use crossbill_back.Invoices.Handlers.{
  sum_cents, gst_lines, build_domestic, domestic_charges, gstin_of, nonempty, export_currency,
  default_sac_of,
}
use crossbill_back.Invoices.Create.{
  create, charges_of, lines_of, export_charges, build_export, profile_of,
}
use crossbill_back.Invoices.Outcome.{create-cases, lines_for}
use crossbill_back.Invoices.Amounts.{
  AddsUp, cents_of_nil, build_domestic-ok, numbered-ok, create-AddsUp,
}

-- A hundred times the exact tax of some items: the sum of amount times rate.
abbrev pub exact_of : List InvoiceItem → ℕ
exact_of [] = 0
exact_of (i ∷ is) = cents_of i.line_total * i.gst_rate + exact_of is

-- The tax of an invoice to a client of this country: within half a minor unit a line of the exact tax,
-- and split by the states of the supplier and of the client.
pub record IsTaxed (client : Client) (profile : Option Profile) (items : List InvoiceItem)
    (c : Charges) : Type 0 where
  pub kind : c.kind ≡ domestic
  pub rupees : c.inr_equivalent ≡ c.grand_total
  pub not_due : c.fema_due_date ≡ none
  pub not_over : 100 * cents_of c.tax_total ≤ exact_of items + 50 * length items
  pub not_under : exact_of items ≤ 100 * cents_of c.tax_total + 50 * length items
  pub states :
      (supplier : Text) × (state : Text) × (state_code_from_gstin (gstin_of profile)
        ≡ some supplier)
      × (nonempty client.state_code ≡ some state)
      × (c.place_of_supply_state ≡ some state)
      × (supplier ≡ state
          → (c.tax_type ≡ cgst_sgst)
            × (cents_of c.igst_amount ≡ 0)
            × (cents_of c.sgst_amount ≤ cents_of c.cgst_amount)
            × (cents_of c.cgst_amount ≤ cents_of c.sgst_amount + 1))
      × (¬ (supplier ≡ state)
          → (c.tax_type ≡ igst) × (cents_of c.cgst_amount ≡ 0) × (cents_of c.sgst_amount ≡ 0))

-- What an invoice to a client abroad charges: no tax, and in rupees its subtotal at the captured rate.
pub record IsExported {W : Type 0} (num : Double W) (captured : CapturedRate W) (date : Date)
    (c : Charges) : Type 0 where
  pub kind : c.kind ≡ export
  pub zero_rated : (c.tax_type ≡ lut_zero) × (cents_of c.tax_total ≡ 0)
  pub grand : c.grand_total ≡ c.subtotal
  pub due : c.fema_due_date ≡ some (fema_due_date date)
  pub rate : (c.fx_rate ≡ num.to_fixed 6 captured.rate) × (c.fx_rate_date ≡ captured.rate_date)
  pub rupees : c.inr_equivalent ≡ fixed2 (num.scaled_cents (cents_of c.subtotal) captured.rate)

module _ {W : Type 0} (num : Double W) where
  exact_of-lines :
      (sac : Text) (is : List (InvoiceItemDto W))
      → let lines = lines_of num sac is in
        (exact_of (map (λ l. l.item) lines) ≡ exact_tax (gst_lines lines))
        × (length (map (λ l. l.item) lines) ≡ length (gst_lines lines))
  exact_of-lines sac [] = (refl, refl)
  exact_of-lines sac (i ∷ is) =
      let (sums, counts) = exact_of-lines sac is in
      (rw (cents_of-fixed2 (num.product_cents i.quantity i.unit_amount), sums) refl, rw counts refl)

  export-IsExported :
      (profile : Option Profile) (currency : Text) (captured : CapturedRate W) (n : ℕ) (date : Date)
      → IsExported num captured date (export_charges num profile currency captured n date)
  unfolding export_charges
  export-IsExported profile currency captured n date = record {
    kind = refl;
    zero_rated = (refl, cents_of_nil);
    grand = refl;
    due = refl;
    rate = (refl, refl);
    rupees = rw (cents_of-fixed2 n) refl;
  }

  domestic-IsTaxed :
      (client : Client) (profile : Option Profile) (sac : Text) (is : List (InvoiceItemDto W))
      (today : Date) {supplier state : Text}
      → state_code_from_gstin (gstin_of profile) ≡ some supplier
      → nonempty client.state_code ≡ some state
      → let lines = lines_of num sac is in
        let n = sum_cents lines in
        IsTaxed client profile
          (map (λ l. l.item) lines)
          (domestic_charges state today n (compute_gst n (gst_lines lines) supplier state))
  unfolding domestic_charges
  domestic-IsTaxed client profile sac is today {supplier} {state} home away =
      let lines = lines_of num sac is in
      let n = sum_cents lines in
      let r = compute_gst n (gst_lines lines) supplier state in
      let sound = compute_gst-IsBreakup n (gst_lines lines) supplier state in
      let (sums, counts) = exact_of-lines sac is in
      let cgst = cents_of-fixed2 r.cgst_cents in
      let sgst = cents_of-fixed2 r.sgst_cents in
      let whole = cents_of-fixed2 r.igst_cents in
      record {
        kind = refl;
        rupees = refl;
        not_due = refl;
        not_over = rw (cents_of-fixed2 r.tax_total_cents, sums, counts) sound.not_over;
        not_under = rw (cents_of-fixed2 r.tax_total_cents, sums, counts) sound.not_under;
        states = (
          supplier,
          state,
          home,
          away,
          refl,
          λ same.
              let intra : text_eq supplier state ≡ true = rw same (text_eq_refl state) in
              rw (whole, sgst, cgst) (sound.intra_split intra),
          λ other.
              let inter : text_eq supplier state ≡ false =
                elim (Bool-cases (text_eq supplier state)) [
                  | inl y ↦ absurd (other (text_eq→≡ supplier state y))
                  | inr e ↦ e
                ] in
              rw (cgst, sgst) (sound.inter_split inter),
        );
      }

module _ {W R : Type 0} (num : Double W) (live : Text → Text → Option (LiveAnswer W))
    (redis : Cache R (CapturedRate W)) where
  -- The rate of an export is the one captured for the currency and the day of the invoice.
  abbrev pub HasRate : Date → R → Charges → Type 0
  HasRate date rates c =
      IsExported num (capture num live redis c.currency (iso_date date) rates).0 date c

  charges_of-IsTaxed :
      (kind : ClientType) (client : Client) (profile : Option Profile) (sac : Text)
      (is : List (InvoiceItemDto W)) (date today : Date) (asked : Option Text) (rates : R)
      {charges : Charges} {rates' : R}
      → let lines = lines_of num sac is in
        kind ≡ ClientType.domestic
        → charges_of num live redis kind client profile lines date today asked rates
          ≡ ok (charges, rates')
        → IsTaxed client profile (map (λ l. l.item) lines) charges
  charges_of-IsTaxed ClientType.foreign client profile sac is date today asked rates at_home h =
      ground arith
  charges_of-IsTaxed ClientType.domestic client profile sac is date today asked rates {charges}
        at_home h =
      let lines = lines_of num sac is in
      elim (Result-cases (build_domestic client profile lines (sum_cents lines) today)) [
        | inr (e, k) ↦ ground (arith, k)
        | inl (c, k) ↦
            let (supplier, state, home, away, same) =
              build_domestic-ok client profile lines (sum_cents lines) today k in
            let it : c ≡ charges = ground arith in
            rw (sym it, same) (domestic-IsTaxed num client profile sac is today home away)
      ]

  charges_of-HasRate :
      (kind : ClientType) (client : Client) (profile : Option Profile) (sac : Text)
      (is : List (InvoiceItemDto W)) (date today : Date) (asked : Option Text) (rates : R)
      {charges : Charges} {rates' : R}
      → let lines = lines_of num sac is in
        kind ≡ ClientType.foreign
        → charges_of num live redis kind client profile lines date today asked rates
          ≡ ok (charges, rates')
        → HasRate date rates charges
  unfolding build_export export_charges
  charges_of-HasRate ClientType.domestic client profile sac is date today asked rates abroad h =
      ground arith
  charges_of-HasRate ClientType.foreign client profile sac is date today asked rates {charges}
        abroad h =
      let n = sum_cents (lines_of num sac is) in
      let currency = export_currency asked in
      let captured = (capture num live redis currency (iso_date date) rates).0 in
      let it : export_charges num profile currency captured n date ≡ charges = ground arith in
      rw (sym it) (export-IsExported num profile currency captured n date)

  -- On every invoice that is created, the items add up to the subtotal, the three taxes to the tax
  -- total, and these two to the grand total. To a domestic client it bears the tax of its items, within
  -- half a minor unit a line, as CGST and SGST in the state of the supplier and as IGST in another, its
  -- rupee amount is its grand total, and it has no due date. To a foreign client it bears no tax, its
  -- rupee amount is its subtotal at the rate captured for its currency and date, and it has the FEMA due
  -- date of its date.
  pub create-IsCharged :
      (db : Mongo) (new_id org user : DocId) (today : Date) (dto : CreateInvoiceDto W) (s : Store R)
      {inv : Invoice} {t : Store R}
      → create num live redis db new_id org user today dto s ≡ (ok inv, t)
      → (client : Client) × (client_of db org dto.client_id s.base ≡ ok client)
        × AddsUp inv.invoice_date inv.items inv.charges
        × (client.kind ≡ ClientType.domestic
            → IsTaxed client (profile_of num live redis db user s) inv.items inv.charges)
        × (client.kind ≡ ClientType.foreign → HasRate inv.invoice_date s.rates inv.charges)
  create-IsCharged db new_id org user today dto s {inv} h =
      elim (create-cases num live redis db new_id org user today dto s) [
        | inl (e, refused) ↦ ground arith
        | inr (client, charges, rates, found, built, e) ↦
            let date = get_or dto.invoice_date today in
            let profile = profile_of num live redis db user s in
            let sac = default_sac_of profile in
            let (c, i, d) =
              numbered-ok num live redis db new_id org dto.client_id date
                (lines_for num live redis db user dto s) charges rates s (sym e ∙ h) in
            (
              client,
              found,
              create-AddsUp num live redis db new_id org user today dto s h,
              λ at_home.
                  rw (c, i)
                    (charges_of-IsTaxed client.kind client profile sac dto.items date today
                      dto.currency s.rates at_home built),
              λ abroad.
                  rw (c, d)
                    (charges_of-HasRate client.kind client profile sac dto.items date today
                      dto.currency s.rates abroad built),
            )
      ]
