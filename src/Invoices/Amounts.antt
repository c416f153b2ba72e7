-- ===== src/Invoices/Amounts.antt =====
-- The amounts of an invoice that has been created.
use crossbill_back.Base.{
  Bool, true, false, all, ℕ, ◌+◌, ◌≡◌, refl, sym, ap, ◌∙◌, inl, inr, List, [], ◌∷◌, map, none, some,
  Option, get_or, arith, Option-cases,
}
use crossbill_back.Base.Text.{Text, codes}
use crossbill_back.Base.Decimal.{decimal, read}
use crossbill_back.Base.Money.{cents_of, cents_of-fixed2}
use crossbill_back.Base.Doubles.{Double}
use crossbill_back.Base.Http.{ok, Result-cases}
use crossbill_back.Mongo.{Mongo, Written, written, duplicate}
use crossbill_back.Audit.{DocId}
use crossbill_back.FinancialYear.{Date, financial_year_of, fema_due_date}
use crossbill_back.Gst.{GstLineInput, compute_gst}
use crossbill_back.Gst.Totals.{compute_gst-IsBreakup}
use crossbill_back.Numbering.{Counter, allocate}
use crossbill_back.Clients.{Client, ClientType}
use crossbill_back.Invoices.Rates.{CapturedRate, LiveAnswer, Cache, capture}
use crossbill_back.Invoices.Defs.{
  export, domestic, InvoiceItem, Charges, Invoice, InvoiceItemDto, CreateInvoiceDto, Profile, Store,
  invoice_indexes, iso_date,
}
use crossbill_back.Invoices.Handlers.{
  Line, sum_cents, gst_lines, build_domestic, domestic_charges, gstin_of, nonempty, export_currency,
  default_sac_of,
}
use crossbill_back.Invoices.Create.{
  create, created, saved, is_filled, numbered, invoice_of, charges_of, lines_of, export_charges,
  build_export, profile_of,
}
use crossbill_back.Invoices.Outcome.{create-cases, lines_for}
use crossbill_back.States.{state_code_from_gstin}

abbrev pub total_of : List InvoiceItem → ℕ
total_of [] = 0
total_of (i ∷ is) = cents_of i.line_total + total_of is

-- How the amounts of an invoice have to hang together.
pub record AddsUp (date : Date) (items : List InvoiceItem) (c : Charges) : Type 0 where
  pub subtotal : cents_of c.subtotal ≡ total_of items
  pub parts :
      cents_of c.cgst_amount + cents_of c.sgst_amount + cents_of c.igst_amount
      ≡ cents_of c.tax_total
  pub grand : cents_of c.grand_total ≡ cents_of c.subtotal + cents_of c.tax_total
  pub exported :
      c.kind ≡ export → (cents_of c.tax_total ≡ 0) × (c.fema_due_date ≡ some (fema_due_date date))
  pub at_home : c.kind ≡ domestic → (c.inr_equivalent ≡ c.grand_total) × (c.fema_due_date ≡ none)

pub cents_of_nil : cents_of (codes "0.00") ≡ 0
unfolding cents_of read
cents_of_nil = refl

module _ {W : Type 0} (num : Double W) where
  pub total_of-lines :
      (sac : Text) (is : List (InvoiceItemDto W))
      → total_of (map (λ l. l.item) (lines_of num sac is)) ≡ sum_cents (lines_of num sac is)
  total_of-lines sac [] = refl
  total_of-lines sac (i ∷ is) =
      rw (cents_of-fixed2 (num.product_cents i.quantity i.unit_amount), total_of-lines sac is) refl

  export-AddsUp :
      (profile : Option Profile) (currency : Text) (captured : CapturedRate W) (date : Date)
      (items : List InvoiceItem) (n : ℕ)
      → total_of items ≡ n
      → AddsUp date items (export_charges num profile currency captured n date)
  unfolding export_charges
  export-AddsUp profile currency captured date items n e = record {
    subtotal = cents_of-fixed2 n ∙ sym e;
    parts = rw (cents_of_nil) refl;
    grand = rw (cents_of_nil, cents_of-fixed2 n) (omega arith);
    exported = λ h. (cents_of_nil, refl);
    at_home = λ h. ground arith;
  }

domestic-AddsUp :
    (lines : List GstLineInput) (supplier client : Text) (today date : Date)
    (items : List InvoiceItem) (n : ℕ)
    → total_of items ≡ n
    → AddsUp date items (domestic_charges client today n (compute_gst n lines supplier client))
unfolding domestic_charges
domestic-AddsUp lines supplier client today date items n e =
    let r = compute_gst n lines supplier client in
    let sound = compute_gst-IsBreakup n lines supplier client in
    record {
      subtotal = cents_of-fixed2 n ∙ sym e;
      parts =
          rw
            (
              cents_of-fixed2 r.cgst_cents,
              cents_of-fixed2 r.sgst_cents,
              cents_of-fixed2 r.igst_cents,
              cents_of-fixed2 r.tax_total_cents,
            )
            sound.parts;
      grand =
          rw
            (
              cents_of-fixed2 r.grand_total_cents,
              cents_of-fixed2 n,
              cents_of-fixed2 r.tax_total_cents,
            )
            sound.grand;
      exported = λ h. ground arith;
      at_home = λ h. (refl, refl);
    }

-- What a domestic invoice is built from.
pub build_domestic-ok :
    (client : Client) (profile : Option Profile) (lines : List Line) (n : ℕ) (today : Date)
    {c : Charges}
    → build_domestic client profile lines n today ≡ ok c
    → (supplier : Text) × (state : Text) × (state_code_from_gstin (gstin_of profile)
        ≡ some supplier)
      × (nonempty client.state_code ≡ some state)
      × (c ≡ domestic_charges state today n (compute_gst n (gst_lines lines) supplier state))
unfolding build_domestic
build_domestic-ok client profile lines n today h =
    elim (Option-cases (state_code_from_gstin (gstin_of profile))) [
      | inl e ↦ cc (rw e at h)
      | inr (supplier, e) ↦ elim (Option-cases (nonempty client.state_code)) [
        | inl f ↦ cc (rw (e, f) at h)
        | inr (state, f) ↦ (supplier, state, e, f, ground arith)
      ]
    ]

module _ {W R : Type 0} (num : Double W) (live : Text → Text → Option (LiveAnswer W))
    (redis : Cache R (CapturedRate W)) where
  charges_of-AddsUp :
      (kind : ClientType) (client : Client) (profile : Option Profile) (sac : Text)
      (is : List (InvoiceItemDto W)) (date today : Date) (asked : Option Text) (rates : R)
      {charges : Charges} {rates' : R}
      → let lines = lines_of num sac is in
        charges_of num live redis kind client profile lines date today asked rates
          ≡ ok (charges, rates')
        → AddsUp date (map (λ l. l.item) lines) charges
  unfolding build_export
  charges_of-AddsUp ClientType.domestic client profile sac is date today asked rates {charges} h =
      let lines = lines_of num sac is in
      elim (Result-cases (build_domestic client profile lines (sum_cents lines) today)) [
        | inr (e, k) ↦ ground (arith, k)
        | inl (c, k) ↦
            let (supplier, state, e, f, same) =
              build_domestic-ok client profile lines (sum_cents lines) today k in
            let it : c ≡ charges = ground arith in
            rw (sym it, same)
              (domestic-AddsUp (gst_lines lines) supplier state today date (map (λ l. l.item) lines)
                (sum_cents lines) (total_of-lines num sac is))
      ]
  charges_of-AddsUp ClientType.foreign client profile sac is date today asked rates {charges} h =
      let lines = lines_of num sac is in
      let captured = (capture num live redis (export_currency asked) (iso_date date) rates).0 in
      let it : export_charges num profile (export_currency asked) captured (sum_cents lines) date
          ≡ charges =
        ground arith in
      rw (sym it) (
        export-AddsUp num profile (export_currency asked) captured date (map (λ l. l.item) lines)
          (sum_cents lines) (total_of-lines num sac is))

  module _ (db : Mongo) where
    created-ok :
        (doc : Invoice) (rates : R) (counters : List Counter) (s : Store R) (w : Written Invoice)
        {inv : Invoice} {t : Store R}
        → created num live redis db doc rates counters s w ≡ (ok inv, t)
        → inv ≡ doc
    created-ok doc rates counters s (duplicate k) h = ground arith
    created-ok doc rates counters s (written ys) h = ground arith

    saved-ok :
        (doc : Invoice) (rates : R) (counters : List Counter) (s : Store R) (b : Bool)
        {inv : Invoice} {t : Store R}
        → saved num live redis db doc rates counters s b ≡ (ok inv, t)
        → inv ≡ doc
    saved-ok doc rates counters s true h =
        created-ok doc rates counters s (db.create invoice_indexes doc s.invoices) h
    saved-ok doc rates counters s false h = ground arith

    pub numbered-ok :
        (new_id org client_id : DocId) (date : Date) (lines : List Line) (charges : Charges)
        (rates : R) (s : Store R) {inv : Invoice} {t : Store R}
        → numbered num live redis db new_id org client_id date lines charges rates s ≡ (ok inv, t)
        → (inv.charges ≡ charges)
          × (inv.items ≡ map (λ l. l.item) lines)
          × (inv.invoice_date ≡ date)
    unfolding numbered
    numbered-ok new_id org client_id date lines charges rates s h =
        let (number, counters) = allocate db (decimal org) (financial_year_of date) s.counters in
        let doc : Invoice =
          invoice_of num live redis db new_id org client_id date lines charges number in
        let it = saved-ok doc rates counters s (all is_filled doc.items) h in
        (ap (λ i. i.charges) it, ap (λ i. i.items) it, ap (λ i. i.invoice_date) it)

    -- On every invoice that is created, the items add up to the subtotal, the three taxes to the tax
    -- total, and these two to the grand total. An export is not taxed and gets the FEMA due date of its
    -- date; on a domestic invoice the rupee amount is the grand total, and there is no due date.
    pub create-AddsUp :
        (new_id org user : DocId) (today : Date) (dto : CreateInvoiceDto W) (s : Store R)
        {inv : Invoice} {t : Store R}
        → create num live redis db new_id org user today dto s ≡ (ok inv, t)
        → AddsUp inv.invoice_date inv.items inv.charges
    create-AddsUp new_id org user today dto s {inv} h =
        elim (create-cases num live redis db new_id org user today dto s) [
          | inl (e, refused) ↦ ground arith
          | inr (client, charges, rates, found, built, e) ↦
              let (c, i, d) =
                numbered-ok new_id org dto.client_id (get_or dto.invoice_date today)
                  (lines_for num live redis db user dto s) charges rates s (sym e ∙ h) in
              rw (c, i, d)
                (charges_of-AddsUp client.kind client (profile_of num live redis db user s)
                  (default_sac_of (profile_of num live redis db user s)) dto.items
                  (get_or dto.invoice_date today) today dto.currency s.rates built)
        ]
