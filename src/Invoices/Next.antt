-- ===== src/Invoices/Next.antt =====
-- The creation of invoices: the number it takes, and the three ends it can have.
use text.Mathlib.Text.{◌==◌ as same_text}
use crossbill_back.Base.{
  Bool, true, false, not, ◌&&◌, all, map, All, Bool-cases, suc, ◌≡◌, refl, ap, ◌∙◌, ◌⊎◌, inl, inr,
  List, [], ◌∷◌, none, Option, get_or,
}
use crossbill_back.Base.Text.{Text}
use crossbill_back.Base.Decimal.{decimal}
use crossbill_back.Base.Doubles.{Double}
use crossbill_back.Base.Http.{Result, ok, err, HttpError, internal_server_error}
use crossbill_back.Mongo.{Mongo, written, violated, write_if}
use crossbill_back.Audit.{DocId}
use crossbill_back.FinancialYear.{Date, financial_year_of}
use crossbill_back.Numbering.{Counter, format}
use crossbill_back.Numbering.Gapless.{bumped, allocate_lem, last_of-bumped_self}
use crossbill_back.Invoices.Rates.{CapturedRate, LiveAnswer, Cache}
use crossbill_back.Invoices.Defs.{
  Charges, Invoice, InvoiceItemDto, CreateInvoiceDto, Store, invoice_indexes,
}
use crossbill_back.Invoices.Handlers.{Line, default_sac_of}
use crossbill_back.Invoices.Create.{
  create, created, saved, is_filled, lines_of, profile_of, numbered, invoice_of,
}
use crossbill_back.Invoices.Outcome.{create-cases, lines_for}
use crossbill_back.Invoices.Numbers.{IsIssued, counter_key, last_number, next-fresh}

-- Each item of a request has a description.
abbrev pub is_described : {W : Type 0} → CreateInvoiceDto W → Bool
is_described dto = all (λ i. not (same_text i.description "")) dto.items

lines-is_described :
    {W : Type 0} (num : Double W) (sac : Text) (is : List (InvoiceItemDto W))
    → all is_filled (map (λ l. l.item) (lines_of num sac is))
      ≡ all (λ i. not (same_text i.description "")) is
lines-is_described num sac [] = refl
lines-is_described num sac (i ∷ is) =
    ap (λ b. not (same_text i.description "") && b) (lines-is_described num sac is)

module _ {W R : Type 0} (num : Double W) (live : Text → Text → Option (LiveAnswer W))
    (redis : Cache R (CapturedRate W)) (db : Mongo) where
  -- The creation has filed `inv` with the next number of its series.
  pub record IsNext (org : DocId) (s : Store R) (inv : Invoice) (t : Store R) : Type 0 where
    pub owner : inv.org_id ≡ org
    pub number :
        inv.number ≡ format inv.financial_year (suc (last_number org inv.financial_year s.counters))
    pub counters : t.counters ≡ (bumped (counter_key org inv.financial_year) s.counters).1
    pub invoices : t.invoices ≡ inv ∷ s.invoices

  from_number :
      DocId
      → DocId
      → DocId
      → Date
      → List Line
      → Charges
      → R
      → Store R
      → Text × List Counter
      → Result Invoice × Store R
  from_number new_id org client_id date lines charges rates s (number, counters) =
      let doc : Invoice =
        invoice_of num live redis db new_id org client_id date lines charges number in
      saved num live redis db doc rates counters s (all is_filled doc.items)

  numbered-IsNext :
      (new_id org client_id : DocId) (date : Date) (lines : List Line) (charges : Charges)
      (rates : R) (s : Store R)
      → all is_filled (map (λ l. l.item) lines) ≡ true
      → All (IsIssued s.counters) s.invoices
      → (inv : Invoice) × (t : Store R) × (numbered num live redis db new_id org client_id date
            lines charges rates s
          ≡ (ok inv, t))
        × (inv.charges ≡ charges)
        × IsNext org s inv t
  unfolding numbered from_number
  numbered-IsNext new_id org client_id date lines charges rates s filled h =
      let fy = financial_year_of date in
      let number = format fy (suc (last_number org fy s.counters)) in
      let doc : Invoice =
        invoice_of num live redis db new_id org client_id date lines charges number in
      let fresh : violated invoice_indexes doc s.invoices ≡ none =
        next-fresh doc s.counters s.invoices refl h in
      let counters : List Counter = (bumped (counter_key org fy) s.counters).1 in
      let wrote : db.create invoice_indexes doc s.invoices ≡ written (doc ∷ s.invoices) =
        db.create_lem invoice_indexes doc s.invoices
        ∙ ap (λ o. write_if o (doc ∷ s.invoices)) fresh in
      (
        doc,
        (created num live redis db doc rates counters s (written (doc ∷ s.invoices))).1,
        ap (from_number new_id org client_id date lines charges rates s)
              (allocate_lem db (decimal org) fy s.counters)
            ∙ ap (saved num live redis db doc rates counters s) filled
            ∙ ap (created num live redis db doc rates counters s) wrote,
        refl,
        record { owner = refl; number = refl; counters = refl; invoices = refl },
      )

  -- The creation has taken the next number of its series, and filed no invoice.
  pub record IsLost (org : DocId) (fy : Text) (s t : Store R) : Type 0 where
    pub invoices : t.invoices ≡ s.invoices
    pub counters : t.counters ≡ (bumped (counter_key org fy) s.counters).1
    pub last : last_number org fy t.counters ≡ suc (last_number org fy s.counters)

  numbered-IsLost :
      (new_id org client_id : DocId) (date : Date) (lines : List Line) (charges : Charges)
      (rates : R) (s : Store R)
      → all is_filled (map (λ l. l.item) lines) ≡ false
      → (t : Store R) × (numbered num live redis db new_id org client_id date lines charges rates s
          ≡ (err (internal_server_error "Internal server error"), t))
        × IsLost org (financial_year_of date) s t
  unfolding numbered from_number
  numbered-IsLost new_id org client_id date lines charges rates s empty =
      let fy = financial_year_of date in
      let doc : Invoice =
        invoice_of num live redis db new_id org client_id date lines charges
          (format fy (suc (last_number org fy s.counters))) in
      let counters : List Counter = (bumped (counter_key org fy) s.counters).1 in
      (
        record s { rates = rates; counters = counters },
        ap (from_number new_id org client_id date lines charges rates s)
              (allocate_lem db (decimal org) fy s.counters)
            ∙ ap (saved num live redis db doc rates counters s) empty,
        record {
          invoices = refl;
          counters = refl;
          last = last_of-bumped_self (counter_key org fy) s.counters;
        },
      )

  -- If each invoice on file has a number that was given out, a creation has one of three ends. It is
  -- refused and leaves everything as it was, the counters included; or each item has a description, and
  -- it files an invoice with the number that follows the last one of its organisation and financial year;
  -- or an item has an empty description, and the request fails after that number was taken, without an
  -- invoice. It never fails on the unique index.
  pub create-IsNext :
      (new_id org user : DocId) (today : Date) (dto : CreateInvoiceDto W) (s : Store R)
      → All (IsIssued s.counters) s.invoices
      → let run = create num live redis db new_id org user today dto s in
        ((e : HttpError) × (run ≡ (err e, s)))
        ⊎ (((is_described dto ≡ true)
              × ((inv : Invoice) × (t : Store R) × (run ≡ (ok inv, t)) × IsNext org s inv t))
            ⊎ ((is_described dto ≡ false)
                × ((t : Store R) × (run ≡ (err (internal_server_error "Internal server error"), t))
                    × IsLost org (financial_year_of (get_or dto.invoice_date today)) s t)))
  create-IsNext new_id org user today dto s h =
      elim (create-cases num live redis db new_id org user today dto s) [
        | inl refused ↦ inl refused
        | inr (client, charges, rates, found, built, e) ↦
            let date = get_or dto.invoice_date today in
            let lines = lines_for num live redis db user dto s in
            let same : all is_filled (map (λ l. l.item) lines) ≡ is_described dto =
              lines-is_described num (default_sac_of (profile_of num live redis db user s))
                dto.items in
            inr (elim (Bool-cases (is_described dto)) [
              | inl y ↦
                  let (inv, t, done, charged, next) =
                    numbered-IsNext new_id org dto.client_id date lines charges rates s (same ∙ y)
                      h in
                  inl (y, (inv, t, e ∙ done, next))
              | inr n ↦
                  let (t, done, lost) =
                    numbered-IsLost new_id org dto.client_id date lines charges rates s
                      (same ∙ n) in
                  inr (n, (t, e ∙ done, lost))
            ])
      ]
