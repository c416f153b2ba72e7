-- ===== src/Notes/Outcome.antt =====
-- What the creation of a note leaves.
use crossbill_back.Base.{
  Bool, true, false, suc, ◌+◌, ◌≡◌, refl, sym, ap, ◌∙◌, inl, inr, List, map, Option, none, some,
  String, arith,
}
use crossbill_back.Base.Text.{Text}
use crossbill_back.Base.Decimal.{decimal}
use crossbill_back.Base.Money.{cents_of, cents_of-fixed2}
use crossbill_back.Base.Doubles.{Double}
use crossbill_back.Base.Http.{ok, Result-cases}
use crossbill_back.Mongo.{Mongo, Written, written, duplicate}
use crossbill_back.Audit.{DocId}
use crossbill_back.FinancialYear.{Date, financial_year_of}
use crossbill_back.Gst.{igst}
use crossbill_back.Numbering.{Counter, Series, key_of, format_with, allocate_series}
use crossbill_back.Numbering.Gapless.{last_of, bumped, allocate_series_lem}
use crossbill_back.Clients.{Client, find_one_scoped as client_of}
use crossbill_back.Invoices.Defs.{Invoice}
use crossbill_back.Invoices.Handlers.{Line, sum_cents, default_sac_of}
use crossbill_back.Invoices.Create.{lines_of}
use crossbill_back.Invoices.Amounts.{total_of, total_of-lines}
use crossbill_back.Invoices.Changes.{find_one_scoped as invoice_of}
use crossbill_back.Notes.Defs.{NoteTax, Note, note_indexes, CreateNoteDto, Store}
use crossbill_back.Notes.Create.{
  tax_of, prefix_of, note_of, printed, filed, saved, is_complete, numbered, profile_of, for_client,
  for_invoice, create,
}
use crossbill_back.Notes.Taxes.{tax_of-TaxAddsUp}

-- A rendering adds the document alone.
abbrev unprinted : Note → Note
unprinted note = record note { pdf_url = none }

printed-unprinted :
    (url : Option String) (note : Note)
    → unprinted (elim url [ none ↦ note | some u ↦ record note { pdf_url = some u } ])
      ≡ unprinted note
printed-unprinted none note = refl
printed-unprinted (some u) note = refl

module _ {W : Type 0} (num : Double W) (render : Note → Option String) (db : Mongo) where
  filed-ok :
      (new_id org : DocId) (note : Note) (counters : List Counter) (s : Store) (w : Written Note)
      {n : Note} {t : Store}
      → filed num render db new_id org note counters s w ≡ (ok n, t)
      → (n ≡ printed render note) × (t.counters ≡ counters)
  filed-ok new_id org note counters s (duplicate k) h = ground arith
  filed-ok new_id org note counters s (written ys) h = ground arith

  saved-ok :
      (new_id org : DocId) (note : Note) (counters : List Counter) (s : Store) (b : Bool) {n : Note}
      {t : Store}
      → saved num render db new_id org note counters s b ≡ (ok n, t)
      → (n ≡ printed render note) × (t.counters ≡ counters)
  saved-ok new_id org note counters s true h =
      filed-ok new_id org note counters s (db.create note_indexes note s.notes) h
  saved-ok new_id org note counters s false h = ground arith

  abbrev lines_for : DocId → CreateNoteDto W → Store → List Line
  lines_for user dto s = lines_of num (default_sac_of (profile_of num render db user s)) dto.items

  numbered-ok :
      (new_id org : DocId) (today : Date) (invoice : Invoice) (dto : CreateNoteDto W)
      (lines : List Line) (tax : NoteTax) (s : Store) {n : Note} {t : Store}
      → numbered num render db new_id org today invoice dto lines tax s ≡ (ok n, t)
      → let fy = financial_year_of today in
        let k = key_of (Series.notes (decimal org) fy (prefix_of dto.kind)) in
        (unprinted n
          ≡ note_of new_id org today invoice dto lines tax
              (format_with (prefix_of dto.kind) fy (suc (last_of k s.counters))))
        × (t.counters ≡ (bumped k s.counters).1)
  unfolding numbered
  numbered-ok new_id org today invoice dto lines tax s h =
      let got =
        allocate_series db (decimal org) (financial_year_of today) (prefix_of dto.kind)
          s.counters in
      let note : Note = note_of new_id org today invoice dto lines tax got.0 in
      let given =
        allocate_series_lem db (decimal org) (financial_year_of today) (prefix_of dto.kind)
          s.counters in
      let (it, counters) = saved-ok new_id org note got.1 s (is_complete note) h in
      (
        ap unprinted it
            ∙ printed-unprinted (render note) note
            ∙ ap (note_of new_id org today invoice dto lines tax) (ap (λ x. x.0) given),
        counters ∙ ap (λ x. x.1) given,
      )

  -- The note that a creation makes, without its document: of which invoice and client, and with which number.
  create-ok :
      (new_id org user : DocId) (today : Date) (dto : CreateNoteDto W) (s : Store) {n : Note}
      {t : Store}
      → create num render db new_id org user today dto s ≡ (ok n, t)
      → (invoice : Invoice) × (client : Client) × (invoice_of db org dto.invoice_id s.invoices
          ≡ ok invoice)
        × (client_of db org invoice.client_id s.base ≡ ok client)
        × (let fy = financial_year_of today in
            let lines = lines_for user dto s in
            let k = key_of (Series.notes (decimal org) fy (prefix_of dto.kind)) in
            let tax = tax_of invoice.charges.kind (profile_of num render db user s) client lines in
            (unprinted n
              ≡ note_of new_id org today invoice dto lines tax
                  (format_with (prefix_of dto.kind) fy (suc (last_of k s.counters))))
            × (t.counters ≡ (bumped k s.counters).1))
  unfolding create
  create-ok new_id org user today dto s {n} {t} h =
      elim (Result-cases (invoice_of db org dto.invoice_id s.invoices)) [
        | inr (e, q) ↦ ground (arith, ap (for_invoice num render db new_id org user today dto s) q)
        | inl (invoice, q) ↦ elim (Result-cases (client_of db org invoice.client_id s.base)) [
          | inr (e, c) ↦ ground (
            arith,
            ap (for_invoice num render db new_id org user today dto s) q,
            ap (for_client num render db new_id org user today dto s invoice) c,
          )
          | inl (client, c) ↦
              let lines = lines_for user dto s in
              let tax =
                tax_of invoice.charges.kind (profile_of num render db user s) client lines in
              let run : create num render db new_id org user today dto s
                  ≡ numbered num render db new_id org today invoice dto lines tax s =
                ap (for_invoice num render db new_id org user today dto s) q
                ∙ ap (for_client num render db new_id org user today dto s invoice) c in
              (
                invoice,
                client,
                q,
                c,
                numbered-ok new_id org today invoice dto lines tax s (sym run ∙ h),
              )
        ]
      ]

  -- The note refers to `invoice`, its amounts add up, and it has the next number of its series.
  pub record IsNote (org : DocId) (s : Store) (invoice : Invoice) (n : Note) (t : Store)
      : Type 0 where
    pub refers :
        (n.invoice_id ≡ invoice.id)
        × (n.invoice_number ≡ invoice.number)
        × (n.currency ≡ invoice.charges.currency)
    pub subtotal : cents_of n.subtotal ≡ total_of n.items
    pub parts :
        cents_of n.tax.cgst + cents_of n.tax.sgst + cents_of n.tax.igst ≡ cents_of n.tax.tax_total
    pub grand : cents_of n.tax.grand ≡ cents_of n.subtotal + cents_of n.tax.tax_total
    pub number :
        let k = key_of (Series.notes (decimal org) n.financial_year (prefix_of n.kind)) in
        (n.number ≡ format_with (prefix_of n.kind) n.financial_year (suc (last_of k s.counters)))
        × (t.counters ≡ (bumped k s.counters).1)

  -- A note that is created refers to an invoice of its organisation, its items add up to its subtotal,
  -- the taxes to the tax total and these two to the grand total, and it takes the number that follows the
  -- last credit note, or debit note, of the organisation in the financial year.
  pub create-IsNote :
      (new_id org user : DocId) (today : Date) (dto : CreateNoteDto W) (s : Store) {n : Note}
      {t : Store}
      → create num render db new_id org user today dto s ≡ (ok n, t)
      → (invoice : Invoice) × (invoice_of db org dto.invoice_id s.invoices ≡ ok invoice)
        × IsNote org s invoice n t
  create-IsNote new_id org user today dto s {n} {t} h =
      let (invoice, client, q, c, (same, counters)) = create-ok new_id org user today dto s h in
      let lines = lines_for user dto s in
      let (parts, grand) =
        tax_of-TaxAddsUp invoice.charges.kind (profile_of num render db user s) client lines in
      let items : n.items ≡ map (λ l. l.item) lines = ap (λ x. x.items) same in
      let fy : n.financial_year ≡ financial_year_of today = ap (λ x. x.financial_year) same in
      let kind : n.kind ≡ dto.kind = ap (λ x. x.kind) same in
      let subtotal : cents_of n.subtotal ≡ sum_cents lines =
        ap (λ x. cents_of x.subtotal) same ∙ cents_of-fixed2 (sum_cents lines) in
      let tax : n.tax ≡ tax_of invoice.charges.kind (profile_of num render db user s) client lines =
        ap (λ x. x.tax) same in
      (
        invoice,
        q,
        record {
          refers = (
            ap (λ x. x.invoice_id) same,
            ap (λ x. x.invoice_number) same,
            ap (λ x. x.currency) same,
          );
          subtotal =
              subtotal
              ∙ sym (
                  ap total_of items
                  ∙ total_of-lines num (default_sac_of (profile_of num render db user s))
                      dto.items);
          parts = rw tax parts;
          grand = rw (tax, subtotal) grand;
          number = rw (fy, kind) (ap (λ x. x.number) same, counters);
        },
      )
