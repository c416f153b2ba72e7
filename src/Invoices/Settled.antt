-- ===== src/Invoices/Settled.antt =====
-- What has been invoiced stays, and what has been paid stays paid.
use crossbill_back.Base.{
  Bool, true, all, ◌≡◌, refl, sym, ◌∙◌, ◌⊎◌, inl, inr, false, not, ◌&&◌, List, [], ◌∷◌, Option,
  none, some, String, arith, All₂, find?, Memᴰ, modify_first, Option-cases, Bool-cases, get_or,
}
use crossbill_back.Base.Updates.{All₂-refl, All₂-modify_first, All₂-modify_found}
use crossbill_back.Base.Members.{All₂-Memᴰ}
use crossbill_back.Base.Text.{Text}
use crossbill_back.Base.Decimal.{decimal}
use crossbill_back.Base.Doubles.{Double}
use crossbill_back.Mongo.{Mongo, Written, written, duplicate, create-written}
use crossbill_back.Audit.{DocId}
use crossbill_back.Invoices.Rates.{CapturedRate, LiveAnswer, Cache}
use crossbill_back.Invoices.Defs.{
  InvoiceStatus, draft, paid, overdue, Invoice, Store, CreateInvoiceDto, Charges, invoice_indexes,
}
use crossbill_back.Invoices.Handlers.{
  Line, scoped, has_id, is_paid, differs, with_status, with_reminder,
}
use crossbill_back.Invoices.Changes.{
  update, update_from, set_pdf_url, mark_paid, mark_overdue, push_reminder_sent,
}
use crossbill_back.FinancialYear.{Date, financial_year_of}
use crossbill_back.Numbering.{Counter, allocate}
use crossbill_back.Invoices.Create.{create, created, saved, is_filled, numbered, invoice_of}
use crossbill_back.Invoices.Outcome.{create-cases, lines_for}
use crossbill_back.Invoices.Requests.{Request, invoices_after, serve_one, serve}

-- An invoice without its status, its PDF and its reminders: the number, the parties, the items and all
-- amounts are left.
abbrev pub figures : Invoice → Invoice
figures inv = record inv { status = draft; pdf_url = none; fema_reminders_sent = [] }

abbrev pub Settles : Invoice → Invoice → Type 0
Settles a b = (figures b ≡ figures a) × (a.status ≡ paid → b.status ≡ paid)

Settles-refl : (a : Invoice) → Settles a a
Settles-refl a = (refl, λ h. h)

-- A list after a write that may have been refused.
abbrev WrittenStatus : DocId → DocId → List Invoice → List Invoice → Type 0
WrittenStatus org i xs ys =
    (ys ≡ xs)
    ⊎ ((c : Invoice) × (status : InvoiceStatus) × (find? (scoped org i) xs ≡ some c)
        × (is_paid c.status ≡ false)
        × (ys ≡ modify_first (scoped org i) (with_status status) xs))

unpaid-Settles :
    (status : InvoiceStatus) (a : Invoice)
    → is_paid a.status ≡ false
    → Settles a (with_status status a)
unpaid-Settles status a h = (refl, λ e. ground arith)

module _ (db : Mongo) where
  update_from-wrote :
      (org i : DocId) (asked : Option InvoiceStatus) (c : Invoice) (xs : List Invoice)
      → find? (scoped org i) xs ≡ some c
      → WrittenStatus org i xs (invoices_after xs (update_from db org i asked c xs))
  update_from-wrote org i none c xs e = inl refl
  update_from-wrote org i (some status) c xs e = elim (Bool-cases (differs status c.status)) [
    | inr n ↦ inl (rw n refl)
    | inl y ↦ elim (Bool-cases (is_paid c.status)) [
      | inl p ↦ inl (rw (y, p) refl)
      | inr p ↦
          elim (Option-cases
            (db.find_one (scoped org i) (db.update_one (scoped org i) (with_status status) xs))) [
              | inl q ↦ inl (rw (y, p, q) refl)
              | inr (d, q) ↦ inr (
                c,
                status,
                e,
                p,
                rw (y, p, q) (db.update_one_lem (scoped org i) (with_status status) xs),
              )
            ]
    ]
  ]

  pub update-Settles :
      (org i : DocId) (asked : Option InvoiceStatus) (xs : List Invoice)
      → All₂ Settles xs (invoices_after xs (update db org i asked xs))
  unfolding update
  update-Settles org i asked xs = elim (Option-cases (db.find_one (scoped org i) xs)) [
    | inl e ↦ rw e (All₂-refl Settles Settles-refl xs)
    | inr (c, e) ↦
        elim (update_from-wrote org i asked c xs (sym (db.find_one_lem (scoped org i) xs) ∙ e)) [
          | inl same ↦ rw (e, same) (All₂-refl Settles Settles-refl xs)
          | inr (d, status, found, free, wrote) ↦
              rw (e, wrote)
                (All₂-modify_found Settles Settles-refl (scoped org i) (with_status status) xs found
                  (unpaid-Settles status d free))
        ]
  ]

  pub mark_overdue-Settles :
      (i : DocId) (xs : List Invoice) → All₂ Settles xs (mark_overdue db i xs)
  unfolding mark_overdue
  mark_overdue-Settles i xs =
      rw
        (db.update_one_lem (λ inv. has_id i inv && not (is_paid inv.status)) (with_status overdue)
          xs)
        (All₂-modify_first Settles Settles-refl (λ inv. has_id i inv && not (is_paid inv.status))
          (with_status overdue) xs (λ a h. unpaid-Settles overdue a (ground arith)))

  pub mark_paid-Settles :
      (org i : DocId) (xs : List Invoice) → All₂ Settles xs (mark_paid db org i xs)
  unfolding mark_paid
  mark_paid-Settles org i xs = rw (db.update_one_lem (scoped org i) (with_status paid) xs) (
      All₂-modify_first Settles Settles-refl (scoped org i) (with_status paid) xs
        (λ a h. (refl, λ e. refl)))

  pub set_pdf_url-Settles :
      (i : DocId) (url : String) (xs : List Invoice) → All₂ Settles xs (set_pdf_url db i url xs)
  unfolding set_pdf_url
  set_pdf_url-Settles i url xs =
      rw (db.update_one_lem (has_id i) (λ inv. record inv { pdf_url = some url }) xs) (
        All₂-modify_first Settles Settles-refl (has_id i) (λ inv. record inv { pdf_url = some url })
          xs (λ a h. (refl, λ e. e)))

  pub push_reminder_sent-Settles :
      (i : DocId) (k : String) (xs : List Invoice) → All₂ Settles xs (push_reminder_sent db i k xs)
  unfolding push_reminder_sent
  push_reminder_sent-Settles i k xs = rw (db.update_one_lem (has_id i) (with_reminder k) xs) (
      All₂-modify_first Settles Settles-refl (has_id i) (with_reminder k) xs
        (λ a h. (refl, λ e. e)))

-- The invoice is on file with its figures, and is paid if `a` was.
abbrev pub Stays : Invoice → List Invoice → Type 0
Stays a xs = (b : Invoice) × Memᴰ b xs × Settles a b

module _ {W R : Type 0} (num : Double W) (live : Text → Text → Option (LiveAnswer W))
    (redis : Cache R (CapturedRate W)) (db : Mongo) where
  created-Memᴰ :
      {a : Invoice} (doc : Invoice) (rates : R) (counters : List Counter) (s : Store R)
      (w : Written Invoice)
      → db.create invoice_indexes doc s.invoices ≡ w
      → Memᴰ a s.invoices
      → Memᴰ a (created num live redis db doc rates counters s w).1.invoices
  created-Memᴰ doc rates counters s (duplicate k) e m = m
  created-Memᴰ doc rates counters s (written ys) e m =
      rw (create-written db invoice_indexes doc s.invoices e).1 (Memᴰ.tail m)

  saved-Memᴰ :
      {a : Invoice} (doc : Invoice) (rates : R) (counters : List Counter) (s : Store R) (b : Bool)
      → Memᴰ a s.invoices
      → Memᴰ a (saved num live redis db doc rates counters s b).1.invoices
  saved-Memᴰ doc rates counters s true m =
      created-Memᴰ doc rates counters s (db.create invoice_indexes doc s.invoices) refl m
  saved-Memᴰ doc rates counters s false m = m

  numbered-Memᴰ :
      {a : Invoice} (new_id org client_id : DocId) (date : Date) (lines : List Line)
      (charges : Charges) (rates : R) (s : Store R)
      → Memᴰ a s.invoices
      → Memᴰ a
          (numbered num live redis db new_id org client_id date lines charges rates s).1.invoices
  unfolding numbered
  numbered-Memᴰ new_id org client_id date lines charges rates s m =
      let (number, counters) = allocate db (decimal org) (financial_year_of date) s.counters in
      let doc = invoice_of num live redis db new_id org client_id date lines charges number in
      saved-Memᴰ doc rates counters s (all is_filled doc.items) m

  create-Memᴰ :
      {a : Invoice} (new_id org user : DocId) (today : Date) (dto : CreateInvoiceDto W)
      (s : Store R)
      → Memᴰ a s.invoices
      → Memᴰ a (create num live redis db new_id org user today dto s).1.invoices
  create-Memᴰ new_id org user today dto s m =
      elim (create-cases num live redis db new_id org user today dto s) [
        | inl (e, h) ↦ rw h m
        | inr (client, charges, rates, found, built, h) ↦ rw h (
            numbered-Memᴰ new_id org dto.client_id (get_or dto.invoice_date today)
              (lines_for num live redis db user dto s) charges rates s m)
      ]

  serve_one-Stays :
      (q : Request W) (s : Store R) {a : Invoice}
      → Memᴰ a s.invoices
      → Stays a (serve_one num live redis db q s).invoices
  unfolding serve_one
  serve_one-Stays (Request.raise new_id org user today dto) s {a} m =
      (a, create-Memᴰ new_id org user today dto s m, Settles-refl a)
  serve_one-Stays (Request.change org i asked) s m =
      All₂-Memᴰ Settles s.invoices _ (update-Settles db org i asked s.invoices) m
  serve_one-Stays (Request.printed i url) s m =
      All₂-Memᴰ Settles s.invoices _ (set_pdf_url-Settles db i url s.invoices) m
  serve_one-Stays (Request.settle org i) s m =
      All₂-Memᴰ Settles s.invoices _ (mark_paid-Settles db org i s.invoices) m
  serve_one-Stays (Request.lapse i) s m =
      All₂-Memᴰ Settles s.invoices _ (mark_overdue-Settles db i s.invoices) m
  serve_one-Stays (Request.remind i k) s m =
      All₂-Memᴰ Settles s.invoices _ (push_reminder_sent-Settles db i k s.invoices) m

  -- Whatever requests and jobs follow, in any order and with refusals among them, an invoice on file
  -- stays on file with the same number, parties, items and amounts, and once it is paid it stays paid.
  pub serve-Stays :
      (qs : List (Request W)) (s : Store R) {a : Invoice}
      → Memᴰ a s.invoices
      → Stays a (serve num live redis db qs s).invoices
  unfolding serve
  serve-Stays [] s {a} m = (a, m, Settles-refl a)
  serve-Stays (q ∷ qs) s {a} m =
      let (b, m', (same, still)) = serve_one-Stays q s m in
      let (c, m'', (same', still')) = serve-Stays qs (serve_one num live redis db q s) m' in
      (c, m'', (same' ∙ same, λ h. still' (still h)))
