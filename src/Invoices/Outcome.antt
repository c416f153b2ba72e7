-- ===== src/Invoices/Outcome.antt =====
-- How the creation of an invoice ends.
use crossbill_back.Base.{◌≡◌, ap, ◌∙◌, ◌⊎◌, inl, inr, List, Option, get_or}
use crossbill_back.Base.Text.{Text}
use crossbill_back.Base.Doubles.{Double}
use crossbill_back.Base.Http.{Result, ok, err, HttpError, Result-cases}
use crossbill_back.Mongo.{Mongo}
use crossbill_back.Audit.{DocId}
use crossbill_back.FinancialYear.{Date}
use crossbill_back.Clients.{Client, find_one_scoped as client_of}
use crossbill_back.Invoices.Rates.{CapturedRate, LiveAnswer, Cache}
use crossbill_back.Invoices.Defs.{Charges, Invoice, CreateInvoiceDto, Store}
use crossbill_back.Invoices.Handlers.{Line, default_sac_of}
use crossbill_back.Invoices.Create.{
  lines_of, charges_of, profile_of, numbered, charged, billed, create,
}

module _ {W R : Type 0} (num : Double W) (live : Text → Text → Option (LiveAnswer W))
    (redis : Cache R (CapturedRate W)) (db : Mongo) where
  -- The lines of a request, as the creation takes them.
  abbrev pub lines_for : DocId → CreateInvoiceDto W → Store R → List Line
  lines_for user dto s =
      lines_of num (default_sac_of (profile_of num live redis db user s)) dto.items

  abbrev pub charges_for :
      DocId → Date → CreateInvoiceDto W → Store R → Client → Result (Charges × R)
  charges_for user today dto s client =
      charges_of num live redis client.kind client (profile_of num live redis db user s)
        (lines_for user dto s) (get_or dto.invoice_date today) today dto.currency s.rates

  -- A creation is refused and leaves the store, or gets as far as the number.
  pub create-cases :
      (new_id org user : DocId) (today : Date) (dto : CreateInvoiceDto W) (s : Store R)
      → ((e : HttpError) × (create num live redis db new_id org user today dto s ≡ (err e, s)))
        ⊎ ((client : Client) × (charges : Charges) × (rates : R) × (client_of db org dto.client_id
                s.base
              ≡ ok client)
            × (charges_for user today dto s client ≡ ok (charges, rates))
            × (create num live redis db new_id org user today dto s
                ≡ numbered num live redis db new_id org dto.client_id
                    (get_or dto.invoice_date today)
                    (lines_for user dto s)
                    charges
                    rates
                    s))
  unfolding create
  create-cases new_id org user today dto s =
      elim (Result-cases (client_of db org dto.client_id s.base)) [
        | inr (e, h) ↦ inl (e, ap (billed num live redis db new_id org user today dto s) h)
        | inl (client, h) ↦ elim (Result-cases (charges_for user today dto s client)) [
          | inr (e, k) ↦ inl (e, opened client h ∙ ap (ends dto) k)
          | inl ((charges, rates), k) ↦
              inr (client, charges, rates, h, k, opened client h ∙ ap (ends dto) k)
        ]
      ]
    where
      ends : CreateInvoiceDto W → Result (Charges × R) → Result Invoice × Store R
      ends dto r =
          charged num live redis db new_id org dto.client_id (get_or dto.invoice_date today)
            (lines_for user dto s) s r

      opened :
          (client : Client)
          → client_of db org dto.client_id s.base ≡ ok client
          → create num live redis db new_id org user today dto s
            ≡ ends dto (charges_for user today dto s client)
      opened client h = ap (billed num live redis db new_id org user today dto s) h
