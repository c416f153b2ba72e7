-- ===== src/Invoices/Requests.antt =====
-- The requests and jobs that write invoices, and a sequence of them: api/src/modules/invoices.
use crossbill_back.Base.{List, [], ◌∷◌, Option, String}
use crossbill_back.Base.Text.{Text}
use crossbill_back.Base.Doubles.{Double}
use crossbill_back.Base.Http.{Result, ok, err}
use crossbill_back.Mongo.{Mongo}
use crossbill_back.Audit.{DocId}
use crossbill_back.FinancialYear.{Date}
use crossbill_back.Invoices.Rates.{CapturedRate, LiveAnswer, Cache}
use crossbill_back.Invoices.Defs.{InvoiceStatus, Invoice, CreateInvoiceDto, Store}
use crossbill_back.Invoices.Create.{create}
use crossbill_back.Invoices.Changes.{
  update, set_pdf_url, mark_paid, mark_overdue, push_reminder_sent,
}

pub data Request (W : Type 0) : Type 0 where
  raise : DocId → DocId → DocId → Date → CreateInvoiceDto W → Request W
  change : DocId → DocId → Option InvoiceStatus → Request W
  printed : DocId → String → Request W
  settle : DocId → DocId → Request W
  lapse : DocId → Request W
  remind : DocId → String → Request W

abbrev pub invoices_after : List Invoice → Result (Invoice × List Invoice) → List Invoice
invoices_after xs (err e) = xs
invoices_after xs (ok (doc, ys)) = ys

module _ {W R : Type 0} (num : Double W) (live : Text → Text → Option (LiveAnswer W))
    (redis : Cache R (CapturedRate W)) (db : Mongo) where
  -- The store after a request, whether it was refused or not.
  unfoldable pub serve_one : Request W → Store R → Store R
  serve_one (raise new_id org user today dto) s =
      (create num live redis db new_id org user today dto s).1
  serve_one (change org i asked) s = record s {
    invoices = invoices_after s.invoices (update db org i asked s.invoices);
  }
  serve_one (printed i url) s = record s { invoices = set_pdf_url db i url s.invoices }
  serve_one (settle org i) s = record s { invoices = mark_paid db org i s.invoices }
  serve_one (lapse i) s = record s { invoices = mark_overdue db i s.invoices }
  serve_one (remind i k) s = record s { invoices = push_reminder_sent db i k s.invoices }

  unfoldable pub serve : List (Request W) → Store R → Store R
  unfolding serve_one
  serve [] s = s
  serve (q ∷ qs) s = serve qs (serve_one q s)
