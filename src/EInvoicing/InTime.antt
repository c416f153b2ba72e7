-- ===== src/EInvoicing/InTime.antt =====
-- One e-invoice on file for each invoice, and the instants of cancellations.
use crossbill_back.Base.{ℕ, ◌+◌, ◌≤◌, ◌≡◌, refl, List, [], ◌∷◌, Option, String}
use crossbill_back.Base.Http.{Result, ok, err}
use crossbill_back.Mongo.{Mongo}
use crossbill_back.Audit.{DocId}
use crossbill_back.Clients.{find_one_scoped as client_of}
use crossbill_back.Invoices.Changes.{find_one_scoped as invoice_of}
use crossbill_back.EInvoicing.Defs.{EInvoice, EInvoiceProvider, Store}
use crossbill_back.EInvoicing.Handlers.{generate, cancel}
use crossbill_back.EInvoicing.Writes.{IsSound}

-- A request to the service.
pub data Request : Type 0 where
  issue : ℕ → DocId → DocId → Option DocId → Request
  withdraw : ℕ → ℕ → DocId → DocId → String → Option DocId → Request

-- The provider answers a cancellation within the latency: the second reading of the clock is no later.
abbrev pub IsPrompt : ℕ → Request → Type 0
IsPrompt latency (issue now org i user) = Unit
IsPrompt latency (withdraw checked_at stamped_at org i reason user) =
    stamped_at ≤ checked_at + latency

module _ (provider : EInvoiceProvider) (db : Mongo) {W : Type 0} where
  abbrev pub store_after : Store W → Result (EInvoice × Store W) → Store W
  store_after s (ok r) = r.1
  store_after s (err e) = s

  -- The store after a sequence of requests, refused ones among them.
  unfoldable pub serve_one : Request → Store W → Store W
  serve_one (issue now org i user) s = store_after s (generate provider db now org i user s)
  serve_one (withdraw checked_at stamped_at org i reason user) s =
      store_after s (cancel provider db checked_at stamped_at org i reason user s)

  unfoldable pub serve : List Request → Store W → Store W
  unfolding serve_one
  serve [] s = s
  serve (q ∷ qs) s = serve qs (serve_one q s)

module _ (latency : ℕ) (provider : EInvoiceProvider) (db : Mongo) {W : Type 0} where
  after :
      (s : Store W) (r : Result (EInvoice × Store W))
      → ((x : EInvoice × Store W) → r ≡ ok x → IsSound latency x.1.einvoices)
      → IsSound latency s.einvoices
      → IsSound latency (store_after provider db s r).einvoices
  after s (ok x) h k = h x refl
  after s (err e) h k = k
