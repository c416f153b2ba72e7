-- ===== src/Invoices/Tests.antt =====
-- An organisation's first invoices: quantities and rates are whole hundredths here.
use crossbill_back.Base.{
  ℕ, true, false, ◌+◌, ◌*◌, ◌/◌, ◌≡◌, ◌⊎◌, refl, inl, inr, List, [], ◌∷◌, Option, none, some, Memᴰ,
  ltb, arith,
}
use crossbill_back.Base.Text.{Text, codes}
use crossbill_back.Base.Decimal.{decimal}
use crossbill_back.Base.Money.{fixed2, cents_of}
use crossbill_back.Base.Doubles.{Double}
use crossbill_back.Base.Http.{ok, err, HttpError, internal_server_error}
use crossbill_back.Mongo.InMemory.{in_memory}
use crossbill_back.FinancialYear.{Date, financial_year_of}
use crossbill_back.Gst.{compute_gst, add_lines}
use crossbill_back.States.{state_code_from_gstin, india_states}
use crossbill_back.Clients.{Client, ClientType, find_one_scoped}
use crossbill_back.Invoices.Rates.{CapturedRate, LiveAnswer, Cache}
use crossbill_back.Invoices.Defs.{
  sent, paid, draft, Invoice, CreateInvoiceDto, Profile, Store, Charges,
}
use crossbill_back.Invoices.Handlers.{build_domestic, domestic_charges}
use crossbill_back.Invoices.Create.{create, numbered, profile_of}
use crossbill_back.Invoices.Requests.{Request, raise, change, settle, lapse, serve}
use crossbill_back.Invoices.Numbers.{IsGapless}
use crossbill_back.Invoices.Next.{IsNext, IsLost, is_described, create-IsNext}
use crossbill_back.Invoices.Gapless.{serve-IsGapless}
use crossbill_back.Invoices.Amounts.{AddsUp}
use crossbill_back.Invoices.Charged.{IsTaxed, HasRate, create-IsCharged}
use crossbill_back.Invoices.Untaxed.{create-Untaxed}
use crossbill_back.Invoices.Settled.{Stays, serve-Stays}

abbrev hundredths : Double ℕ
hundredths = record {
  of_hundredths = λ n. n;
  is_positive = λ n. ltb 0 n;
  to_fixed = λ d n. fixed2 n;
  product_cents = λ q u. q * u / 100;
  scaled_cents = λ n r. n * r / 100;
}

abbrev no_source : Text → Text → Option (LiveAnswer ℕ)
no_source cur date = none

abbrev no_cache : Cache (Unit {0}) (CapturedRate ℕ)
no_cache = record { get = λ k r. none; set = λ k v t r. r }

abbrev client : Client
client = record {
  id = 4;
  org_id = 9;
  kind = ClientType.domestic;
  name = "Initech";
  email = none;
  address = none;
  country = none;
  state_code = some (codes "29");
  gstin = none;
  customer_type = none;
}

abbrev seller : Profile
seller = record {
  id = 7;
  gstin = some (codes "27AAPFU0939F1ZV");
  default_sac = none;
  lut_number = none;
  lut_arn = none;
  lut_fy = none;
}

abbrev empty : Store (Unit {0})
empty = record {
  base = record { clients = client ∷ []; events = [] };
  profiles = seller ∷ [];
  counters = [];
  rates = tt;
  invoices = [];
  pdf_jobs = [];
}

abbrev day : Date
day = record { year = 2026; month = 5; day = 12 }

abbrev request : Option ℕ → CreateInvoiceDto ℕ
request rate = record {
  client_id = 4;
  invoice_date = none;
  currency = none;
  items =
      record {
        description = "Design";
        sac_code = none;
        quantity = 200;
        unit_amount = 500000;
        gst_rate = rate;
      }
      ∷ [];
}

abbrev requests : List (Request ℕ)
requests =
    raise 1 9 7 day (request (some 18))
    ∷ change 9 1 (some sent)
    ∷ settle 9 1
    ∷ raise 2 9 7 day (request none)
    ∷ change 9 1 (some draft)
    ∷ lapse 1
    ∷ []

nothing-IsGapless : IsGapless empty.counters empty.invoices
nothing-IsGapless = record { issued = tt; complete = λ org fy n low high. ground arith }

serve-IsGapless_example :
    IsGapless
      (serve hundredths no_source no_cache in_memory requests empty).counters
      (serve hundredths no_source no_cache in_memory requests empty).invoices
serve-IsGapless_example =
    serve-IsGapless hundredths no_source no_cache in_memory requests empty
      (refl, (tt, (tt, (refl, (tt, (tt, tt)))))) nothing-IsGapless

create-IsNext_example :
    let run = create hundredths no_source no_cache in_memory 1 9 7 day (request (some 18)) empty in
    ((e : HttpError) × (run ≡ (err e, empty)))
    ⊎ (((is_described (request (some 18)) ≡ true)
          × ((inv : Invoice) × (t : Store (Unit {0})) × (run ≡ (ok inv, t))
              × IsNext hundredths no_source no_cache in_memory 9 empty inv t))
        ⊎ ((is_described (request (some 18)) ≡ false)
            × ((t : Store (Unit {0})) × (run
                  ≡ (err (internal_server_error "Internal server error"), t))
                × IsLost hundredths no_source no_cache in_memory 9
                    (financial_year_of day)
                    empty
                    t)))
create-IsNext_example =
    create-IsNext hundredths no_source no_cache in_memory 1 9 7 day (request (some 18)) empty tt

abbrev plain_charges : Charges
plain_charges = domestic_charges (codes "29") day 0 (compute_gst 0 [] (codes "27") (codes "29"))

abbrev settled : Invoice
settled = record {
  id = 1;
  org_id = 9;
  client_id = 4;
  number = codes "CB/2026-27/0001";
  financial_year = codes "2026-27";
  invoice_date = day;
  items = [];
  charges = plain_charges;
  status = paid;
  pdf_url = none;
  fema_reminders_sent = [];
}

abbrev one_paid : Store (Unit {0})
one_paid = record empty { invoices = settled ∷ [] }

serve-Stays_example :
    Stays settled (serve hundredths no_source no_cache in_memory requests one_paid).invoices
serve-Stays_example =
    serve-Stays hundredths no_source no_cache in_memory requests one_paid (Memᴰ.head refl)

answer : Option ℕ → Invoice
unfolding create find_one_scoped state_code_from_gstin india_states build_domestic numbered
answer rate =
    elim (create hundredths no_source no_cache in_memory 1 9 7 day (request rate) empty).0 [
      | ok inv ↦ inv
      | err e ↦ settled
    ]

answer_lem :
    (rate : Option ℕ)
    → create hundredths no_source no_cache in_memory 1 9 7 day (request rate) empty ≡ (
      ok (answer rate),
      (create hundredths no_source no_cache in_memory 1 9 7 day (request rate) empty).1,
    )
unfolding answer
answer_lem rate = refl

create-IsCharged_example :
    (who : Client) × (find_one_scoped in_memory 9 4 empty.base ≡ ok who)
    × AddsUp (answer (some 18)).invoice_date (answer (some 18)).items (answer (some 18)).charges
    × (who.kind ≡ ClientType.domestic
        → IsTaxed who
            (profile_of hundredths no_source no_cache in_memory 7 empty)
            (answer (some 18)).items
            (answer (some 18)).charges)
    × (who.kind ≡ ClientType.foreign
        → HasRate hundredths no_source no_cache
            (answer (some 18)).invoice_date
            empty.rates
            (answer (some 18)).charges)
create-IsCharged_example =
    create-IsCharged hundredths no_source no_cache in_memory 1 9 7 day (request (some 18)) empty
      (answer_lem (some 18))

taxed : cents_of (answer (some 18)).charges.tax_total ≡ 180000
unfolding answer compute_gst add_lines domestic_charges cents_of crossbill_back.Base.Decimal.read
    fixed2 decimal
taxed = refl

create-Untaxed_example :
    (cents_of (answer none).charges.tax_total ≡ 0)
    × ((answer none).charges.grand_total ≡ (answer none).charges.subtotal)
unfolding find_one_scoped
create-Untaxed_example =
    create-Untaxed hundredths no_source no_cache in_memory 1 9 7 day (request none) empty
      {client = client} refl refl (refl, tt) (answer_lem none)
