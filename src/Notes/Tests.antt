-- ===== src/Notes/Tests.antt =====
-- A credit note on an invoice to another state, after the client has moved.
use crossbill_back.Base.{ℕ, ◌*◌, ◌/◌, ◌≡◌, refl, [], ◌∷◌, Option, none, some, String, ltb}
use crossbill_back.Base.Text.{codes}
use crossbill_back.Base.Money.{fixed2}
use crossbill_back.Base.Doubles.{Double}
use crossbill_back.Base.Http.{ok, err}
use crossbill_back.Mongo.InMemory.{in_memory}
use crossbill_back.FinancialYear.{Date}
use crossbill_back.Gst.{igst}
use crossbill_back.Clients.{Client, ClientType, find_one_scoped as client_of}
use crossbill_back.Invoices.Defs.{sent, domestic, Invoice, Profile}
use crossbill_back.Invoices.Changes.{find_one_scoped as invoice_of}
use crossbill_back.Notes.Defs.{credit, Note, CreateNoteDto, Store}
use crossbill_back.Notes.Create.{create, note_of, tax_of, numbered}
use crossbill_back.Notes.Outcome.{IsNote, create-IsNote}

abbrev hundredths : Double ℕ
hundredths = record {
  of_hundredths = λ n. n;
  is_positive = λ n. ltb 0 n;
  to_fixed = λ d n. fixed2 n;
  product_cents = λ q u. q * u / 100;
  scaled_cents = λ n r. n * r / 100;
}

abbrev no_pdf : Note → Option String
no_pdf note = none

abbrev client : Client
client = record {
  id = 4;
  org_id = 9;
  kind = ClientType.domestic;
  name = "Initech";
  email = none;
  address = none;
  country = none;
  state_code = some (codes "27");
  gstin = none;
  customer_type = none;
}

abbrev seller : Profile
seller = record {
  id = 7;
  gstin = some (codes "27AAPFU0939F1ZV");
  default_sac = none;
  lut_number = none;
  lut_arn = none;
  lut_fy = none;
}

abbrev invoice : Invoice
invoice = record {
  id = 1;
  org_id = 9;
  client_id = 4;
  number = codes "CB/2026-27/0001";
  financial_year = codes "2026-27";
  invoice_date = record { year = 2026; month = 5; day = 12 };
  items = [];
  charges = record {
    kind = domestic;
    currency = codes "INR";
    fx_rate = codes "1.000000";
    fx_rate_source = codes "NA";
    fx_rate_date = codes "2026-06-12";
    subtotal = codes "100.00";
    inr_equivalent = codes "118.00";
    tax_type = igst;
    cgst_amount = codes "0.00";
    sgst_amount = codes "0.00";
    igst_amount = codes "18.00";
    tax_total = codes "18.00";
    grand_total = codes "118.00";
    declaration_text = [];
    place_of_supply = codes "Karnataka";
    place_of_supply_state = some (codes "29");
    fema_due_date = none;
  };
  status = sent;
  pdf_url = none;
  fema_reminders_sent = [];
}

abbrev store : Store
store = record {
  base = record { clients = client ∷ []; events = [] };
  profiles = seller ∷ [];
  counters = [];
  invoices = invoice ∷ [];
  notes = [];
}

abbrev day : Date
day = record { year = 2026; month = 6; day = 1 }

abbrev request : CreateNoteDto ℕ
request = record {
  invoice_id = 1;
  kind = credit;
  reason = "Discount";
  items =
      record {
        description = "Design";
        sac_code = none;
        quantity = 100;
        unit_amount = 1000;
        gst_rate = some 18;
      }
      ∷ [];
}

abbrev nothing : Note
nothing = note_of 1 9 day invoice request [] (tax_of domestic none client []) []

answer : Note
unfolding create invoice_of client_of numbered
answer = elim (create hundredths no_pdf in_memory 5 9 7 day request store).0 [
  | ok note ↦ note
  | err e ↦ nothing
]

answer_lem :
    create hundredths no_pdf in_memory 5 9 7 day request store
    ≡ (ok answer, (create hundredths no_pdf in_memory 5 9 7 day request store).1)
unfolding answer
answer_lem = refl

create-IsNote_example :
    (i : Invoice) × (invoice_of in_memory 9 1 store.invoices ≡ ok i)
    × IsNote hundredths no_pdf in_memory 9 store i answer
        (create hundredths no_pdf in_memory 5 9 7 day request store).1
create-IsNote_example = create-IsNote hundredths no_pdf in_memory 5 9 7 day request store answer_lem
