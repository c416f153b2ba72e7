-- ===== src/EInvoicing/Tests.antt =====
-- An e-invoice that is cancelled in time, and one that is not.
use crossbill_back.Base.{ℕ, ◌+◌, ◌*◌, ◌≡◌, refl, true, List, [], ◌∷◌, none, some, map}
use crossbill_back.Base.Text.{codes}
use crossbill_back.Mongo.InMemory.{in_memory}
use crossbill_back.Gst.{lut_zero}
use crossbill_back.Organizations.{find_by_id}
use crossbill_back.Clients.{Client, ClientType, find_one_scoped as client_of}
use crossbill_back.Invoices.Defs.{sent, export, Invoice}
use crossbill_back.Invoices.Changes.{find_one_scoped as invoice_of}
use crossbill_back.EInvoicing.Defs.{generated, cancelled, EInvoiceProvider, Store}
use crossbill_back.EInvoicing.Handlers.{generate, cancel}
use crossbill_back.EInvoicing.InTime.{Request, issue, withdraw, serve}

abbrev sandbox_provider : EInvoiceProvider
sandbox_provider = record {
  name = codes "sandbox";
  sandbox = true;
  generate = λ payload. some (record {
    irn = codes "a1b2";
    ack_no = codes "112";
    ack_date = codes "2026-06-12";
    signed_invoice = codes "jws";
    signed_qr = codes "qr";
  });
  cancel = λ irn reason. some true;
  render_qr = λ text. none;
}

abbrev client : Client
client = record {
  id = 4;
  org_id = 9;
  kind = ClientType.foreign;
  name = "Globex";
  email = none;
  address = none;
  country = some (codes "US");
  state_code = none;
  gstin = none;
  customer_type = none;
}

abbrev invoice : ℕ → Invoice
invoice i = record {
  id = i;
  org_id = 9;
  client_id = 4;
  number = codes "CB/2026-27/0001";
  financial_year = codes "2026-27";
  invoice_date = record { year = 2026; month = 5; day = 12 };
  items = [];
  charges = record {
    kind = export;
    currency = codes "USD";
    fx_rate = codes "83.500000";
    fx_rate_source = [];
    fx_rate_date = codes "2026-06-12";
    subtotal = codes "100.00";
    inr_equivalent = codes "8350.00";
    tax_type = lut_zero;
    cgst_amount = codes "0.00";
    sgst_amount = codes "0.00";
    igst_amount = codes "0.00";
    tax_total = codes "0.00";
    grand_total = codes "100.00";
    declaration_text = [];
    place_of_supply = [];
    place_of_supply_state = none;
    fema_due_date = none;
  };
  status = sent;
  pdf_url = none;
  fema_reminders_sent = [];
}

abbrev store : Store (Unit {0})
store = record {
  orgs = [];
  base = record { clients = client ∷ []; events = [] };
  invoices = invoice 1 ∷ invoice 2 ∷ [];
  einvoices = [];
}

abbrev hour : ℕ
hour = 60 * 60 * 1000

abbrev requests : List Request
requests =
    issue 0 9 1 none
    ∷ issue hour 9 2 none
    ∷ issue (2 * hour) 9 1 none
    ∷ withdraw (24 * hour) (24 * hour + 900) 9 1 "wrong rate" none
    ∷ withdraw (26 * hour) (26 * hour + 400) 9 2 "wrong rate" none
    ∷ []

statuses :
    map (λ e. e.status) (serve sandbox_provider in_memory requests store).einvoices
    ≡ generated ∷ cancelled ∷ []
unfolding serve generate cancel invoice_of client_of find_by_id
statuses = refl
