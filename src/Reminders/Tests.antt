-- ===== src/Reminders/Tests.antt =====
-- An export invoice that is not paid for a year and more.
use crossbill_back.Base.{ℕ, ◌*◌, ◌≡◌, refl, List, [], ◌∷◌, none, some, map}
use crossbill_back.Base.Text.{codes}
use crossbill_back.Mongo.InMemory.{in_memory}
use crossbill_back.FinancialYear.{Date}
use crossbill_back.Fema.{days_to_due, months_elapsed, reminder_thresholds, ms_per_day}
use crossbill_back.Gst.{lut_zero}
use crossbill_back.Organizations.{new_organization, find_by_id}
use crossbill_back.Invoices.Defs.{sent, export, Charges, Invoice}
use crossbill_back.Invoices.Changes.{mark_overdue, mark_paid, push_reminder_sent}
use crossbill_back.Reminders.Sweep.{Store, sweep, visit_all, resolve_owner_email}
use crossbill_back.Reminders.Once.{SentOnce}
use crossbill_back.Reminders.Sweeps.{Event, swept, settled, run, run-SentOnce}

abbrev charges : Charges
charges = record {
  kind = export;
  currency = codes "USD";
  fx_rate = codes "83.500000";
  fx_rate_source = [];
  fx_rate_date = codes "2025-06-12";
  subtotal = codes "100.00";
  inr_equivalent = codes "8350.00";
  tax_type = lut_zero;
  cgst_amount = codes "0.00";
  sgst_amount = codes "0.00";
  igst_amount = codes "0.00";
  tax_total = codes "0.00";
  grand_total = codes "100.00";
  declaration_text = [];
  place_of_supply = [];
  place_of_supply_state = none;
  fema_due_date = some (record { year = 2026; month = 5; day = 12 });
}

abbrev invoice : Invoice
invoice = record {
  id = 1;
  org_id = 9;
  client_id = 4;
  number = codes "CB/2025-26/0001";
  financial_year = codes "2025-26";
  invoice_date = record { year = 2025; month = 5; day = 12 };
  items = [];
  charges = charges;
  status = sent;
  pdf_url = none;
  fema_reminders_sent = [];
}

abbrev store : Store (Unit {0})
store = record {
  orgs = record (new_organization 9 (codes "Acme")) { owner_id = some 7 } ∷ [];
  owners = record { id = 7; email = some (codes "anita@acme.in") } ∷ [];
  invoices = invoice ∷ [];
  mails = [];
  events = [];
}

abbrev midnight : Date → ℕ
midnight d = 365 * ms_per_day

abbrev days : List Event
days =
    swept 0 (record { year = 2026; month = 2; day = 20 })
    ∷ swept 0 (record { year = 2026; month = 2; day = 21 })
    ∷ swept (366 * ms_per_day) (record { year = 2026; month = 5; day = 13 })
    ∷ settled 9 1
    ∷ []

-- The reminder of nine months is sent on the first day, none on the second, and that of the deadline on
-- the day after it.
run_test :
    map (λ m. m.threshold.key) (run in_memory midnight days store).mails ≡ "overdue" ∷ "9m" ∷ []
unfolding run sweep visit_all days_to_due months_elapsed reminder_thresholds resolve_owner_email
    find_by_id mark_overdue mark_paid push_reminder_sent
run_test = refl

run-SentOnce_example : SentOnce (run in_memory midnight days store).mails
run-SentOnce_example = run-SentOnce in_memory midnight days store refl (tt, tt)
