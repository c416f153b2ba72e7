-- ===== src/Reminders/Sweep.antt =====
-- The daily sweep: `FemaReminderService` in api/src/modules/reminders/fema-reminder.service.ts. The cache
-- of owners' addresses is left out, since a sweep writes nothing that it reads for them.
use crossbill_back.Base.{
  ℕ, suc, Bool, true, false, not, List, [], ◌∷◌, Option, none, some, String, ◌==◌, ◌&&◌, any,
  filter, length, leb, is_some, if◌then◌else◌,
}
use crossbill_back.Base.Text.{Text}
use text.Mathlib.Text.{◌==◌ as same_text}
use crossbill_back.Mongo.{Mongo}
use crossbill_back.Audit.{DocId, EventLog, log, entry}
use crossbill_back.FinancialYear.{Date}
use crossbill_back.Fema.{ℤ, le_const, days_to_due, months_elapsed, Threshold, reminder_thresholds}
use crossbill_back.Organizations.{Organization, find_by_id}
use crossbill_back.Invoices.Defs.{overdue, InvoiceType, export, domestic, Invoice}
use crossbill_back.Invoices.Handlers.{is_paid, differs, nonempty}
use crossbill_back.Invoices.Changes.{mark_overdue, push_reminder_sent}

-- Of a user, the address.
pub record Owner : Type 0 where
  pub id : DocId
  pub email : Option Text

-- An e-mail that was sent: its subject and text are made from the invoice, the threshold and the days.
pub record Mail : Type 0 where
  pub to : Text
  pub invoice : Invoice
  pub threshold : Threshold
  pub days : ℤ

pub record Store (W : Type 0) : Type 0 where
  pub orgs : List (Organization W)
  pub owners : List Owner
  pub invoices : List Invoice
  pub mails : List Mail
  pub events : EventLog

abbrev is_export : InvoiceType → Bool
is_export export = true
is_export domestic = false

-- The filter of `findAllUnpaid`.
abbrev pub is_awaited : Invoice → Bool
is_awaited inv =
    is_export inv.charges.kind && not (is_paid inv.status) && is_some inv.charges.fema_due_date

-- `already.includes(key)`.
abbrev pub includes : List String → String → Bool
includes keys k = any (λ j. same_text j k) keys

abbrev pub is_unsent : ℕ → List String → Threshold → Bool
is_unsent months already t = leb t.months months && not (includes already t.key)

-- `REMINDER_THRESHOLDS.filter(...)`.
abbrev pub due_thresholds : ℕ → List String → List Threshold
due_thresholds months already = filter (is_unsent months already) reminder_thresholds

-- `due[due.length - 1]` of a list that starts with `t`.
abbrev pub last_threshold : Threshold → List Threshold → Threshold
last_threshold t [] = t
last_threshold t (u ∷ ts) = last_threshold u ts

abbrev owner_of : List Owner → Option DocId → Mongo → Option Text
owner_of owners none db = none
owner_of owners (some i) db = elim (db.find_one (λ o. o.id == i) owners) [
  | none ↦ none
  | some o ↦ o.email
]

module _ (db : Mongo) where
  -- `for (const t of due) await this.invoices.pushReminderSent(inv.id, t.key)`.
  abbrev pub push_all : DocId → List Threshold → List Invoice → List Invoice
  push_all i [] invoices = invoices
  push_all i (t ∷ ts) invoices = push_all i ts (push_reminder_sent db i t.key invoices)

module _ (db : Mongo) {W : Type 0} where
  -- `resolveOwnerEmail`.
  unfoldable pub resolve_owner_email : DocId → Store W → Option Text
  resolve_owner_email org_id s = elim (find_by_id db org_id s.orgs) [
    | none ↦ none
    | some org ↦ owner_of s.owners org.owner_id db
  ]

  abbrev pub lapsed : ℤ → Invoice → Store W → Store W
  lapsed days inv s =
      if le_const days 0 && differs inv.status overdue
      then record s { invoices = mark_overdue db inv.id s.invoices }
      else s

  -- From the address on: whether an e-mail was sent, and the store.
  abbrev pub mailed :
      Option Text → ℤ → Threshold → List Threshold → Invoice → Store W → Bool × Store W
  mailed none days t ts inv s = (false, s)
  mailed (some email) days t ts inv s = (
    true,
    record s {
      mails =
          record { to = email; invoice = inv; threshold = last_threshold t ts; days = days }
          ∷ s.mails;
      invoices = push_all db inv.id (t ∷ ts) s.invoices;
      events = log db (entry "fema.reminder.sent" inv.org_id none inv.id) s.events;
    },
  )

  abbrev pub reminded : ℤ → List Threshold → Invoice → Store W → Bool × Store W
  reminded days [] inv s = (false, s)
  reminded days (t ∷ ts) inv s =
      mailed (nonempty (resolve_owner_email inv.org_id s)) days t ts inv s

  module _ (at_midnight : Date → ℕ) (now : ℕ) (today : Date) where
    abbrev pub visit_due : Option Date → Invoice → Store W → Bool × Store W
    visit_due none inv s = (false, s)
    visit_due (some due) inv s =
        let days = days_to_due (at_midnight due) now in
        reminded days
          (due_thresholds (months_elapsed inv.invoice_date today) inv.fema_reminders_sent) inv
          (lapsed days inv s)

    -- One round of the loop.
    unfoldable pub visit : Invoice → Store W → Bool × Store W
    visit inv s = visit_due inv.charges.fema_due_date inv s

    unfoldable pub visit_all : List Invoice → ℕ → Store W → ℕ × Store W
    unfolding visit
    visit_all [] sent s = (sent, s)
    visit_all (inv ∷ invs) sent s =
        let (was, t) = visit inv s in visit_all invs (if was then suc sent else sent) t

    -- `{ scanned, sent }`, and the store.
    unfoldable pub sweep : Store W → ℕ × ℕ × Store W
    unfolding visit_all
    sweep s =
        let unpaid = db.find is_awaited s.invoices in
        let (sent, t) = visit_all unpaid 0 s in (length unpaid, sent, t)
