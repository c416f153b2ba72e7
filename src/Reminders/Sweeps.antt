-- ===== src/Reminders/Sweeps.antt =====
-- A sequence of sweeps, with invoices that are paid in between.
use crossbill_back.Base.{
  ℕ, ◌≡◌, ◌≢◌, refl, ap, ◌∙◌, inl, inr, Bool, false, List, [], ◌∷◌, filter, All, arith, Bool-cases,
  ==_refl,
}
use crossbill_back.Mongo.{Mongo}
use crossbill_back.Audit.{DocId}
use crossbill_back.FinancialYear.{Date}
use crossbill_back.Invoices.Defs.{Invoice, paid}
use crossbill_back.Invoices.Handlers.{has_id, scoped, with_status}
use crossbill_back.Invoices.Changes.{mark_paid}
use crossbill_back.Reminders.Sweep.{Store, is_awaited, sweep}
use crossbill_back.Reminders.Writes.{ids, Distinct, HasKeys, ids-modify_first, IsKnown-modify}
use crossbill_back.Reminders.Pushes.{Keeps}
use crossbill_back.Reminders.Once.{SentOnce, IsSound, Keeps-IsSound, visit_all-IsSound}

-- A run of the sweep at an instant and its date, or the payment of an invoice.
pub data Event : Type 0 where
  swept : ℕ → Date → Event
  settled : DocId → DocId → Event

-- An id that is not in a list is not in what a filter leaves of it.
All-ids-filter :
    (i : DocId) (p : Invoice → Bool) (xs : List Invoice)
    → All (λ j. i ≢ j) (ids xs)
    → All (λ j. i ≢ j) (ids (filter p xs))
All-ids-filter i p [] h = tt
All-ids-filter i p (x ∷ xs) h = elim (Bool-cases (p x)) [
  | inl y ↦ rw y (h.0, All-ids-filter i p xs h.1)
  | inr n ↦ rw n (All-ids-filter i p xs h.1)
]

filter-Distinct :
    (p : Invoice → Bool) (xs : List Invoice) → Distinct (ids xs) → Distinct (ids (filter p xs))
filter-Distinct p [] h = tt
filter-Distinct p (x ∷ xs) h = elim (Bool-cases (p x)) [
  | inl y ↦ rw y (All-ids-filter x.id p xs h.0, filter-Distinct p xs h.1)
  | inr n ↦ rw n (filter-Distinct p xs h.1)
]

-- Each invoice is found by its id, if no two share one.
HasKeys-cons :
    (x : Invoice) (xs is : List Invoice)
    → All (λ j. x.id ≢ j) (ids is)
    → All (λ i. HasKeys i.id i.fema_reminders_sent xs) is
    → All (λ i. HasKeys i.id i.fema_reminders_sent (x ∷ xs)) is
HasKeys-cons x xs [] ne h = tt
HasKeys-cons x xs (i ∷ is) ne h = (later h.0, HasKeys-cons x xs is ne.1 h.1)
  where
    later : HasKeys i.id i.fema_reminders_sent xs → HasKeys i.id i.fema_reminders_sent (x ∷ xs)
    later (b, found, e) =
        let other : has_id i.id x ≡ false = ground (arith, ne.0) in (b, rw other found, e)

filter-HasKeys :
    (p : Invoice → Bool) (xs : List Invoice)
    → Distinct (ids xs)
    → All (λ i. HasKeys i.id i.fema_reminders_sent xs) (filter p xs)
filter-HasKeys p [] h = tt
filter-HasKeys p (x ∷ xs) h = elim (Bool-cases (p x)) [
  | inl y ↦ rw y (
    (x, rw (==_refl x.id) refl, refl),
    HasKeys-cons x xs (filter p xs) (All-ids-filter x.id p xs h.0) (filter-HasKeys p xs h.1),
  )
  | inr n ↦
      rw n
        (HasKeys-cons x xs (filter p xs) (All-ids-filter x.id p xs h.0) (filter-HasKeys p xs h.1))
]

mark_paid-Keeps :
    (db : Mongo) (org i : DocId) (xs : List Invoice) → Keeps xs (mark_paid db org i xs)
unfolding mark_paid
mark_paid-Keeps db org i xs =
    let e = db.update_one_lem (scoped org i) (with_status paid) xs in
    record {
      same_ids = ap ids e ∙ ids-modify_first (scoped org i) (with_status paid) xs (λ a. refl);
      known = λ j k h.
          rw e (IsKnown-modify (scoped org i) (with_status paid) j k xs (λ a. refl) (λ a g. g) h);
    }

module _ (db : Mongo) (at_midnight : Date → ℕ) {W : Type 0} where
  unfoldable pub run_one : Event → Store W → Store W
  run_one (swept now today) s = (sweep db at_midnight now today s).2
  run_one (settled org i) s = record s { invoices = mark_paid db org i s.invoices }

  unfoldable pub run : List Event → Store W → Store W
  unfolding run_one
  run [] s = s
  run (q ∷ qs) s = run qs (run_one q s)

  run_one-IsSound : (q : Event) (s : Store W) → IsSound s → IsSound (run_one q s)
  unfolding run_one sweep
  run_one-IsSound (swept now today) s h =
      rw (run_one, db.find_lem is_awaited s.invoices)
        (visit_all-IsSound db at_midnight now today (filter is_awaited s.invoices) 0 s
          (filter-Distinct is_awaited s.invoices h.distinct)
          (filter-HasKeys is_awaited s.invoices h.distinct) h)
  run_one-IsSound (settled org i) s h =
      Keeps-IsSound s (record s { invoices = mark_paid db org i s.invoices })
        (mark_paid-Keeps db org i s.invoices) refl h

  run-IsSound : (qs : List Event) (s : Store W) → IsSound s → IsSound (run qs s)
  unfolding run
  run-IsSound [] s h = h
  run-IsSound (q ∷ qs) s h = run-IsSound qs (run_one q s) (run_one-IsSound q s h)

  -- However often the sweep runs, at whatever instants, and whatever invoices are paid in between, no two
  -- of the mails it sends are about the same invoice and the same threshold, if at the start no mail has
  -- been sent and no two invoices share an id.
  pub run-SentOnce :
      (qs : List Event) (s : Store W)
      → s.mails ≡ []
      → Distinct (ids s.invoices)
      → SentOnce (run qs s).mails
  run-SentOnce qs s none_sent distinct =
      (run-IsSound qs s
        (record { on_file = rw none_sent tt; once = rw none_sent tt; distinct = distinct })).once
