-- ===== src/Reminders/Once.antt =====
-- However often the sweep runs, each reminder of an invoice is sent at most once.
use crossbill_back.Base.{
  ℕ, suc, ◌≡◌, ◌≢◌, sym, inl, inr, Bool, true, false, List, [], ◌∷◌, Option, none, some, String,
  filter, All, arith, Bool-cases, if◌then◌else◌,
}
use crossbill_back.Base.Text.{Text}
use crossbill_back.Mongo.{Mongo}
use crossbill_back.Audit.{DocId}
use crossbill_back.FinancialYear.{Date}
use crossbill_back.Fema.{Threshold, ℤ, days_to_due, months_elapsed, reminder_thresholds}
use crossbill_back.Invoices.Defs.{Invoice}
use crossbill_back.Invoices.Handlers.{nonempty}
use crossbill_back.Reminders.Sweep.{
  Mail, Store, includes, is_unsent, due_thresholds, push_all, last_threshold, lapsed, mailed,
  reminded, resolve_owner_email, visit_due, visit, visit_all,
}
use crossbill_back.Reminders.Writes.{ids, Distinct, HasKeys, IsKnown}
use crossbill_back.Reminders.Pushes.{
  Keeps, push_all-Keeps, push_all-HasKeys_ne, push_all-IsKnown, lapsed-Keeps, lapsed-HasKeys,
  lapsed-mails,
}

-- The mails are about different invoices, or different thresholds.
abbrev pub Differs : Mail → Mail → Type 0
Differs m n = ¬ ((m.invoice.id ≡ n.invoice.id) × (m.threshold.key ≡ n.threshold.key))

abbrev pub SentOnce : List Mail → Type 0
SentOnce [] = Unit
SentOnce (m ∷ ms) = All (Differs m) ms × SentOnce ms

-- Each mail that was sent is on file with its invoice.
abbrev pub OnFile : List Invoice → List Mail → Type 0
OnFile xs ms = All (λ m. IsKnown m.invoice.id m.threshold.key xs) ms

OnFile-Keeps : (xs ys : List Invoice) (ms : List Mail) → Keeps xs ys → OnFile xs ms → OnFile ys ms
OnFile-Keeps xs ys [] h k = tt
OnFile-Keeps xs ys (m ∷ ms) h k =
    (h.known m.invoice.id m.threshold.key k.0, OnFile-Keeps xs ys ms h k.1)

pub All-filter : {A : Type 0} (p : A → Bool) (xs : List A) → All (λ a. p a ≡ true) (filter p xs)
All-filter p [] = tt
All-filter p (x ∷ xs) = elim (Bool-cases (p x)) [
  | inl y ↦ rw y (y, All-filter p xs)
  | inr n ↦ rw n (All-filter p xs)
]

All-last :
    (P : Threshold → Type 0) (t : Threshold) (ts : List Threshold)
    → All P (t ∷ ts)
    → P (last_threshold t ts)
All-last P t [] h = h.0
All-last P t (u ∷ ts) h = All-last P u ts h.1

-- A reminder that is not among an invoice's keys is in no mail about it.
unsent-Differs :
    (xs : List Invoice) (ms : List Mail) (m : Mail)
    → OnFile xs ms
    → HasKeys m.invoice.id m.invoice.fema_reminders_sent xs
    → includes m.invoice.fema_reminders_sent m.threshold.key ≡ false
    → All (Differs m) ms
unsent-Differs xs [] m h keys new = tt
unsent-Differs xs (n ∷ ms) m h keys new = (differs, unsent-Differs xs ms m h.1 keys new)
  where
    differs : Differs m n
    differs (same_id, same_key) =
        let (b, found, known) = h.0 in
        let (c, found', e) = keys in
        let it : b ≡ c = ground arith in
        let known' : includes m.invoice.fema_reminders_sent m.threshold.key ≡ true =
          rw (sym e, sym it, same_key) known in
        cc (known', new)

module _ {W : Type 0} where
  pub record IsSound (s : Store W) : Type 0 where
    pub on_file : OnFile s.invoices s.mails
    pub once : SentOnce s.mails
    pub distinct : Distinct (ids s.invoices)

  pub Keeps-IsSound :
      (s t : Store W) → Keeps s.invoices t.invoices → t.mails ≡ s.mails → IsSound s → IsSound t
  Keeps-IsSound s t keeps same h = record {
    on_file = rw same (OnFile-Keeps s.invoices t.invoices s.mails keeps h.on_file);
    once = rw same h.once;
    distinct = rw keeps.same_ids h.distinct;
  }

  -- The reminders of the other invoices are as they were.
  abbrev Spares : DocId → Store W → Store W → Type 0
  Spares j s t =
      (i : DocId) (keys : List String)
      → j ≢ i
      → HasKeys i keys s.invoices
      → HasKeys i keys t.invoices

  module _ (db : Mongo) where
    mailed-IsSound :
        (email : Option Text) (days : ℤ) (t : Threshold) (ts : List Threshold) (months : ℕ)
        (inv : Invoice) (s : Store W)
        → All (λ u. is_unsent months inv.fema_reminders_sent u ≡ true) (t ∷ ts)
        → HasKeys inv.id inv.fema_reminders_sent s.invoices
        → IsSound s
        → IsSound (mailed db email days t ts inv s).1
          × Spares inv.id s (mailed db email days t ts inv s).1
    mailed-IsSound none days t ts months inv s unsent keys h = (h, λ i k ne e. e)
    mailed-IsSound (some email) days t ts months inv s unsent keys h =
        let m : Mail = record {
          to = email;
          invoice = inv;
          threshold = last_threshold t ts;
          days = days;
        } in
        let (b, found, same) = keys in
        let new = All-last (λ u. is_unsent months inv.fema_reminders_sent u ≡ true) t ts unsent in
        let new' : includes inv.fema_reminders_sent (last_threshold t ts).key ≡ false =
          ground arith in
        let keeps = push_all-Keeps db inv.id (t ∷ ts) s.invoices in
        (
          record {
            on_file = (
              push_all-IsKnown db inv.id t ts s.invoices found,
              OnFile-Keeps s.invoices (push_all db inv.id (t ∷ ts) s.invoices) s.mails keeps
                  h.on_file,
            );
            once = (unsent-Differs s.invoices s.mails m h.on_file keys new', h.once);
            distinct = rw keeps.same_ids h.distinct;
          },
          λ i k ne e. push_all-HasKeys_ne db inv.id (t ∷ ts) i k s.invoices ne e,
        )

    reminded-IsSound :
        (days : ℤ) (due : List Threshold) (months : ℕ) (inv : Invoice) (s : Store W)
        → All (λ u. is_unsent months inv.fema_reminders_sent u ≡ true) due
        → HasKeys inv.id inv.fema_reminders_sent s.invoices
        → IsSound s
        → IsSound (reminded db days due inv s).1 × Spares inv.id s (reminded db days due inv s).1
    reminded-IsSound days [] months inv s unsent keys h = (h, λ i k ne e. e)
    reminded-IsSound days (t ∷ ts) months inv s unsent keys h =
        mailed-IsSound (nonempty (resolve_owner_email db inv.org_id s)) days t ts months inv s
          unsent keys h

    module _ (at_midnight : Date → ℕ) (now : ℕ) (today : Date) where
      visit_due-IsSound :
          (due : Option Date) (inv : Invoice) (s : Store W)
          → HasKeys inv.id inv.fema_reminders_sent s.invoices
          → IsSound s
          → let t = (visit_due db at_midnight now today due inv s).1 in
            IsSound t × Spares inv.id s t
      visit_due-IsSound none inv s keys h = (h, λ i k ne e. e)
      visit_due-IsSound (some date) inv s keys h =
          let days = days_to_due (at_midnight date) now in
          let months = months_elapsed inv.invoice_date today in
          let u = lapsed db days inv s in
          let (good, spares) =
            reminded-IsSound days (due_thresholds months inv.fema_reminders_sent) months inv u
              (All-filter (is_unsent months inv.fema_reminders_sent) reminder_thresholds)
              (lapsed-HasKeys db days inv s inv.id inv.fema_reminders_sent keys)
              (Keeps-IsSound s u (lapsed-Keeps db days inv s) (lapsed-mails db days inv s) h) in
          (good, λ i k ne e. spares i k ne (lapsed-HasKeys db days inv s i k e))

      visit-IsSound :
          (inv : Invoice) (s : Store W)
          → HasKeys inv.id inv.fema_reminders_sent s.invoices
          → IsSound s
          → let t = (visit db at_midnight now today inv s).1 in IsSound t × Spares inv.id s t
      unfolding visit
      visit-IsSound inv s keys h = visit_due-IsSound inv.charges.fema_due_date inv s keys h

      pub visit_all-IsSound :
          (invs : List Invoice) (sent : ℕ) (s : Store W)
          → Distinct (ids invs)
          → All (λ inv. HasKeys inv.id inv.fema_reminders_sent s.invoices) invs
          → IsSound s
          → IsSound (visit_all db at_midnight now today invs sent s).1
      unfolding visit_all
      visit_all-IsSound [] sent s d keys h = h
      visit_all-IsSound (inv ∷ invs) sent s d keys h =
          let t = (visit db at_midnight now today inv s).1 in
          let was = (visit db at_midnight now today inv s).0 in
          let (good, spares) = visit-IsSound inv s keys.0 h in
          visit_all-IsSound invs (if was then suc sent else sent) t d.1
            (spared invs t spares d.0 keys.1) good
        where
          spared :
              (is : List Invoice) (t : Store W)
              → Spares inv.id s t
              → All (λ j. inv.id ≢ j) (ids is)
              → All (λ i. HasKeys i.id i.fema_reminders_sent s.invoices) is
              → All (λ i. HasKeys i.id i.fema_reminders_sent t.invoices) is
          spared [] t spares ne k = tt
          spared (i ∷ is) t spares ne k =
              (spares i.id i.fema_reminders_sent ne.0 k.0, spared is t spares ne.1 k.1)
