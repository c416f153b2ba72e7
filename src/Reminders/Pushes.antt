-- ===== src/Reminders/Pushes.antt =====
-- What a round of the sweep writes, in the terms of the keys on file.
use crossbill_back.Base.{
  ◌≡◌, ◌≢◌, refl, ap, ◌∙◌, inl, inr, not, ◌&&◌, List, [], ◌∷◌, some, String, find?, Bool-cases,
}
use crossbill_back.Base.Updates.{find?-modify_first, find?-holds}
use crossbill_back.Mongo.{Mongo}
use crossbill_back.Audit.{DocId}
use crossbill_back.Fema.{Threshold, ℤ, le_const}
use crossbill_back.Invoices.Defs.{Invoice, overdue}
use crossbill_back.Invoices.Handlers.{has_id, is_paid, differs, with_status, with_reminder}
use crossbill_back.Invoices.Changes.{mark_overdue, push_reminder_sent}
use crossbill_back.Reminders.Sweep.{Store, push_all, last_threshold, lapsed}
use crossbill_back.Reminders.Writes.{
  ids, HasKeys, IsKnown, ids-modify_first, IsKnown-modify, HasKeys-modify, HasKeys-modify_ne,
  add_to_set-grows, add_to_set-includes,
}
use text.Mathlib.TextPositions.{eq_refl}

-- A list of invoices after writes of the sweep: the ids and the reminders on file are still there.
pub record Keeps (xs ys : List Invoice) : Type 0 where
  pub same_ids : ids ys ≡ ids xs
  pub known : (i : DocId) (k : String) → IsKnown i k xs → IsKnown i k ys

pub Keeps-refl : (xs : List Invoice) → Keeps xs xs
Keeps-refl xs = record { same_ids = refl; known = λ i k h. h }

pub Keeps-trans : (xs ys zs : List Invoice) → Keeps xs ys → Keeps ys zs → Keeps xs zs
Keeps-trans xs ys zs h h' = record {
  same_ids = h'.same_ids ∙ h.same_ids;
  known = λ i k e. h'.known i k (h.known i k e);
}

module _ (db : Mongo) where
  pub mark_overdue-Keeps : (j : DocId) (xs : List Invoice) → Keeps xs (mark_overdue db j xs)
  unfolding mark_overdue
  mark_overdue-Keeps j xs =
      let p = λ (inv : Invoice). has_id j inv && not (is_paid inv.status) in
      let e = db.update_one_lem p (with_status overdue) xs in
      record {
        same_ids = ap ids e ∙ ids-modify_first p (with_status overdue) xs (λ a. refl);
        known =
            λ i k h. rw e (IsKnown-modify p (with_status overdue) i k xs (λ a. refl) (λ a g. g) h);
      }

  pub mark_overdue-HasKeys :
      (j i : DocId) (keys : List String) (xs : List Invoice)
      → HasKeys i keys xs
      → HasKeys i keys (mark_overdue db j xs)
  unfolding mark_overdue
  mark_overdue-HasKeys j i keys xs h =
      let p = λ (inv : Invoice). has_id j inv && not (is_paid inv.status) in
      rw (db.update_one_lem p (with_status overdue) xs)
        (HasKeys-modify p (with_status overdue) i keys xs (λ a. refl) (λ a. refl) h)

  push-Keeps :
      (j : DocId) (k : String) (xs : List Invoice) → Keeps xs (push_reminder_sent db j k xs)
  unfolding push_reminder_sent
  push-Keeps j k xs =
      let e = db.update_one_lem (has_id j) (with_reminder k) xs in
      record {
        same_ids = ap ids e ∙ ids-modify_first (has_id j) (with_reminder k) xs (λ a. refl);
        known = λ i l h. rw e (
            IsKnown-modify (has_id j) (with_reminder k) i l xs (λ a. refl)
              (λ a g. add_to_set-grows k l a.fema_reminders_sent g) h);
      }

  push-HasKeys_ne :
      (j : DocId) (k : String) (i : DocId) (keys : List String) (xs : List Invoice)
      → j ≢ i
      → HasKeys i keys xs
      → HasKeys i keys (push_reminder_sent db j k xs)
  unfolding push_reminder_sent
  push-HasKeys_ne j k i keys xs ne h =
      rw (db.update_one_lem (has_id j) (with_reminder k) xs)
        (HasKeys-modify_ne j (with_reminder k) i keys xs (λ a. refl) ne h)

  push-found :
      (j : DocId) (k : String) (xs : List Invoice) {b : Invoice}
      → find? (has_id j) xs ≡ some b
      → find? (has_id j) (push_reminder_sent db j k xs) ≡ some (with_reminder k b)
  unfolding push_reminder_sent
  push-found j k xs h =
      ap (find? (has_id j)) (db.update_one_lem (has_id j) (with_reminder k) xs)
      ∙ find?-modify_first (has_id j) (with_reminder k) xs h (find?-holds (has_id j) xs h)

  pub push_all-Keeps :
      (j : DocId) (ts : List Threshold) (xs : List Invoice) → Keeps xs (push_all db j ts xs)
  push_all-Keeps j [] xs = Keeps-refl xs
  push_all-Keeps j (t ∷ ts) xs =
      Keeps-trans xs (push_reminder_sent db j t.key xs) (push_all db j (t ∷ ts) xs)
        (push-Keeps j t.key xs) (push_all-Keeps j ts (push_reminder_sent db j t.key xs))

  pub push_all-HasKeys_ne :
      (j : DocId) (ts : List Threshold) (i : DocId) (keys : List String) (xs : List Invoice)
      → j ≢ i
      → HasKeys i keys xs
      → HasKeys i keys (push_all db j ts xs)
  push_all-HasKeys_ne j [] i keys xs ne h = h
  push_all-HasKeys_ne j (t ∷ ts) i keys xs ne h =
      push_all-HasKeys_ne j ts i keys (push_reminder_sent db j t.key xs) ne
        (push-HasKeys_ne j t.key i keys xs ne h)

  -- The key of the last threshold is on file in the end.
  pub push_all-IsKnown :
      (j : DocId) (t : Threshold) (ts : List Threshold) (xs : List Invoice) {b : Invoice}
      → find? (has_id j) xs ≡ some b
      → IsKnown j (last_threshold t ts).key (push_all db j (t ∷ ts) xs)
  push_all-IsKnown j t [] xs {b} h = (
    with_reminder t.key b,
    push-found j t.key xs h,
    add_to_set-includes t.key b.fema_reminders_sent (eq_refl t.key),
  )
  push_all-IsKnown j t (u ∷ ts) xs h =
      push_all-IsKnown j u ts (push_reminder_sent db j t.key xs) (push-found j t.key xs h)

module _ (db : Mongo) {W : Type 0} where
  pub lapsed-Keeps :
      (days : ℤ) (inv : Invoice) (s : Store W) → Keeps s.invoices (lapsed db days inv s).invoices
  lapsed-Keeps days inv s = elim (Bool-cases (le_const days 0 && differs inv.status overdue)) [
    | inl y ↦ rw y (mark_overdue-Keeps db inv.id s.invoices)
    | inr n ↦ rw n (Keeps-refl s.invoices)
  ]

  pub lapsed-HasKeys :
      (days : ℤ) (inv : Invoice) (s : Store W) (i : DocId) (keys : List String)
      → HasKeys i keys s.invoices
      → HasKeys i keys (lapsed db days inv s).invoices
  lapsed-HasKeys days inv s i keys h =
      elim (Bool-cases (le_const days 0 && differs inv.status overdue)) [
        | inl y ↦ rw y (mark_overdue-HasKeys db inv.id i keys s.invoices h)
        | inr n ↦ rw n h
      ]

  pub lapsed-mails :
      (days : ℤ) (inv : Invoice) (s : Store W) → (lapsed db days inv s).mails ≡ s.mails
  lapsed-mails days inv s = elim (Bool-cases (le_const days 0 && differs inv.status overdue)) [
    | inl y ↦ rw y refl
    | inr n ↦ rw n refl
  ]
