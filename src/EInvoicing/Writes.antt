-- ===== src/EInvoicing/Writes.antt =====
-- What the two writes of e-invoices keep.
use crossbill_back.Base.{
  ℕ, ◌+◌, ◌≤◌, ◌≡◌, refl, sym, ◌∙◌, inl, inr, Bool, true, false, List, [], ◌∷◌, none, some, String,
  ltb, find?, modify_first, upsert_first, All, arith, Bool-cases, Option-cases, get_or, ==_refl,
}
use crossbill_back.Base.Updates.{All-modify_first, All-modify_found, find?-none, All-find?}
use crossbill_back.Audit.{DocId}
use crossbill_back.Invoices.Defs.{Invoice}
use crossbill_back.EInvoicing.Defs.{
  generated, cancelled, EInvoice, EInvoiceResult, EInvoiceProvider, cancel_window_ms, of_invoice,
  is_generated, registered, blank_einvoice, withdrawn,
}

-- An active e-invoice knows when it was generated, and a cancelled one was cancelled at most
-- a day and the latency of the provider later.
pub record IsTimely (latency : ℕ) (e : EInvoice) : Type 0 where
  pub live : e.status ≡ generated → (g : ℕ) × (e.generated_at ≡ some g) × (e.cancelled_at ≡ none)
  pub in_time :
      e.status ≡ cancelled
      → (g : ℕ) × (c : ℕ) × (e.generated_at ≡ some g)
        × (e.cancelled_at ≡ some c)
        × (c ≤ g + cancel_window_ms + latency)

abbrev pub SameInvoice : EInvoice → EInvoice → Type 0
SameInvoice a b = (a.org_id ≡ b.org_id) × (a.invoice_id ≡ b.invoice_id)

-- No two e-invoices are of one invoice.
abbrev pub OneEach : List EInvoice → Type 0
OneEach [] = Unit
OneEach (e ∷ es) = All (λ f. ¬ SameInvoice e f) es × OneEach es

pub record IsSound (latency : ℕ) (es : List EInvoice) : Type 0 where
  pub timely : All (IsTimely latency) es
  pub one_each : OneEach es

module _ (p : EInvoice → Bool) (f : EInvoice → EInvoice)
    (keep : (a : EInvoice) → SameInvoice (f a) a) where
  apart-modify :
      (e : EInvoice) (es : List EInvoice)
      → All (λ b. ¬ SameInvoice e b) es
      → All (λ b. ¬ SameInvoice e b) (modify_first p f es)
  apart-modify e es h =
      All-modify_first (λ b. ¬ SameInvoice e b) p f es
        (λ a it apart same. apart (same.0 ∙ (keep a).0, same.1 ∙ (keep a).1)) h

  moved-apart :
      (e : EInvoice) (es : List EInvoice)
      → All (λ b. ¬ SameInvoice e b) es
      → All (λ b. ¬ SameInvoice (f e) b) es
  moved-apart e [] h = tt
  moved-apart e (b ∷ es) h =
      ((λ same. h.0 (sym (keep e).0 ∙ same.0, sym (keep e).1 ∙ same.1)), moved-apart e es h.1)

  OneEach-modify_first : (es : List EInvoice) → OneEach es → OneEach (modify_first p f es)
  OneEach-modify_first [] h = tt
  OneEach-modify_first (e ∷ es) h = elim (Bool-cases (p e)) [
    | inl y ↦ rw y (moved-apart e es h.0, h.1)
    | inr n ↦ rw n (apart-modify e es h.0, OneEach-modify_first es h.1)
  ]

not-of :
    (org i : DocId) (d : EInvoice) (es : List EInvoice)
    → (d.org_id ≡ org) × (d.invoice_id ≡ i)
    → All (λ e. of_invoice org i e ≡ false) es
    → All (λ b. ¬ SameInvoice d b) es
not-of org i d [] own h = tt
not-of org i d (e ∷ es) own h = (apart, not-of org i d es own h.1)
  where
    apart : ¬ SameInvoice d e
    apart same =
        let o : e.org_id ≡ org = sym same.0 ∙ own.0 in
        let n : e.invoice_id ≡ i = sym same.1 ∙ own.1 in
        let it : of_invoice org i e ≡ true = rw (o, n, ==_refl org, ==_refl i) refl in cc (it, h.0)

registered-IsTimely :
    (latency : ℕ) (provider : EInvoiceProvider) (now : ℕ) (inv : Invoice) (r : EInvoiceResult)
    (e : EInvoice)
    → IsTimely latency (registered provider now inv r e)
registered-IsTimely latency provider now inv r e = record {
  live = λ h. (now, refl, refl);
  in_time = λ h. ground arith;
}

-- What the upsert of a generation leaves.
pub upsert-IsSound :
    (latency : ℕ) (provider : EInvoiceProvider) (now : ℕ) (inv : Invoice) (r : EInvoiceResult)
    (org i : DocId) (es : List EInvoice)
    → IsSound latency es
    → IsSound latency
        (upsert_first
          (of_invoice org i)
          (registered provider now inv r)
          (blank_einvoice now org i)
          es).1
upsert-IsSound latency provider now inv r org i es h =
    elim (Option-cases (find? (of_invoice org i) es)) [
      | inl e ↦
          rw (upsert_first, e)
            (record {
              timely = (
                registered-IsTimely latency provider now inv r (blank_einvoice now org i),
                h.timely,
              );
              one_each = (
                not-of org i (registered provider now inv r (blank_einvoice now org i)) es
                    (refl, refl) (find?-none (of_invoice org i) es e),
                h.one_each,
              );
            })
      | inr (d, e) ↦
          rw (upsert_first, e)
            (record {
              timely =
                  All-modify_first (IsTimely latency) (of_invoice org i)
                    (registered provider now inv r) es
                    (λ a it t. registered-IsTimely latency provider now inv r a) h.timely;
              one_each =
                  OneEach-modify_first (of_invoice org i) (registered provider now inv r)
                    (λ a. (refl, refl)) es h.one_each;
            })
    ]

withdrawn-IsTimely :
    (latency checked_at stamped_at : ℕ) (prompt : stamped_at ≤ checked_at + latency)
    (reason : String) (e : EInvoice)
    → is_generated e.status ≡ true
    → ltb (get_or e.generated_at e.created_at + cancel_window_ms) checked_at ≡ false
    → IsTimely latency e
    → IsTimely latency (withdrawn stamped_at reason e)
withdrawn-IsTimely latency checked_at stamped_at prompt reason e lives early h =
    let (g, at, none_yet) = h.live (ground arith) in
    record { live = λ k. ground arith; in_time = λ k. (g, stamped_at, at, refl, ground arith) }

pub cancel-IsSound :
    (latency checked_at stamped_at : ℕ) (prompt : stamped_at ≤ checked_at + latency)
    (reason : String) (org i : DocId) (es : List EInvoice) (doc : EInvoice)
    → find? (of_invoice org i) es ≡ some doc
    → is_generated doc.status ≡ true
    → ltb (get_or doc.generated_at doc.created_at + cancel_window_ms) checked_at ≡ false
    → IsSound latency es
    → IsSound latency (modify_first (of_invoice org i) (withdrawn stamped_at reason) es)
cancel-IsSound latency checked_at stamped_at prompt reason org i es doc found lives early h =
    record {
      timely =
          All-modify_found (IsTimely latency) (of_invoice org i) (withdrawn stamped_at reason) es
            found
            (withdrawn-IsTimely latency checked_at stamped_at prompt reason doc lives early
              (All-find? (IsTimely latency) (of_invoice org i) es found h.timely))
            h.timely;
      one_each =
          OneEach-modify_first (of_invoice org i) (withdrawn stamped_at reason) (λ a. (refl, refl))
            es h.one_each;
    }
