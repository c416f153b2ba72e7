-- ===== src/Invoices/Numbers.antt =====
-- The numbers of the invoices on file: 1, 2, 3 and so on in each organisation and financial year.
use crossbill_back.Base.{
  ℕ, suc, ◌≤◌, ◌≡◌, refl, sym, ap, ◌∙◌, inl, inr, true, false, List, [], ◌∷◌, none, arith, All, any,
  Memᴰ, Bool-cases, leb, leb→le,
}
use crossbill_back.Base.Text.{Text, text_eq, text_eq→≡, split_unique}
use crossbill_back.Base.Decimal.{decimal, read, read-decimal, decimal-Lacks}
use crossbill_back.Mongo.{violated}
use crossbill_back.Audit.{DocId}
use crossbill_back.Numbering.{Counter, Series, key_of, format}
use crossbill_back.Numbering.Format.{format-injective}
use crossbill_back.Numbering.Gapless.{last_of, bumped, last_of-bumped_self, last_of-bumped_ne}
use crossbill_back.Invoices.Defs.{Invoice, invoice_indexes, same_number}

abbrev pub counter_key : DocId → Text → Text
counter_key org fy = key_of (Series.invoices (decimal org) fy)

-- The last number of an organisation's year.
abbrev pub last_number : DocId → Text → List Counter → ℕ
last_number org fy cs = last_of (counter_key org fy) cs

-- The invoice has number `n` of its series.
abbrev pub HasNumber : DocId → Text → ℕ → Invoice → Type 0
HasNumber org fy n inv = (inv.org_id ≡ org) × (inv.financial_year ≡ fy) × (inv.number ≡ format fy n)

-- The invoice has a number that its counter has given out.
abbrev pub IsIssued : List Counter → Invoice → Type 0
IsIssued cs inv =
    (n : ℕ) × (n ≤ last_number inv.org_id inv.financial_year cs)
    × (inv.number ≡ format inv.financial_year n)

-- Every number that a counter has given out is on an invoice.
abbrev pub Complete : List Counter → List Invoice → Type 0
Complete cs xs =
    (org : DocId) (fy : Text) (n : ℕ)
    → 1 ≤ n
    → n ≤ last_number org fy cs
    → (inv : Invoice) × Memᴰ inv xs × HasNumber org fy n inv

pub record IsGapless (cs : List Counter) (xs : List Invoice) : Type 0 where
  pub issued : All (IsIssued cs) xs
  pub complete : Complete cs xs

counter_key-injective :
    (o o' : DocId) (f f' : Text) → counter_key o f ≡ counter_key o' f' → (o ≡ o') × (f ≡ f')
counter_key-injective o o' f f' e =
    let (same, years) =
      split_unique b':' (decimal o) (decimal o') f f' (decimal-Lacks o) (decimal-Lacks o') e in
    (sym (read-decimal o) ∙ ap read same ∙ read-decimal o', years)

last_of-grows : (j k : Text) (cs : List Counter) → last_of k cs ≤ last_of k (bumped j cs).1
last_of-grows j k cs = elim (Bool-cases (text_eq j k)) [
  | inl e ↦ rw (text_eq→≡ j k e, last_of-bumped_self k cs) (omega arith)
  | inr n ↦ rw (last_of-bumped_ne j k cs n) (omega arith)
]

IsIssued-grows :
    (j : Text) (cs : List Counter) (xs : List Invoice)
    → All (IsIssued cs) xs
    → All (IsIssued (bumped j cs).1) xs
IsIssued-grows j cs [] h = tt
IsIssued-grows j cs (x ∷ xs) h =
    let (n, le, e) = h.0 in
    let grows : last_number x.org_id x.financial_year cs
        ≤ last_number x.org_id x.financial_year (bumped j cs).1 =
      last_of-grows j (counter_key x.org_id x.financial_year) cs in
    ((n, omega (arith, le, grows), e), IsIssued-grows j cs xs h.1)

-- Two invoices of a series with the same text have the same number.
same_series :
    (a b : Invoice) (m n : ℕ)
    → a.number ≡ format a.financial_year m
    → b.number ≡ format b.financial_year n
    → same_number a b ≡ true
    → (a.org_id ≡ b.org_id) × (a.financial_year ≡ b.financial_year) × (m ≡ n)
same_series a b m n ea eb h =
    let org : a.org_id ≡ b.org_id = ground arith in
    let fy : a.financial_year ≡ b.financial_year =
      text_eq→≡ a.financial_year b.financial_year (ground arith) in
    let number : a.number ≡ b.number = text_eq→≡ a.number b.number (ground arith) in
    let eb' : b.number ≡ format a.financial_year n = rw fy eb in
    (org, fy, format-injective a.financial_year m n (sym ea ∙ number ∙ eb'))

not_same :
    (doc : Invoice) (cs : List Counter) (x : Invoice)
    → doc.number ≡ format doc.financial_year (suc (last_number doc.org_id doc.financial_year cs))
    → IsIssued cs x
    → same_number doc x ≡ false
not_same doc cs x e (n, le, ex) = elim (Bool-cases (same_number doc x)) [
  | inr free ↦ free
  | inl y ↦
      let (org, fy, next) =
        same_series doc x (suc (last_number doc.org_id doc.financial_year cs)) n e ex y in
      let le' : n ≤ last_number doc.org_id doc.financial_year cs = rw (org, fy) le in
      absurd (omega (arith, le', next))
]

-- The next number is free.
no_clash :
    (doc : Invoice) (cs : List Counter) (xs : List Invoice)
    → doc.number ≡ format doc.financial_year (suc (last_number doc.org_id doc.financial_year cs))
    → All (IsIssued cs) xs
    → any (same_number doc) xs ≡ false
no_clash doc cs [] e h = refl
no_clash doc cs (x ∷ xs) e h = rw (not_same doc cs x e h.0) (no_clash doc cs xs e h.1)

pub next-fresh :
    (doc : Invoice) (cs : List Counter) (xs : List Invoice)
    → doc.number ≡ format doc.financial_year (suc (last_number doc.org_id doc.financial_year cs))
    → All (IsIssued cs) xs
    → violated invoice_indexes doc xs ≡ none
next-fresh doc cs xs e h = rw (no_clash doc cs xs e h) refl

is_last : (n k : ℕ) → leb n k ≡ false → n ≤ suc k → suc k ≡ n
is_last n k h le = ground arith

next-Complete :
    (doc : Invoice) (cs : List Counter) (xs : List Invoice)
    → doc.number ≡ format doc.financial_year (suc (last_number doc.org_id doc.financial_year cs))
    → Complete cs xs
    → Complete (bumped (counter_key doc.org_id doc.financial_year) cs).1 (doc ∷ xs)
next-Complete doc cs xs e h org fy n low high =
    elim (Bool-cases (text_eq (counter_key doc.org_id doc.financial_year) (counter_key org fy))) [
      | inr other ↦
          let (inv, m, has) = h org fy n low (
            rw
              (last_of-bumped_ne (counter_key doc.org_id doc.financial_year) (counter_key org fy) cs
                other)
              at high) in
          (inv, Memᴰ.tail m, has)
      | inl y ↦
          let (o, f) =
            counter_key-injective doc.org_id org doc.financial_year fy
              (text_eq→≡ (counter_key doc.org_id doc.financial_year) (counter_key org fy) y) in
          let same = text_eq→≡ (counter_key doc.org_id doc.financial_year) (counter_key org fy) y in
          let high' : n ≤ suc (last_number org fy cs) =
            rw (same, last_of-bumped_self (counter_key org fy) cs) at high in
          let at_end : doc.number ≡ format fy (suc (last_number org fy cs)) = rw (o, f) at e in
          elim (Bool-cases (leb n (last_number org fy cs))) [
            | inl old ↦
                let (inv, m, has) = h org fy n low (leb→le n (last_number org fy cs) old) in
                (inv, Memᴰ.tail m, has)
            | inr new ↦ (
              doc,
              Memᴰ.head refl,
              (o, f, at_end ∙ ap (format fy) (is_last n (last_number org fy cs) new high')),
            )
          ]
    ]

pub next-IsGapless :
    (doc : Invoice) (cs : List Counter) (xs : List Invoice)
    → doc.number ≡ format doc.financial_year (suc (last_number doc.org_id doc.financial_year cs))
    → IsGapless cs xs
    → IsGapless (bumped (counter_key doc.org_id doc.financial_year) cs).1 (doc ∷ xs)
next-IsGapless doc cs xs e h =
    let k = counter_key doc.org_id doc.financial_year in
    record {
      issued = (
        (
          suc (last_number doc.org_id doc.financial_year cs),
          rw (last_of-bumped_self k cs) (omega arith),
          e,
        ),
        IsIssued-grows k cs xs h.issued,
      );
      complete = next-Complete doc cs xs e h.complete;
    }
