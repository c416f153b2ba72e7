-- ===== src/Reminders/Writes.antt =====
-- What the writes of a sweep do to the keys of reminders on file.
use crossbill_back.Base.{
  ◌≡◌, ◌≢◌, refl, ap, ◌∙◌, ◌⊎◌, inl, inr, Bool, true, false, List, [], ◌∷◌, ◌++◌, some, String,
  find?, modify_first, All, arith, Bool-cases,
}
use crossbill_back.Base.Updates.{find?-modify_first_ne}
use crossbill_back.Audit.{DocId}
use crossbill_back.Invoices.Defs.{Invoice}
use crossbill_back.Invoices.Handlers.{has_id, add_to_set}
use crossbill_back.Reminders.Sweep.{includes}
use text.Mathlib.Text.{◌==◌ as same_text}

abbrev pub ids : List Invoice → List DocId
ids [] = []
ids (inv ∷ invs) = inv.id ∷ ids invs

-- No two members are equal.
abbrev pub Distinct : List DocId → Type 0
Distinct [] = Unit
Distinct (i ∷ is) = All (λ j. i ≢ j) is × Distinct is

-- The invoice `i` on file has these reminders.
abbrev pub HasKeys : DocId → List String → List Invoice → Type 0
HasKeys i keys xs = (b : Invoice) × (find? (has_id i) xs ≡ some b) × (b.fema_reminders_sent ≡ keys)

-- The reminder `k` of the invoice `i` is on file.
abbrev pub IsKnown : DocId → String → List Invoice → Type 0
IsKnown i k xs =
    (b : Invoice) × (find? (has_id i) xs ≡ some b) × (includes b.fema_reminders_sent k ≡ true)

pub ids-modify_first :
    (p : Invoice → Bool) (f : Invoice → Invoice) (xs : List Invoice)
    → ((a : Invoice) → (f a).id ≡ a.id)
    → ids (modify_first p f xs) ≡ ids xs
ids-modify_first p f [] h = refl
ids-modify_first p f (x ∷ xs) h = elim (Bool-cases (p x)) [
  | inl y ↦ rw (y, h x) refl
  | inr n ↦ rw (n, ids-modify_first p f xs h) refl
]

-- A write that keeps ids shows, to a search by id, the document or what the write makes of it.
find-modify :
    (p : Invoice → Bool) (f : Invoice → Invoice) (i : DocId) (xs : List Invoice) {b : Invoice}
    → ((a : Invoice) → (f a).id ≡ a.id)
    → find? (has_id i) xs ≡ some b
    → (c : Invoice) × (find? (has_id i) (modify_first p f xs) ≡ some c) × ((c ≡ b) ⊎ (c ≡ f b))
find-modify p f i [] keep h = cc
find-modify p f i (x ∷ xs) {b} keep h = elim (Bool-cases (p x)) [
  | inl y ↦ elim (Bool-cases (has_id i x)) [
    | inl z ↦
        let e : x ≡ b = ground arith in
        let k : has_id i (f x) ≡ true = rw (keep x) z in (f x, rw (y, k) refl, inr (ap f e))
    | inr z ↦ let k : has_id i (f x) ≡ false = rw (keep x) z in (b, rw (y, k) (rw z at h), inl refl)
  ]
  | inr n ↦ elim (Bool-cases (has_id i x)) [
    | inl z ↦ (x, rw (n, z) refl, inl (ground arith))
    | inr z ↦
        let (c, found, which) = find-modify p f i xs keep (rw z at h) in (c, rw (n, z) found, which)
  ]
]

pub IsKnown-modify :
    (p : Invoice → Bool) (f : Invoice → Invoice) (i : DocId) (k : String) (xs : List Invoice)
    → ((a : Invoice) → (f a).id ≡ a.id)
    → ((a : Invoice)
        → includes a.fema_reminders_sent k ≡ true
        → includes (f a).fema_reminders_sent k ≡ true)
    → IsKnown i k xs
    → IsKnown i k (modify_first p f xs)
IsKnown-modify p f i k xs keep grow (b, h, e) =
    let (c, found, which) = find-modify p f i xs keep h in
    (c, found, elim which [ inl same ↦ rw same e | inr new ↦ rw new (grow b e) ])

pub HasKeys-modify :
    (p : Invoice → Bool) (f : Invoice → Invoice) (i : DocId) (keys : List String)
    (xs : List Invoice)
    → ((a : Invoice) → (f a).id ≡ a.id)
    → ((a : Invoice) → (f a).fema_reminders_sent ≡ a.fema_reminders_sent)
    → HasKeys i keys xs
    → HasKeys i keys (modify_first p f xs)
HasKeys-modify p f i keys xs keep same_keys (b, h, e) =
    let (c, found, which) = find-modify p f i xs keep h in
    (c, found, elim which [ inl same ↦ rw same e | inr new ↦ rw new (same_keys b ∙ e) ])

-- A write to another document does not show.
pub HasKeys-modify_ne :
    (j : DocId) (f : Invoice → Invoice) (i : DocId) (keys : List String) (xs : List Invoice)
    → ((a : Invoice) → (f a).id ≡ a.id)
    → j ≢ i
    → HasKeys i keys xs
    → HasKeys i keys (modify_first (has_id j) f xs)
HasKeys-modify_ne j f i keys xs keep ne (b, h, e) = (
  b,
  find?-modify_first_ne (has_id j) (has_id i) f xs
        (λ a it. (other j i a ne it, rw (keep a) (other j i a ne it)))
      ∙ h,
  e,
)
  where
    other : (j i : DocId) (a : Invoice) → j ≢ i → has_id j a ≡ true → has_id i a ≡ false
    other j i a ne it = ground arith

includes-append :
    (k : String) (ks js : List String) → includes ks k ≡ true → includes (ks ++ js) k ≡ true
includes-append k [] js h = cc
includes-append k (l ∷ ks) js h = elim (Bool-cases (same_text l k)) [
  | inl y ↦ rw y refl
  | inr n ↦ rw n (includes-append k ks js (rw n at h))
]

includes_end :
    (k : String) (ks : List String) → same_text k k ≡ true → includes (ks ++ k ∷ []) k ≡ true
includes_end k [] h = rw h refl
includes_end k (l ∷ ks) h = elim (Bool-cases (same_text l k)) [
  | inl y ↦ rw y refl
  | inr n ↦ rw n (includes_end k ks h)
]

pub add_to_set-grows :
    (j k : String) (ks : List String) → includes ks k ≡ true → includes (add_to_set j ks) k ≡ true
add_to_set-grows j k ks h = elim (Bool-cases (includes ks j)) [
  | inl y ↦ rw y h
  | inr n ↦ rw n (includes-append k ks (j ∷ []) h)
]

pub add_to_set-includes :
    (k : String) (ks : List String) → same_text k k ≡ true → includes (add_to_set k ks) k ≡ true
add_to_set-includes k ks h = elim (Bool-cases (includes ks k)) [
  | inl y ↦ rw (y, y) refl
  | inr n ↦ rw n (includes_end k ks h)
]
