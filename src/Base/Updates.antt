-- ===== src/Base/Updates.antt =====
-- What the writes of a collection leave as it was, and what a search finds.
use Prim.Native.Nat.{◌≤◌}
use mathlib.Core.Path.{◌≡◌, refl, ap}
use mathlib.Core.Bool.{Bool, true, false}
use mathlib.Core.List.{List, [], ◌∷◌, Memᴰ}
use mathlib.Core.Logic.{inl, inr}
use mathlib.Core.Option.{none, some}
use native.Mathlib.Omega.{arith}
use crossbill_back.Base.Tests.{Bool-cases}
use crossbill_back.Base.Lists.{
  All, All₂, length, filter, find?, modify_first, modify_all, remove_first,
}

module _ {A : Type 0} (R : A → A → Type 0) (keep : (a : A) → R a a) where
  pub All₂-refl : (xs : List A) → All₂ R xs xs
  All₂-refl [] = tt
  All₂-refl (x ∷ xs) = (keep x, All₂-refl xs)

  pub All₂-modify_first :
      (p : A → Bool) (f : A → A) (xs : List A)
      → ((a : A) → p a ≡ true → R a (f a))
      → All₂ R xs (modify_first p f xs)
  All₂-modify_first p f [] h = tt
  All₂-modify_first p f (x ∷ xs) h = elim (Bool-cases (p x)) [
    | inl e ↦ rw e (h x e, All₂-refl xs)
    | inr e ↦ rw e (keep x, All₂-modify_first p f xs h)
  ]

  -- The first match is the document that a search finds.
  pub All₂-modify_found :
      (p : A → Bool) (f : A → A) (xs : List A) {a : A}
      → find? p xs ≡ some a
      → R a (f a)
      → All₂ R xs (modify_first p f xs)
  All₂-modify_found p f [] e h = tt
  All₂-modify_found p f (x ∷ xs) e h = elim (Bool-cases (p x)) [
    | inl q ↦ let e' : x ≡ _ = ground arith in rw (q, e') (h, All₂-refl xs)
    | inr q ↦ rw q (keep x, All₂-modify_found p f xs (rw q at e) h)
  ]

  pub All₂-modify_all :
      (p : A → Bool) (f : A → A) (xs : List A)
      → ((a : A) → p a ≡ true → R a (f a))
      → All₂ R xs (modify_all p f xs)
  All₂-modify_all p f [] h = tt
  All₂-modify_all p f (x ∷ xs) h = elim (Bool-cases (p x)) [
    | inl e ↦ rw e (h x e, All₂-modify_all p f xs h)
    | inr e ↦ rw e (keep x, All₂-modify_all p f xs h)
  ]

pub All₂-trans :
    {A : Type 0} (R : A → A → Type 0)
    → ((a b c : A) → R a b → R b c → R a c)
    → (xs ys zs : List A) → All₂ R xs ys
    → All₂ R ys zs
    → All₂ R xs zs
All₂-trans R step [] [] [] h k = tt
All₂-trans R step [] [] (z ∷ zs) h k = k
All₂-trans R step [] (y ∷ ys) zs h k = absurd h
All₂-trans R step (x ∷ xs) [] zs h k = absurd h
All₂-trans R step (x ∷ xs) (y ∷ ys) [] h k = k
All₂-trans R step (x ∷ xs) (y ∷ ys) (z ∷ zs) h k =
    (step x y z h.0 k.0, All₂-trans R step xs ys zs h.1 k.1)

module _ {A : Type 0} (P : A → Type 0) where
  pub All-modify_first :
      (p : A → Bool) (f : A → A) (xs : List A)
      → ((a : A) → p a ≡ true → P a → P (f a))
      → All P xs
      → All P (modify_first p f xs)
  All-modify_first p f [] h k = tt
  All-modify_first p f (x ∷ xs) h k = elim (Bool-cases (p x)) [
    | inl e ↦ rw e (h x e k.0, k.1)
    | inr e ↦ rw e (k.0, All-modify_first p f xs h k.1)
  ]

  -- A write to the document that a search finds.
  pub All-modify_found :
      (p : A → Bool) (f : A → A) (xs : List A) {d : A}
      → find? p xs ≡ some d
      → P (f d)
      → All P xs
      → All P (modify_first p f xs)
  All-modify_found p f [] e h k = tt
  All-modify_found p f (x ∷ xs) {d} e h k = elim (Bool-cases (p x)) [
    | inl y ↦ let it : x ≡ d = ground arith in rw (y, it) (h, k.1)
    | inr n ↦ rw n (k.0, All-modify_found p f xs (rw n at e) h k.1)
  ]

  pub All-modify_all :
      (p : A → Bool) (f : A → A) (xs : List A)
      → ((a : A) → p a ≡ true → P a → P (f a))
      → All P xs
      → All P (modify_all p f xs)
  All-modify_all p f [] h k = tt
  All-modify_all p f (x ∷ xs) h k = elim (Bool-cases (p x)) [
    | inl e ↦ rw e (h x e k.0, All-modify_all p f xs h k.1)
    | inr e ↦ rw e (k.0, All-modify_all p f xs h k.1)
  ]

  pub All-remove_first : (p : A → Bool) (xs : List A) → All P xs → All P (remove_first p xs)
  All-remove_first p [] k = tt
  All-remove_first p (x ∷ xs) k = elim (Bool-cases (p x)) [
    | inl e ↦ rw e k.1
    | inr e ↦ rw e (k.0, All-remove_first p xs k.1)
  ]

  pub All-find? : (p : A → Bool) (xs : List A) {a : A} → find? p xs ≡ some a → All P xs → P a
  All-find? p [] h k = cc
  All-find? p (x ∷ xs) h k = elim (Bool-cases (p x)) [
    | inl e ↦ let e' : x ≡ _ = ground arith in rw e' at k.0
    | inr e ↦ All-find? p xs (rw e at h) k.1
  ]

module _ {A : Type 0} (p : A → Bool) where
  -- A document that a search returns passes its test.
  pub find?-holds : (xs : List A) {a : A} → find? p xs ≡ some a → p a ≡ true
  find?-holds [] h = cc
  find?-holds (x ∷ xs) h = elim (Bool-cases (p x)) [
    | inl e ↦ ground arith
    | inr e ↦ find?-holds xs (rw e at h)
  ]

  pub find?-Memᴰ : (xs : List A) {a : A} → find? p xs ≡ some a → Memᴰ a xs
  find?-Memᴰ [] h = cc
  find?-Memᴰ (x ∷ xs) h = elim (Bool-cases (p x)) [
    | inl e ↦ Memᴰ.head (ground arith)
    | inr e ↦ Memᴰ.tail (find?-Memᴰ xs (rw e at h))
  ]

  -- A search that returns nothing has no match.
  pub find?-none : (xs : List A) → find? p xs ≡ none → All (λ a. p a ≡ false) xs
  find?-none [] h = tt
  find?-none (x ∷ xs) h = elim (Bool-cases (p x)) [
    | inl e ↦ cc (rw e at h)
    | inr e ↦ (e, find?-none xs (rw e at h))
  ]

  -- The first match is where a write lands: the search that follows finds it, if it still matches.
  pub find?-modify_first :
      (f : A → A) (xs : List A) {a : A}
      → find? p xs ≡ some a
      → p (f a) ≡ true
      → find? p (modify_first p f xs) ≡ some (f a)
  find?-modify_first f [] h k = cc
  find?-modify_first f (x ∷ xs) h k = elim (Bool-cases (p x)) [
    | inl e ↦ ground arith
    | inr e ↦ rw (e, e) (find?-modify_first f xs (rw e at h) k)
  ]

module _ {A : Type 0} (p q : A → Bool) (f : A → A) where
  -- A write does not show to a search whose matches it neither takes nor makes.
  pub find?-modify_first_ne :
      (xs : List A)
      → ((a : A) → p a ≡ true → (q a ≡ false) × (q (f a) ≡ false))
      → find? q (modify_first p f xs) ≡ find? q xs
  find?-modify_first_ne [] h = refl
  find?-modify_first_ne (x ∷ xs) h = elim (Bool-cases (p x)) [
    | inl e ↦ rw (e, (h x e).0, (h x e).1)
    | inr e ↦ rw (e, find?-modify_first_ne xs h)
  ]

module _ {A : Type 0} (p q : A → Bool) (f : A → A) where
  -- A write that makes no new match of `q` does not raise the number of its matches.
  pub count-modify_found :
      (xs : List A) {a : A}
      → find? p xs ≡ some a
      → (q (f a) ≡ true → q a ≡ true)
      → length (filter q (modify_first p f xs)) ≤ length (filter q xs)
  count-modify_found [] e h = cc
  count-modify_found (x ∷ xs) e h = elim (Bool-cases (p x)) [
    | inl y ↦ ground arith
    | inr n ↦ ground (arith, count-modify_found xs (rw n at e) h)
  ]

module _ {A : Type 0} (q : A → Bool) where
  pub filter-none : (xs : List A) → find? q xs ≡ none → filter q xs ≡ []
  filter-none [] e = refl
  filter-none (x ∷ xs) e = elim (Bool-cases (q x)) [
    | inl y ↦ cc (rw y at e)
    | inr n ↦ rw n (filter-none xs (rw n at e))
  ]

-- Two searches that find the same document find what a write through one of them makes of it.
pub find?-modify_same :
    {A : Type 0} (p q : A → Bool) (f : A → A) (xs : List A) {a : A}
    → find? p xs ≡ some a
    → find? q xs ≡ some a
    → q (f a) ≡ true
    → find? q (modify_first p f xs) ≡ some (f a)
find?-modify_same p q f [] hp hq k = cc
find?-modify_same p q f (x ∷ xs) {a} hp hq k = elim (Bool-cases (p x)) [
  | inl y ↦
      let e : x ≡ a = ground arith in
      let k' : q (f x) ≡ true = rw e k in rw (y, k') (ap (λ z. some (f z)) e)
  | inr n ↦ elim (Bool-cases (q x)) [
    | inl y ↦
        let e : a ≡ x = ground arith in
        let no : p a ≡ false = rw e n in cc (no, find?-holds p (x ∷ xs) hp)
    | inr m ↦ rw (n, m) (find?-modify_same p q f xs (rw n at hp) (rw m at hq) k)
  ]
]
