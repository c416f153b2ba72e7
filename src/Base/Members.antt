-- ===== src/Base/Members.antt =====
-- The members of a list that was written to.
use mathlib.Core.Path.{◌≡◌, refl}
use mathlib.Core.Bool.{Bool, true}
use mathlib.Core.List.{List, [], ◌∷◌, Memᴰ}
use mathlib.Core.Logic.{◌⊎◌, inl, inr}
use mathlib.Core.Option.{some}
use native.Mathlib.Omega.{arith}
use crossbill_back.Base.Tests.{Bool-cases}
use crossbill_back.Base.Lists.{All, All₂, find?, modify_first, modify_all, remove_first}

module _ {A : Type 0} (p : A → Bool) {d : A} where
  -- A write loses the first match alone, and adds what it makes of it.
  pub Memᴰ-modify_first :
      (f : A → A) (xs : List A) {a : A}
      → find? p xs ≡ some d
      → Memᴰ a xs
      → (a ≡ d) ⊎ Memᴰ a (modify_first p f xs)
  Memᴰ-modify_first f [] h m = elim m [ ]
  Memᴰ-modify_first f (x ∷ xs) h (Memᴰ.head e) = elim (Bool-cases (p x)) [
    | inl y ↦ inl (ground arith)
    | inr n ↦ inr (rw n (Memᴰ.head e))
  ]
  Memᴰ-modify_first f (x ∷ xs) h (Memᴰ.tail m) = elim (Bool-cases (p x)) [
    | inl y ↦ inr (rw y (Memᴰ.tail m))
    | inr n ↦ elim (Memᴰ-modify_first f xs (rw n at h) m) [
      | inl e ↦ inl e
      | inr m' ↦ inr (rw n (Memᴰ.tail m'))
    ]
  ]

  pub modify_first-Memᴰ :
      (f : A → A) (xs : List A) → find? p xs ≡ some d → Memᴰ (f d) (modify_first p f xs)
  modify_first-Memᴰ f [] h = cc
  modify_first-Memᴰ f (x ∷ xs) h = elim (Bool-cases (p x)) [
    | inl y ↦ let e : x ≡ d = ground arith in rw (y, e) (Memᴰ.head refl)
    | inr n ↦ rw n (Memᴰ.tail (modify_first-Memᴰ f xs (rw n at h)))
  ]

  -- A deletion loses the first match alone.
  pub Memᴰ-remove_first :
      (xs : List A) {a : A} → find? p xs ≡ some d → Memᴰ a xs → (a ≡ d) ⊎ Memᴰ a (remove_first p xs)
  Memᴰ-remove_first [] h m = elim m [ ]
  Memᴰ-remove_first (x ∷ xs) h (Memᴰ.head e) = elim (Bool-cases (p x)) [
    | inl y ↦ inl (ground arith)
    | inr n ↦ inr (rw n (Memᴰ.head e))
  ]
  Memᴰ-remove_first (x ∷ xs) h (Memᴰ.tail m) = elim (Bool-cases (p x)) [
    | inl y ↦ inr (rw y m)
    | inr n ↦ elim (Memᴰ-remove_first xs (rw n at h) m) [
      | inl e ↦ inl e
      | inr m' ↦ inr (rw n (Memᴰ.tail m'))
    ]
  ]

module _ {A : Type 0} (p : A → Bool) (f : A → A) where
  -- A write to every match keeps or changes each member.
  pub Memᴰ-modify_all :
      (xs : List A) {a : A}
      → Memᴰ a xs
      → Memᴰ a (modify_all p f xs) ⊎ ((p a ≡ true) × Memᴰ (f a) (modify_all p f xs))
  Memᴰ-modify_all [] m = elim m [ ]
  Memᴰ-modify_all (x ∷ xs) (Memᴰ.head e) = elim (Bool-cases (p x)) [
    | inl y ↦ rw (y, e, y) (inr (refl, Memᴰ.head refl))
    | inr n ↦ rw n (inl (Memᴰ.head e))
  ]
  Memᴰ-modify_all (x ∷ xs) (Memᴰ.tail m) = elim (Memᴰ-modify_all xs m) [
    | inl m' ↦ inl (Memᴰ.tail m')
    | inr (y, m') ↦ inr (y, Memᴰ.tail m')
  ]

-- A member of a list has a related one in a related list.
pub All₂-Memᴰ :
    {A : Type 0} (R : A → A → Type 0) (xs ys : List A) {a : A}
    → All₂ R xs ys
    → Memᴰ a xs
    → (b : A) × Memᴰ b ys × R a b
All₂-Memᴰ R [] ys h m = elim m [ ]
All₂-Memᴰ R (x ∷ xs) [] h m = absurd h
All₂-Memᴰ R (x ∷ xs) (y ∷ ys) h (Memᴰ.head e) = (y, Memᴰ.head refl, rw e h.0)
All₂-Memᴰ R (x ∷ xs) (y ∷ ys) h (Memᴰ.tail m) =
    let (b, m', r) = All₂-Memᴰ R xs ys h.1 m in (b, Memᴰ.tail m', r)

pub All-All₂ :
    {A : Type 0} (R : A → A → Type 0) (P : A → Type 0)
    → ((a b : A) → R a b → P a → P b)
    → (xs ys : List A) → All₂ R xs ys
    → All P xs
    → All P ys
All-All₂ R P step [] [] h k = tt
All-All₂ R P step [] (y ∷ ys) h k = absurd h
All-All₂ R P step (x ∷ xs) [] h k = tt
All-All₂ R P step (x ∷ xs) (y ∷ ys) h k = (step x y h.0 k.0, All-All₂ R P step xs ys h.1 k.1)
