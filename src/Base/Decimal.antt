-- ===== src/Base/Decimal.antt =====
-- `String(n)` and the reading of a run of digits, for natural numbers.
use Prim.Native.Nat.{ℕ, zero, suc, ◌+◌, ◌-◌, ◌*◌, ◌/◌, ◌%◌, ◌≤◌, ◌<◌}
use mathlib.Core.Path.{◌≡◌, refl}
use mathlib.Core.List.{[], ◌∷◌, ◌++◌}
use mathlib.Core.Logic.{inl, inr}
use native.Mathlib.Omega.{arith}
use crossbill_back.Base.Tests.{ltb, if◌then◌else◌, Bool-cases}
use crossbill_back.Base.Lists.{All, All-append, replicate, length}
use crossbill_back.Base.Text.{Text, pad_start, codes, Lacks}

-- The digits of `n`, given more fuel than `n`.
digits : ℕ → ℕ → Text
digits zero n = []
digits (suc f) n =
    let front = digits f (n / 10) in
    if ltb n 10 then (b'0' + n) ∷ [] else front ++ (b'0' + n % 10) ∷ []

digits_small : (f n : ℕ) → 0 < f → n < 10 → digits f n ≡ (b'0' + n) ∷ []
unfolding digits
digits_small zero n p h = elim p [ ]
digits_small (suc f) n p h = ground arith

-- `String(n)`.
unfoldable pub decimal : ℕ → Text
unfolding digits
decimal n = digits (suc n) n

-- The number that a run of digits stands for, read after `acc`.
unfoldable pub read_from : ℕ → Text → ℕ
read_from acc [] = acc
read_from acc (c ∷ s) = read_from (acc * 10 + (c - b'0')) s

unfoldable pub read : Text → ℕ
unfolding read_from
read s = read_from 0 s

pub read_from-append :
    (acc : ℕ) (s t : Text) → read_from acc (s ++ t) ≡ read_from (read_from acc s) t
unfolding read_from
read_from-append acc [] t = refl
read_from-append acc (c ∷ s) t = read_from-append (acc * 10 + (c - b'0')) s t

read-digits : (f n : ℕ) → n < f → read_from 0 (digits f n) ≡ n
unfolding digits read_from
read-digits zero n h = elim h [ ]
read-digits (suc f) n h = elim (Bool-cases (ltb n 10)) [
  | inl small ↦ rw small (omega arith)
  | inr big ↦
      rw (big, read_from-append 0 (digits f (n / 10)) _, read-digits f (n / 10) (ground arith))
        (omega arith)
]

pub read-decimal : (n : ℕ) → read (decimal n) ≡ n
unfolding read decimal
read-decimal n = read-digits (suc n) n (omega arith)

read_from-zeros : (k : ℕ) (s : Text) → read_from 0 (replicate k b'0' ++ s) ≡ read_from 0 s
unfolding read_from
read_from-zeros zero s = refl
read_from-zeros (suc k) s = read_from-zeros k s

pub read-pad_start : (k : ℕ) (s : Text) → read (pad_start k s) ≡ read s
unfolding read
read-pad_start k s = read_from-zeros (k - length s) s

pub decimal_small : (n : ℕ) → n < 10 → decimal n ≡ (b'0' + n) ∷ []
unfolding decimal
decimal_small n h = ground arith

-- Two digits.
pub decimal_two : (n : ℕ) → 10 ≤ n → n < 100 → decimal n ≡ (b'0' + n / 10) ∷ (b'0' + n % 10) ∷ []
unfolding decimal
decimal_two n g h = ground (arith, digits_small n (n / 10))

All-digits : (f n : ℕ) → All (λ c. b'0' ≤ c) (digits f n)
unfolding digits
All-digits zero n = tt
All-digits (suc f) n = elim (Bool-cases (ltb n 10)) [
  | inl small ↦ rw small (omega arith, tt)
  | inr big ↦
      rw big
        (All-append (λ c. b'0' ≤ c) (digits f (n / 10)) _ (All-digits f (n / 10)) (omega arith, tt))
]

pub All-decimal : (n : ℕ) → All (λ c. b'0' ≤ c) (decimal n)
unfolding decimal
All-decimal n = All-digits (suc n) n

All-digits_le : (f n : ℕ) → All (λ c. c ≤ b'9') (digits f n)
unfolding digits
All-digits_le zero n = tt
All-digits_le (suc f) n = elim (Bool-cases (ltb n 10)) [
  | inl small ↦ rw small (ground arith, tt)
  | inr big ↦ rw big (
      All-append (λ c. c ≤ b'9') (digits f (n / 10)) _ (All-digits_le f (n / 10)) (omega arith, tt))
]

colon_free : (s : Text) → All (λ c. c ≤ b'9') s → Lacks b':' s
colon_free [] h = tt
colon_free (c ∷ s) h = (λ e. omega arith, colon_free s h.1)

pub decimal-Lacks : (n : ℕ) → Lacks b':' (decimal n)
unfolding decimal
decimal-Lacks n = colon_free (digits (suc n) n) (All-digits_le (suc n) n)

decimal_test : decimal 2027 ≡ codes "2027"
unfolding decimal
decimal_test = refl
