-- ===== src/Base/Money.antt =====
-- Amounts as the program stores them, texts with two decimals, and as it adds them, in hundredths.
use Prim.Native.Nat.{ℕ, ◌+◌, ◌-◌, ◌*◌, ◌/◌, ◌%◌, ◌≤◌, ◌<◌}
use mathlib.Core.Path.{◌≡◌, refl}
use mathlib.Core.Logic.{inl, inr}
use mathlib.Core.Bool.{Bool, ◌&&◌, ◌||◌}
use mathlib.Core.List.{[], ◌∷◌, ◌++◌}
use native.Mathlib.Omega.{arith}
use crossbill_back.Base.Tests.{leb, ltb, ◌==◌, if◌then◌else◌, Bool-cases}
use crossbill_back.Base.Lists.{All, all, length}
use crossbill_back.Base.Text.{Text, pad_start, Lacks}
use crossbill_back.Base.Decimal.{
  decimal, read, read-decimal, All-decimal, decimal_small, decimal_two,
}

-- `(n / 100).toFixed(2)`.
unfoldable pub fixed2 : ℕ → Text
fixed2 n = decimal (n / 100) ++ b'.' ∷ pad_start 2 (decimal (n % 100))

-- The part before the first point, and the part after it.
abbrev pub split_point : Text → Text × Text
split_point [] = ([], [])
split_point (c ∷ s) =
    let (whole, rest) = split_point s in if c == b'.' then ([], s) else (c ∷ whole, rest)

abbrev digit : ℕ → ℕ
digit c = c - b'0'

-- The decimals of an amount in hundredths, rounded half up at the third.
abbrev pub hundredths : Text → ℕ
hundredths [] = 0
hundredths (c ∷ []) = 10 * digit c
hundredths (c ∷ d ∷ []) = 10 * digit c + digit d
hundredths (c ∷ d ∷ e ∷ _) = 10 * digit c + digit d + (if leb b'5' e then 1 else 0)

-- `Math.round(parseFloat(s || '0') * 100)`, for a run of digits with or without decimals.
unfoldable pub cents_of : Text → ℕ
cents_of s = let (whole, rest) = split_point s in read whole * 100 + hundredths rest

-- `/^\d{1,12}(\.\d{1,2})?$/.test(s)`.
abbrev is_digit : ℕ → Bool
is_digit c = leb b'0' c && leb c b'9'

unfoldable pub is_money : Text → Bool
is_money s =
    let (whole, rest) = split_point s in
    all is_digit whole
    && leb 1 (length whole)
    && leb (length whole) 12
    && all is_digit rest
    && leb (length rest) 2
    && (leb 1 (length rest) || length whole == length s)

split_point-append : (s t : Text) → Lacks b'.' s → split_point (s ++ b'.' ∷ t) ≡ (s, t)
split_point-append [] t h = refl
split_point-append (c ∷ s) t h = ground (arith, split_point-append s t h.1)

digits-Lacks : (s : Text) → All (λ c. b'0' ≤ c) s → Lacks b'.' s
digits-Lacks [] h = tt
digits-Lacks (c ∷ s) h = (λ e. omega arith, digits-Lacks s h.1)

hundredths-pad_start : (n : ℕ) → n < 100 → hundredths (pad_start 2 (decimal n)) ≡ n
hundredths-pad_start n h = elim (Bool-cases (ltb n 10)) [
  | inl small ↦ rw (decimal_small n (ground arith)) (omega arith)
  | inr big ↦ rw (decimal_two n (ground arith) h) (omega arith)
]

-- The text of an amount is read back as the amount.
pub cents_of-fixed2 : (n : ℕ) → cents_of (fixed2 n) ≡ n
unfolding cents_of fixed2
cents_of-fixed2 n =
    rw
      (
        split_point-append (decimal (n / 100)) (pad_start 2 (decimal (n % 100)))
            (digits-Lacks (decimal (n / 100)) (All-decimal (n / 100))),
        read-decimal (n / 100),
        hundredths-pad_start (n % 100) (omega arith),
      )
      (omega arith)
