-- ===== src/Numbering/Format.antt =====
-- A number's text gives the number back, and no two series share a counter.
use crossbill_back.Base.{ℕ, ◌≡◌, ap, ◌∙◌, sym, ◌++◌, [], ◌∷◌, arith}
use crossbill_back.Base.Text.{Text, codes, pad_start, Lacks, split_unique}
use crossbill_back.Base.Decimal.{decimal, read, read-decimal, read-pad_start}
use crossbill_back.Numbering.Defs.{Series, invoices, notes, key_of, format, format_with}

-- What the text of an `ObjectId` and of a financial year is: free of colons.
abbrev pub IsPlain : Series → Type 0
IsPlain (invoices org fy) = Lacks b':' org × Lacks b':' fy
IsPlain (notes org fy prefix) = Lacks b':' org × Lacks b':' fy × Lacks b':' prefix

has_colon : (f f' p : Text) → Lacks b':' f → f ≡ f' ++ b':' ∷ p → ⊥
has_colon [] [] p h e = cc
has_colon [] (d ∷ f') p h e = cc
has_colon (c ∷ f) [] p h e = ground arith
has_colon (c ∷ f) (d ∷ f') p h e = has_colon f f' p h.1 (cc)

append-cancel : (s : Text) {t u : Text} → s ++ t ≡ s ++ u → t ≡ u
append-cancel [] e = e
append-cancel (c ∷ s) e = append-cancel s (cc)

cons-cancel : (c : ℕ) {t u : Text} → c ∷ t ≡ c ∷ u → t ≡ u
cons-cancel c e = cc

pub pad_start-decimal-injective :
    (k a b : ℕ) → pad_start k (decimal a) ≡ pad_start k (decimal b) → a ≡ b
pad_start-decimal-injective k a b e =
    sym (read-decimal a)
    ∙ sym (read-pad_start k (decimal a))
    ∙ ap read e
    ∙ read-pad_start k (decimal b)
    ∙ read-decimal b

-- In one series different sequence numbers have different texts, however many digits they have.
pub format_with-injective :
    (prefix fy : Text) (a b : ℕ) → format_with prefix fy a ≡ format_with prefix fy b → a ≡ b
unfolding format_with
format_with-injective prefix fy a b e =
    pad_start-decimal-injective 4 a b
      (cons-cancel b'/' (append-cancel fy (cons-cancel b'/' (append-cancel prefix e))))

-- Series with plain parts that have the same counter are the same series.
pub key_of-injective : (s t : Series) → IsPlain s → IsPlain t → key_of s ≡ key_of t → s ≡ t
key_of-injective (invoices o f) (invoices o' f') h k e =
    ground (arith, split_unique b':' o o' f f' h.0 k.0 e)
key_of-injective (invoices o f) (notes o' f' p') h k e =
    absurd (has_colon f f' p' h.1 (split_unique b':' o o' f (f' ++ b':' ∷ p') h.0 k.0 e).1)
key_of-injective (notes o f p) (invoices o' f') h k e =
    absurd (has_colon f' f p k.1 (sym (split_unique b':' o o' (f ++ b':' ∷ p) f' h.0 k.0 e).1))
key_of-injective (notes o f p) (notes o' f' p') h k e =
    let first = split_unique b':' o o' (f ++ b':' ∷ p) (f' ++ b':' ∷ p') h.0 k.0 e in
    ground (arith, first, split_unique b':' f f' p p' h.1 k.1 first.1)

pub format-injective : (fy : Text) (a b : ℕ) → format fy a ≡ format fy b → a ≡ b
unfolding format
format-injective fy a b e = format_with-injective (codes "CB") fy a b e
