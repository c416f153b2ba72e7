-- ===== src/Numbering/Tests.antt =====
-- Numbers of two series that interleave.
use crossbill_back.Base.{ℕ, ◌≡◌, refl, List, [], ◌∷◌, arith}
use crossbill_back.Base.Text.{codes}
use crossbill_back.Base.Decimal.{decimal}
use crossbill_back.Mongo.InMemory.{in_memory}
use crossbill_back.Numbering.Defs.{Series, invoices, notes, key_of, format}
use crossbill_back.Numbering.Format.{format_with-injective}
use crossbill_back.Numbering.Gapless.{issued, numbered, requests, issued-eq-numbered}

abbrev bills : Series
bills = invoices (codes "65f1") (codes "2026-27")

abbrev credits : Series
credits = notes (codes "65f1") (codes "2026-27") (codes "CN")

abbrev busy : List Series
busy = bills ∷ credits ∷ bills ∷ credits ∷ bills ∷ []

format_test : format (codes "2026-27") 7 ≡ codes "CB/2026-27/0007"
unfolding format decimal
format_test = refl

third_bill :
    issued in_memory (key_of bills) busy []
    ≡ codes "CB/2026-27/0001" ∷ codes "CB/2026-27/0002" ∷ codes "CB/2026-27/0003" ∷ []
unfolding issued format decimal
third_bill = refl

issued-eq-numbered_example :
    issued in_memory (key_of credits) busy [] ≡ numbered in_memory credits 0 2
unfolding requests
issued-eq-numbered_example =
    issued-eq-numbered in_memory credits busy [] (ground arith) (ground arith)

format_with-injective_example : ◌≡◌ {A = ℕ} 12345 12345
format_with-injective_example =
    format_with-injective (codes "CN") (codes "2026-27") 12345 12345 refl
