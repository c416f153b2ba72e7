-- ===== src/Numbering/Gapless.antt =====
-- However requests to different series interleave, each series is numbered 1, 2, 3 and so on.
use crossbill_back.Base.{
  ℕ, zero, suc, All, ◌≡◌, refl, ◌∙◌, inl, inr, true, false, List, [], ◌∷◌, arith, Bool-cases,
  Option-cases, if◌then◌else◌, find?, upsert_first,
}
use crossbill_back.Base.Text.{Text, text_eq, text_eq→≡, text_eq_refl}
use crossbill_back.Base.Updates.{find?-holds, find?-modify_first, find?-modify_first_ne}
use crossbill_back.Mongo.{Mongo}
use crossbill_back.Numbering.Format.{IsPlain, key_of-injective}
use crossbill_back.Numbering.Defs.{
  Counter, Series, invoices, notes, key_of, seq_of, has_key, bump, format, format_with, increment,
  allocate, allocate_series, peek_next,
}

-- The last number given out under a key.
abbrev pub last_of : Text → List Counter → ℕ
last_of k cs = seq_of (find? (has_key k) cs)

abbrev new_counter : Text → Counter
new_counter k = record { key = k; seq = 0 }

-- `increment` on the plain list.
abbrev pub bumped : Text → List Counter → Counter × List Counter
bumped k cs = upsert_first (has_key k) bump (new_counter k) cs

bumped-seq : (k : Text) (cs : List Counter) → (bumped k cs).0.seq ≡ suc (last_of k cs)
bumped-seq k cs = ground arith

pub last_of-bumped_self :
    (k : Text) (cs : List Counter) → last_of k (bumped k cs).1 ≡ suc (last_of k cs)
last_of-bumped_self k cs = elim (Option-cases (find? (has_key k) cs)) [
  | inl e ↦ ground (arith, text_eq_refl k)
  | inr (c, e) ↦
      ground (arith, find?-modify_first (has_key k) bump cs e (find?-holds (has_key k) cs e))
]

other_key :
    (j k : Text) (c : Counter) → text_eq j k ≡ false → has_key j c ≡ true → has_key k c ≡ false
other_key j k c ne e = rw (text_eq→≡ c.key j e) ne

pub last_of-bumped_ne :
    (j k : Text) (cs : List Counter)
    → text_eq j k ≡ false
    → last_of k (bumped j cs).1 ≡ last_of k cs
last_of-bumped_ne j k cs ne = elim (Option-cases (find? (has_key j) cs)) [
  | inl e ↦ ground arith
  | inr (c, e) ↦ ground (
    arith,
    find?-modify_first_ne (has_key j) (has_key k) bump cs
        (λ a h. (other_key j k a ne h, other_key j k a ne h)),
  )
]

module _ (db : Mongo) where
  increment_lem : (k : Text) (cs : List Counter) → increment db k cs ≡ bumped k cs
  unfolding increment
  increment_lem k cs = db.upsert_lem (has_key k) bump (new_counter k) cs

  -- A request for a number of a series, and its answer.
  unfoldable pub serve : Series → List Counter → Text × List Counter
  serve (invoices org fy) cs = allocate db org fy cs
  serve (notes org fy prefix) cs = allocate_series db org fy prefix cs

  -- The text of a number of a series.
  abbrev pub text_of : Series → ℕ → Text
  text_of (invoices org fy) n = format fy n
  text_of (notes org fy prefix) n = format_with prefix fy n

  serve_lem :
      (s : Series) (cs : List Counter)
      → serve s cs ≡ (text_of s (suc (last_of (key_of s) cs)), (bumped (key_of s) cs).1)
  unfolding serve allocate allocate_series format
  serve_lem (invoices org fy) cs =
      rw (increment_lem (key_of (invoices org fy)) cs, bumped-seq (key_of (invoices org fy)) cs)
  serve_lem (notes org fy prefix) cs = rw (
    increment_lem (key_of (notes org fy prefix)) cs,
    bumped-seq (key_of (notes org fy prefix)) cs,
  )

  pub allocate_lem :
      (org fy : Text) (cs : List Counter)
      → let k = key_of (invoices org fy) in
        allocate db org fy cs ≡ (format fy (suc (last_of k cs)), (bumped k cs).1)
  unfolding serve
  allocate_lem org fy cs = serve_lem (invoices org fy) cs

  pub allocate_series_lem :
      (org fy prefix : Text) (cs : List Counter)
      → let k = key_of (notes org fy prefix) in
        allocate_series db org fy prefix cs
        ≡ (format_with prefix fy (suc (last_of k cs)), (bumped k cs).1)
  unfolding serve
  allocate_series_lem org fy prefix cs = serve_lem (notes org fy prefix) cs

  -- The answers that the requests for one counter get, in their order.
  unfoldable pub issued : Text → List Series → List Counter → List Text
  unfolding serve allocate allocate_series
  issued k [] cs = []
  issued k (s ∷ ss) cs =
      let (text, cs') = serve s cs in
      let rest = issued k ss cs' in if text_eq (key_of s) k then text ∷ rest else rest

  -- The numbers after `n` that those requests must get.
  unfoldable pub expected : Text → List Series → ℕ → List Text
  expected k [] n = []
  expected k (s ∷ ss) n =
      if text_eq (key_of s) k then text_of s (suc n) ∷ expected k ss (suc n) else expected k ss n

  -- In every sequence of requests to every series, in any interleaving, the requests of one counter
  -- get the numbers that follow its last one, each exactly once and with no gap.
  pub issued-eq-expected :
      (k : Text) (ss : List Series) (cs : List Counter)
      → issued k ss cs ≡ expected k ss (last_of k cs)
  unfolding issued expected
  issued-eq-expected k [] cs = refl
  issued-eq-expected k (s ∷ ss) cs = elim (Bool-cases (text_eq (key_of s) k)) [
    | inl e ↦ ground (
      arith,
      serve_lem s cs,
      text_eq→≡ (key_of s) k e,
      issued-eq-expected k ss (bumped (key_of s) cs).1,
      last_of-bumped_self k cs,
    )
    | inr ne ↦ ground (
      arith,
      serve_lem s cs,
      issued-eq-expected k ss (bumped (key_of s) cs).1,
      last_of-bumped_ne (key_of s) k cs ne,
    )
  ]

  -- How many of the requests are to the series `s`.
  unfoldable pub requests : Series → List Series → ℕ
  requests s [] = 0
  requests s (t ∷ ss) =
      let rest = requests s ss in if text_eq (key_of t) (key_of s) then suc rest else rest

  -- The next `c` numbers of a series after `n`.
  unfoldable pub numbered : Series → ℕ → ℕ → List Text
  numbered s n zero = []
  numbered s n (suc c) = text_of s (suc n) ∷ numbered s (suc n) c

  expected-eq-numbered :
      (s : Series) (ss : List Series) (n : ℕ)
      → IsPlain s
      → All IsPlain ss
      → expected (key_of s) ss n ≡ numbered s n (requests s ss)
  unfolding expected numbered requests
  expected-eq-numbered s [] n h hs = refl
  expected-eq-numbered s (t ∷ ss) n h hs = elim (Bool-cases (text_eq (key_of t) (key_of s))) [
    | inl e ↦ ground (
      arith,
      key_of-injective t s hs.0 h (text_eq→≡ (key_of t) (key_of s) e),
      expected-eq-numbered s ss (suc n) h hs.1,
    )
    | inr ne ↦ rw (ne, expected-eq-numbered s ss n h hs.1)
  ]

  -- In every sequence of requests to any series, however they interleave, the requests to one series
  -- are answered with the texts of the numbers that follow its counter's value, in order, each once
  -- and with no gap. Organisations, years and prefixes hold no colon.
  pub issued-eq-numbered :
      (s : Series) (ss : List Series) (cs : List Counter)
      → IsPlain s
      → All IsPlain ss
      → issued (key_of s) ss cs ≡ numbered s (last_of (key_of s) cs) (requests s ss)
  issued-eq-numbered s ss cs h hs =
      issued-eq-expected (key_of s) ss cs ∙ expected-eq-numbered s ss (last_of (key_of s) cs) h hs

  -- The number shown ahead is the number that the next allocation in the same year gives.
  pub peek_next-allocate :
      (org fy : Text) (cs : List Counter) → peek_next db org fy cs ≡ (allocate db org fy cs).0
  unfolding peek_next allocate
  peek_next-allocate org fy cs = ground (
    arith,
    increment_lem (key_of (invoices org fy)) cs,
    db.find_one_lem (has_key (key_of (invoices org fy))) cs,
  )
