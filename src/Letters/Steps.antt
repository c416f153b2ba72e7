-- ===== src/Letters/Steps.antt =====
-- How a request moves a letter.
use crossbill_back.Base.{
  ℕ, ◌≡◌, sym, ◌∙◌, ◌⊎◌, inl, inr, true, Option, some, String, is_some, arith, find?, modify_first,
  Option-cases, Bool-cases,
}
use crossbill_back.Base.Http.{ok}
use crossbill_back.Mongo.{Mongo}
use crossbill_back.Audit.{DocId}
use crossbill_back.Letters.Defs.{
  LetterStatus, draft, sent, accepted, rejected, expired, HrLetter, Store, eq_letter,
  letter_transitions, moved, scoped_letter, set_status,
}

-- A move of a letter at an instant: a draft is sent, once it was printed, or expires; a sent letter is
-- decided or expires; the stamp of the move is set.
abbrev pub Move : ℕ → HrLetter → HrLetter → Type 0
Move now l l' =
    ((l.status ≡ draft)
      × (l'.status ≡ sent)
      × (l'.sent_at ≡ some now)
      × ((is_some l.pdf_url ≡ true) ⊎ (is_some l.generated_at ≡ true)))
    ⊎ ((l.status ≡ sent)
        × ((l'.status ≡ accepted) ⊎ (l'.status ≡ rejected))
        × (l'.decided_at ≡ some now))
    ⊎ (((l.status ≡ draft) ⊎ (l.status ≡ sent)) × (l'.status ≡ expired))

eq_letter_lem : (a b : LetterStatus) → eq_letter a b ≡ true → a ≡ b
eq_letter_lem a b h = ground arith

module _ (db : Mongo) (render : HrLetter → Option String) (now org : DocId) (user : Option DocId)
    (i : DocId) (to : LetterStatus) (s : Store) where
  -- A change of status that goes through found the letter in the organisation. Either it had the
  -- status already and nothing is written, or the letter makes a move of the graph to that status,
  -- keeps the rest of its text, and is the only one written.
  pub set_status-Move :
      {r : HrLetter × Store}
      → set_status db render now org user i to s ≡ ok r
      → (l : HrLetter) × (find? (scoped_letter org i) s.letters ≡ some l)
        × (((l.status ≡ to) × (r.0 ≡ l) × (r.1 ≡ s))
            ⊎ (Move now l r.0
                × (r.0 ≡ moved now to l)
                × (r.1.letters ≡ modify_first (scoped_letter org i) (λ _. r.0) s.letters)))
  unfolding set_status letter_transitions
  set_status-Move {r} h = elim (Option-cases (db.find_one (scoped_letter org i) s.letters)) [
    | inl e ↦ ground arith
    | inr (l, e) ↦ (
      l,
      sym (db.find_one_lem (scoped_letter org i) s.letters) ∙ e,
      elim (Bool-cases (eq_letter l.status to)) [
        | inl y ↦ inl (eq_letter_lem l.status to y, ground arith, ground arith)
        | inr n ↦ inr (
          ground arith,
          ground arith,
          ground (arith, db.update_one_lem (scoped_letter org i) (λ _. r.0) s.letters),
        )
      ],
    )
  ]
