-- ===== src/Agreements/Evidence.antt =====
-- What stays of an agreement: its text, its trail, and all of it once it is signed.
use crossbill_back.Base.{
  ◌≡◌, refl, sym, ap, ◌∙◌, inl, inr, true, List, [], ◌∷◌, ◌++◌, none, All, Memᴰ,
}
use crossbill_back.Base.Updates.{All-modify_first, All-find?, find?-holds}
use crossbill_back.Base.Members.{Memᴰ-modify_first, modify_first-Memᴰ}
use crossbill_back.Agreements.Defs.{Agreement, AuditEvent, Store, is_signed}
use crossbill_back.Agreements.Writes.{Wrote}

-- An agreement without what its contract lifecycle may change: its dates, its obligations, its
-- reminders and its trail.
abbrev pub evidence : Agreement → Agreement
evidence a = record a {
  audit_trail = [];
  effective_date = none;
  renewal_date = none;
  expiry_date = none;
  obligations = [];
  lifecycle_reminders_sent = [];
}

-- The same agreement later on.
pub record Later (a b : Agreement) : Type 0 where
  pub same_id : b.id ≡ a.id
  pub same_org : b.org_id ≡ a.org_id
  pub same_title : b.title ≡ a.title
  pub same_body : b.body ≡ a.body
  pub trail_grows : (more : List AuditEvent) × (b.audit_trail ≡ a.audit_trail ++ more)
  pub signed_stays : is_signed a.status ≡ true → evidence b ≡ evidence a

-- A signed agreement has no signing link.
abbrev pub NoLink : Agreement → Type 0
NoLink a = is_signed a.status ≡ true → a.sign_token ≡ none

pub append_nil : {A : Type 0} (xs : List A) → xs ++ [] ≡ xs
append_nil [] = refl
append_nil (x ∷ xs) = ap (x ∷◌) (append_nil xs)

pub append_assoc : {A : Type 0} (xs ys zs : List A) → (xs ++ ys) ++ zs ≡ xs ++ (ys ++ zs)
append_assoc [] ys zs = refl
append_assoc (x ∷ xs) ys zs = ap (x ∷◌) (append_assoc xs ys zs)

pub Later-refl : (a : Agreement) → Later a a
Later-refl a = record {
  same_id = refl;
  same_org = refl;
  same_title = refl;
  same_body = refl;
  trail_grows = ([], sym (append_nil a.audit_trail));
  signed_stays = λ _. refl;
}

pub Later-trans : (a b c : Agreement) → Later a b → Later b c → Later a c
Later-trans a b c h k = record {
  same_id = k.same_id ∙ h.same_id;
  same_org = k.same_org ∙ h.same_org;
  same_title = k.same_title ∙ h.same_title;
  same_body = k.same_body ∙ h.same_body;
  trail_grows =
      let (m, e) = h.trail_grows in
      let (n, f) = k.trail_grows in
      (m ++ n, f ∙ ap (λ t. t ++ n) e ∙ append_assoc a.audit_trail m n);
  signed_stays =
      λ y. let e = h.signed_stays y in k.signed_stays (ap (λ x. is_signed x.status) e ∙ y) ∙ e;
}

-- Every agreement of the first store is in the second, later on.
abbrev pub Continues : Store → Store → Type 0
Continues s t =
    (a : Agreement) → Memᴰ a s.agreements → (b : Agreement) × Memᴰ b t.agreements × Later a b

abbrev pub NoLinks : Store → Type 0
NoLinks s = All NoLink s.agreements

-- A write of one document that goes on from the one found.
pub Wrote-Continues :
    (p : Agreement → _) (R : Agreement → Agreement → Type 0) (s t : Store)
    → NoLinks s
    → Wrote p R s t
    → ((old new : Agreement) → p old ≡ true → NoLink old → R old new → Later old new × NoLink new)
    → Continues s t × NoLinks t
Wrote-Continues p R s t good (old, new, found, wrote, r) step =
    let (later, link) =
      step old new (find?-holds p s.agreements found) (All-find? NoLink p s.agreements found good)
        r in
    (
      λ a m. elim (Memᴰ-modify_first p (λ _. new) s.agreements found m) [
        | inl e ↦ (new, rw wrote (modify_first-Memᴰ p (λ _. new) s.agreements found), rw e later)
        | inr m' ↦ (a, rw wrote m', Later-refl a)
      ],
      rw wrote (All-modify_first NoLink p (λ _. new) s.agreements (λ a y h. link) good),
    )
