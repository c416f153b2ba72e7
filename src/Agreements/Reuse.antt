-- ===== src/Agreements/Reuse.antt =====
-- One verification of an Aadhaar number, presented on the links of two agreements.
use crossbill_back.Base.{ℕ, ◌≡◌, refl, sym, ap, ◌∙◌, true, false, Option, some, arith, find?}
use crossbill_back.Base.Text.{Text, trim}
use crossbill_back.Base.Updates.{find?-modify_first_ne, find?-holds}
use crossbill_back.Base.Http.{ok}
use crossbill_back.Mongo.{Mongo}
use crossbill_back.Audit.{DocId}
use crossbill_back.Aadhaar as Aadhaar
use crossbill_back.Agreements.Defs.{Agreement, Store, Setup, has_token}
use crossbill_back.Agreements.Handlers.{aadhaar_verify, aadhaar_answered, aadhaar_doc}
use crossbill_back.Agreements.Gates.{verify-open, aadhaar_verify-verified}

-- An agreement has one link.
one_link : (a b : DocId) (x : Agreement) → ¬ (a ≡ b) → has_token a x ≡ true → has_token b x ≡ false
one_link a b x n h = ground arith

module _ (db : Mongo) (setup : Setup) (provider : Aadhaar.AadhaarProvider) (now : ℕ) where
  aadhaar_verify-found :
      (token reference : DocId) (otp : Text) (s : Store) {doc : Agreement}
      → find? (has_token token) s.agreements ≡ some doc
      → aadhaar_verify db setup provider now token reference otp s
        ≡ aadhaar_answered db setup now token doc s
            (Aadhaar.verify db provider now doc.org_id reference otp s.aadhaar)
  unfolding aadhaar_verify
  aadhaar_verify-found token reference otp s {doc} found =
      let found' : db.find_one (has_token token) s.agreements ≡ some doc =
        db.find_one_lem (has_token token) s.agreements ∙ found in
      rw (aadhaar_verify, found') refl

  -- What an accepted OTP on the link `a` leaves: the verifications, and the agreements of other links.
  aadhaar_verify-others :
      (a b reference : DocId) (otp : Text) (s : Store) {mine : Agreement} {d : Option Text}
      → find? (has_token a) s.agreements ≡ some mine
      → ¬ (a ≡ b)
      → (Aadhaar.verify db provider now mine.org_id reference otp s.aadhaar).0 ≡ ok d
      → let t = (aadhaar_verify db setup provider now a reference otp s).1 in
        (find? (has_token b) t.agreements ≡ find? (has_token b) s.agreements)
        × (t.aadhaar ≡ (Aadhaar.verify db provider now mine.org_id reference otp s.aadhaar).1)
  aadhaar_verify-others a b reference otp s {mine} {d} linked apart accepted =
      let out = Aadhaar.verify db provider now mine.org_id reference otp s.aadhaar in
      let new : Agreement = aadhaar_doc now d mine in
      let t = (aadhaar_verify db setup provider now a reference otp s).1 in
      let own = find?-holds (has_token a) s.agreements linked in
      let done : aadhaar_verify db setup provider now a reference otp s
          ≡ aadhaar_answered db setup now a mine s (ok d, out.1) =
        aadhaar_verify-found a reference otp s linked
        ∙ ap (λ o. aadhaar_answered db setup now a mine s (o, out.1)) accepted in
      let agreements : t.agreements ≡ db.update_one (has_token a) (λ _. new) s.agreements =
        ap (λ r. r.1.agreements) done in
      (
        ap (find? (has_token b))
              (agreements ∙ db.update_one_lem (has_token a) (λ _. new) s.agreements)
            ∙ find?-modify_first_ne (has_token a) (has_token b) (λ _. new) s.agreements
                (λ x h. (one_link a b x apart h, one_link a b mine apart own)),
        ap (λ r. r.1.aadhaar) done,
      )

  -- An OTP that the provider accepts on the link of one agreement is enough for any other agreement of the
  -- organisation: presented on the link of another one, the same reference is answered for with any OTP,
  -- also one that the provider refuses, and that agreement is marked as verified on file, its status and
  -- its requirement as they were.
  pub aadhaar_verify-reused :
      (a b reference : DocId) (otp other_otp : Text) (s : Store) {mine other : Agreement}
      {v : Aadhaar.AadhaarVerification}
      → find? (has_token a) s.agreements ≡ some mine
      → find? (has_token b) s.agreements ≡ some other
      → ¬ (a ≡ b)
      → mine.org_id ≡ other.org_id
      → find? (Aadhaar.by_reference mine.org_id reference) s.aadhaar.verifications ≡ some v
      → Aadhaar.is_verified v.status ≡ false
      → (provider.verify reference (trim otp)).accepted ≡ true
      → let t = (aadhaar_verify db setup provider now a reference otp s).1 in
        let r = aadhaar_verify db setup provider now b reference other_otp t in
        (r.0 ≡ ok v.aadhaar_last4)
        × ((d : Agreement) × (find? (has_token b) r.1.agreements ≡ some d)
            × (d.aadhaar_verified ≡ true)
            × (d.aadhaar_last4 ≡ v.aadhaar_last4)
            × (d.id ≡ other.id)
            × (d.status ≡ other.status)
            × (d.aadhaar_required ≡ other.aadhaar_required))
  aadhaar_verify-reused a b reference otp other_otp s {mine} {other} {v} linked other_linked apart
        same_org found unverified accepted =
      let t = (aadhaar_verify db setup provider now a reference otp s).1 in
      let (answers, refuses) =
        verify-open db provider now mine.org_id reference otp s.aadhaar found unverified in
      let ((d, answer), (w, stored, (status, at, attempts, last4, agreement))) = answers accepted in
      let (others, verifications) = aadhaar_verify-others a b reference otp s linked apart answer in
      let w_found : find? (Aadhaar.by_reference other.org_id reference) t.aadhaar.verifications
          ≡ some w =
        ap (λ o. find? (Aadhaar.by_reference o reference) t.aadhaar.verifications) (sym same_org)
        ∙ ap (λ u. find? (Aadhaar.by_reference mine.org_id reference) u.verifications) verifications
        ∙ stored in
      let (again, kept, (doc, doc_found, verified, digits, i, state, required)) =
        aadhaar_verify-verified db provider now setup b reference other_otp t
          (others ∙ other_linked) w_found (rw status refl) in
      (again ∙ ap ok last4, (doc, doc_found, verified, digits ∙ last4, i, state, required))
