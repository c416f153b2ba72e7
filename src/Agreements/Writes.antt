-- ===== src/Agreements/Writes.antt =====
-- What each handler of the signing flow has found and written, when it goes through.
use crossbill_back.Base.{
  ◌≡◌, refl, sym, ◌∙◌, ◌⊎◌, inl, inr, Bool, true, false, [], ◌∷◌, Option, some, String, arith,
  Option-cases, Bool-cases, find?, modify_first,
}
use crossbill_back.Base.Text.{Text}
use crossbill_back.Base.Http.{ok, Result-cases}
use crossbill_back.Mongo.{Mongo}
use crossbill_back.Audit.{DocId}
use crossbill_back.Aadhaar as Aadhaar
use crossbill_back.Agreements.Defs.{
  Agreement, CreateAgreementDto, SendAgreementDto, SignAgreementDto, Store, Setup, is_signed,
  is_closed, is_sent, scoped, has_token,
}
use crossbill_back.Agreements.Signing.{drafted, sent_doc, signed_doc, check_otp}
use crossbill_back.Agreements.Handlers.{
  with_pdf, viewed_doc, declined_doc, new_otp, aadhaar_doc, create, send, get_for_signing,
  aadhaar_init, aadhaar_verify, resend_otp, sign, decline,
}

-- The first match of a selector, turned into another document; nothing else is written.
abbrev pub Wrote : (Agreement → Bool) → (Agreement → Agreement → Type 0) → Store → Store → Type 0
Wrote p R s t =
    (old : Agreement) × (new : Agreement) × (find? p s.agreements ≡ some old)
    × (t.agreements ≡ modify_first p (λ _. new) s.agreements)
    × R old new

module _ (db : Mongo) (s : Store) where
  pub find_scoped :
      (org i : DocId) {a : Agreement}
      → db.find_one (scoped org i) s.agreements ≡ some a
      → find? (scoped org i) s.agreements ≡ some a
  find_scoped org i e = sym (db.find_one_lem (scoped org i) s.agreements) ∙ e

  find_token :
      (token : DocId) {a : Agreement}
      → db.find_one (has_token token) s.agreements ≡ some a
      → find? (has_token token) s.agreements ≡ some a
  find_token token e = sym (db.find_one_lem (has_token token) s.agreements) ∙ e

  module _ (setup : Setup) where
    pub send-Wrote :
        (now token : DocId) (otp : Text) (org : DocId) (user : Option DocId) (i : DocId)
        (dto : SendAgreementDto) {r : Agreement × Store}
        → send db setup now token otp org user i dto s ≡ ok r
        → Wrote
            (scoped org i)
            (λ old new.
              (is_signed old.status ≡ false) × (new ≡ sent_doc setup now token otp dto old))
            s
            r.1
    unfolding send
    send-Wrote now token otp org user i dto {r} h =
        elim (Option-cases (db.find_one (scoped org i) s.agreements)) [
          | inl e ↦ ground arith
          | inr (old, e) ↦
              let new : Agreement = sent_doc setup now token otp dto old in
              (
                old,
                new,
                find_scoped org i e,
                ground (arith, db.update_one_lem (scoped org i) (λ _. new) s.agreements),
                (ground arith, refl),
              )
        ]

    pub sign-Wrote :
        (now code token : DocId) (dto : SignAgreementDto) (ip : String) (ua : Option Text)
        {r : Agreement × Store}
        → sign db setup now code token dto ip ua s ≡ ok r
        → Wrote
            (has_token token)
            (λ old new.
              (is_signed old.status ≡ false)
              × (is_closed old.status ≡ false)
              × ((old.aadhaar_required ≡ false) ⊎ (old.aadhaar_verified ≡ true))
              × (check_otp setup now token dto.otp old ≡ ok tt)
              × (new ≡ r.0)
              × (new
                  ≡ with_pdf
                      (setup.render (signed_doc setup now code dto ip ua old))
                      (signed_doc setup now code dto ip ua old)))
            s
            r.1
    unfolding sign
    sign-Wrote now code token dto ip ua {r} h =
        elim (Option-cases (db.find_one (has_token token) s.agreements)) [
          | inl e ↦ ground arith
          | inr (old, e) ↦
              let doc : Agreement = signed_doc setup now code dto ip ua old in
              let new : Agreement = with_pdf (setup.render doc) doc in
              elim (Result-cases (check_otp setup now token dto.otp old)) [
                | inr (x, k) ↦ ground arith
                | inl (u, k) ↦ (
                  old,
                  new,
                  find_token token e,
                  ground (arith, db.update_one_lem (has_token token) (λ _. new) s.agreements),
                  (ground arith, ground arith, ground arith, k, ground arith, refl),
                )
              ]
        ]

    pub resend_otp-Wrote :
        (now token : DocId) (otp : Text) {r : Bool × Store}
        → resend_otp db setup now token otp s ≡ ok r
        → (r.1.agreements ≡ s.agreements)
          ⊎ Wrote
              (has_token token)
              (λ old new. (is_signed old.status ≡ false) × (new ≡ new_otp setup now token otp old))
              s
              r.1
    unfolding resend_otp
    resend_otp-Wrote now token otp {r} h =
        elim (Option-cases (db.find_one (has_token token) s.agreements)) [
          | inl e ↦ ground arith
          | inr (old, e) ↦ elim (Bool-cases old.otp_required) [
            | inr n ↦ inl (ground arith)
            | inl y ↦
                let new : Agreement = new_otp setup now token otp old in
                inr (
                  old,
                  new,
                  find_token token e,
                  ground (arith, db.update_one_lem (has_token token) (λ _. new) s.agreements),
                  (ground arith, refl),
                )
          ]
        ]

    pub decline-Wrote :
        (now token : DocId) {r : Agreement × Store}
        → decline db setup now token s ≡ ok r
        → Wrote
            (has_token token)
            (λ old new. (is_signed old.status ≡ false) × (new ≡ declined_doc now old))
            s
            r.1
    unfolding decline
    decline-Wrote now token {r} h =
        elim (Option-cases (db.find_one (has_token token) s.agreements)) [
          | inl e ↦ ground arith
          | inr (old, e) ↦
              let new : Agreement = declined_doc now old in
              (
                old,
                new,
                find_token token e,
                ground (arith, db.update_one_lem (has_token token) (λ _. new) s.agreements),
                (ground arith, refl),
              )
        ]

    pub get_for_signing-Wrote :
        (now token : DocId) {r : Agreement × Store}
        → get_for_signing db setup now token s ≡ ok r
        → (r.1.agreements ≡ s.agreements)
          ⊎ Wrote
              (has_token token)
              (λ old new. (is_sent old.status ≡ true) × (new ≡ viewed_doc now old))
              s
              r.1
    unfolding get_for_signing
    get_for_signing-Wrote now token {r} h =
        elim (Option-cases (db.find_one (has_token token) s.agreements)) [
          | inl e ↦ ground arith
          | inr (old, e) ↦ elim (Bool-cases (is_sent old.status)) [
            | inr n ↦ inl (ground arith)
            | inl y ↦
                let new : Agreement = viewed_doc now old in
                inr (
                  old,
                  new,
                  find_token token e,
                  ground (arith, db.update_one_lem (has_token token) (λ _. new) s.agreements),
                  (y, refl),
                )
          ]
        ]

    pub aadhaar_verify-Wrote :
        (provider : Aadhaar.AadhaarProvider) (now token reference : DocId) (otp : Text)
        → ((aadhaar_verify db setup provider now token reference otp s).1.agreements ≡ s.agreements)
          ⊎ Wrote
              (has_token token)
              (λ old new. (last4 : Option Text) × (new ≡ aadhaar_doc now last4 old))
              s
              (aadhaar_verify db setup provider now token reference otp s).1
    unfolding aadhaar_verify
    aadhaar_verify-Wrote provider now token reference otp =
        elim (Option-cases (db.find_one (has_token token) s.agreements)) [
          | inl e ↦ inl (ground arith)
          | inr (old, e) ↦
              elim (Result-cases
                (Aadhaar.verify db provider now old.org_id reference otp s.aadhaar).0) [
                  | inr (x, k) ↦ inl (ground arith)
                  | inl (last4, k) ↦
                      let new : Agreement = aadhaar_doc now last4 old in
                      inr (
                        old,
                        new,
                        find_token token e,
                        ground (arith, db.update_one_lem (has_token token) (λ _. new) s.agreements),
                        (last4, refl),
                      )
                ]
        ]

    pub aadhaar_init-same :
        (provider : Aadhaar.AadhaarProvider) (token : DocId) (aadhaar : Text) (ip ua : Option Text)
        {r : Option Aadhaar.Initiated × Store}
        → aadhaar_init db setup provider token aadhaar ip ua s ≡ ok r
        → r.1.agreements ≡ s.agreements
    unfolding aadhaar_init
    aadhaar_init-same provider token aadhaar ip ua {r} h =
        elim (Option-cases (db.find_one (has_token token) s.agreements)) [
          | inl e ↦ ground arith
          | inr (old, e) ↦
              elim (Result-cases
                (Aadhaar.initiate db provider old.org_id (some old.id) aadhaar ip ua s.aadhaar)) [
                  | inl (x, k) ↦ ground arith
                  | inr (x, k) ↦ ground arith
                ]
        ]

    pub create-adds :
        (now new_id org : DocId) (seller client : Option String) (dto : CreateAgreementDto)
        → (create db setup now new_id org seller client dto s).1.agreements
          ≡ drafted now new_id org seller client dto ∷ s.agreements
    unfolding create
    create-adds now new_id org seller client dto =
        ground (arith, db.create_lem [] (drafted now new_id org seller client dto) s.agreements)
