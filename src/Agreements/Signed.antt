-- ===== src/Agreements/Signed.antt =====
-- No request touches the evidence of a signature.
use crossbill_back.Base.{
  ℕ, ◌≡◌, refl, sym, ap, ◌∙◌, inl, inr, true, false, ◌==◌, Bool-cases, List, [], ◌∷◌, ◌++◌, Option,
  none, some, String, arith, Memᴰ,
}
use crossbill_back.Base.Text.{Text}
use crossbill_back.Base.Http.{Result, ok, err}
use crossbill_back.Mongo.{Mongo}
use crossbill_back.Aadhaar as Aadhaar
use crossbill_back.Agreements.Defs.{
  Agreement, AuditEvent, GeoFenceStatus, inside, outside, unknown, SendAgreementDto,
  SignAgreementDto, Store, Setup, is_signed, is_sent, has_token,
}
use crossbill_back.Agreements.Signing.{flagged, sent_doc, signed_doc}
use crossbill_back.Agreements.Handlers as Handlers
use crossbill_back.Agreements.Handlers.{with_pdf, viewed_doc, declined_doc, new_otp, aadhaar_doc}
use crossbill_back.Agreements.Contract as Contract
use crossbill_back.Agreements.Contract.{LifecycleDto, dated}
use crossbill_back.Agreements.Writes.{
  Wrote, send-Wrote, sign-Wrote, resend_otp-Wrote, decline-Wrote, get_for_signing-Wrote,
  aadhaar_verify-Wrote, aadhaar_init-same, create-adds,
}
use crossbill_back.Agreements.TermWrites.{
  set_lifecycle-Wrote, add_obligation-Wrote, toggle_obligation-Wrote, remove_obligation-Wrote,
}
use crossbill_back.Agreements.Requests.{Request, store_after, serve_one, serve}
use crossbill_back.Agreements.Evidence.{
  Later, Later-refl, Later-trans, NoLink, NoLinks, Continues, Wrote-Continues, evidence, append_nil,
  append_assoc,
}

linked-free :
    (token : ℕ) (a : Agreement) → has_token token a ≡ true → NoLink a → is_signed a.status ≡ false
linked-free token a h link = elim (Bool-cases (is_signed a.status)) [
  | inr n ↦ n
  | inl y ↦ absurd (cc (ap (λ t. elim t [ none ↦ false | some u ↦ u == token ]) (link y), h))
]

sent-free : (a : Agreement) → is_sent a.status ≡ true → is_signed a.status ≡ false
sent-free a h = ground arith

-- An edit of an agreement that is not signed.
edited :
    (a b : Agreement)
    → is_signed a.status ≡ false
    → (b.id ≡ a.id) × (b.org_id ≡ a.org_id) × (b.title ≡ a.title) × (b.body ≡ a.body)
    → (more : List AuditEvent) × (b.audit_trail ≡ a.audit_trail ++ more)
    → NoLink b
    → Later a b × NoLink b
edited a b free same grows link = (
  record {
    same_id = same.0;
    same_org = same.1;
    same_title = same.2;
    same_body = same.3;
    trail_grows = grows;
    signed_stays = λ y. cc;
  },
  link,
)

free_link : (b : Agreement) → is_signed b.status ≡ false → NoLink b
free_link b h y = cc

-- An edit of the contract's terms, on any agreement.
termed :
    (a b : Agreement)
    → (evidence b ≡ evidence a)
    → (more : List AuditEvent) × (b.audit_trail ≡ a.audit_trail ++ more)
    → NoLink a
    → Later a b × NoLink b
termed a b e grows link = (
  record {
    same_id = ap (λ x. x.id) e;
    same_org = ap (λ x. x.org_id) e;
    same_title = ap (λ x. x.title) e;
    same_body = ap (λ x. x.body) e;
    trail_grows = grows;
    signed_stays = λ _. e;
  },
  λ y. ap (λ x. x.sign_token) e ∙ link (sym (ap (λ x. is_signed x.status) e) ∙ y),
)

-- A step that only adds to the trail or sets the document's address.
abbrev Same : Agreement → Agreement → Type 0
Same a b =
    ((b.id ≡ a.id) × (b.org_id ≡ a.org_id) × (b.title ≡ a.title) × (b.body ≡ a.body))
    × ((more : List AuditEvent) × (b.audit_trail ≡ a.audit_trail ++ more))
    × (b.sign_token ≡ none)

flagged-Same :
    (now : ℕ) (g : GeoFenceStatus) (a b : Agreement) → Same a b → Same a (flagged now g b)
flagged-Same now inside a b h = h
flagged-Same now unknown a b h = h
flagged-Same now outside a b (same, (more, e), t) =
    let flag : List AuditEvent = record { at = now; event = "flag" } ∷ [] in
    (same, (more ++ flag, ap (λ x. x ++ flag) e ∙ append_assoc a.audit_trail more flag), t)

with_pdf-Same : (u : Option String) (a b : Agreement) → Same a b → Same a (with_pdf u b)
with_pdf-Same none a b h = h
with_pdf-Same (some url) a b h = h

signed_doc-Same :
    (setup : Setup) (now code : ℕ) (dto : SignAgreementDto) (ip : String) (ua : Option Text)
    (u : Option String) (a : Agreement)
    → Same a (with_pdf u (signed_doc setup now code dto ip ua a))
unfolding signed_doc
signed_doc-Same setup now code dto ip ua u a =
    with_pdf-Same u a _ (flagged-Same now _ a _ ((refl, refl, refl, refl), (_, refl), refl))

sent_doc-free :
    (setup : Setup) (now token : ℕ) (otp : Text) (dto : SendAgreementDto) (a : Agreement)
    → is_signed a.status ≡ false
    → Later a (sent_doc setup now token otp dto a) × NoLink (sent_doc setup now token otp dto a)
unfolding sent_doc
sent_doc-free setup now token otp dto a h =
    edited a (sent_doc setup now token otp dto a) h (refl, refl, refl, refl) (_, refl) (λ y. cc)

dated-termed :
    (now : ℕ) (dto : LifecycleDto) (a : Agreement)
    → NoLink a
    → Later a (dated now dto a) × NoLink (dated now dto a)
unfolding dated
dated-termed now dto a link = termed a (dated now dto a) refl (_, refl) link

module _ (db : Mongo) (setup : Setup) (provider : Aadhaar.AadhaarProvider) (s : Store)
    (good : NoLinks s) where
  same : Continues s s × NoLinks s
  same = (λ a m. (a, m, Later-refl a), good)

  unchanged : (t : Store) → t.agreements ≡ s.agreements → Continues s t × NoLinks t
  unchanged t e = (λ a m. (a, rw e m, Later-refl a), rw e good)

  after {ℓ} :
      {A : Type ℓ} (r : Result (A × Store))
      → ((a : A × Store) → r ≡ ok a → Continues s a.1 × NoLinks a.1)
      → Continues s (store_after s r) × NoLinks (store_after s r)
  after (ok a) h = h a refl
  after (err e) h = same

  go_on :
      (p : Agreement → _) (R : Agreement → Agreement → Type 0) (t : Store)
      → Wrote p R s t
      → ((old new : Agreement) → p old ≡ true → NoLink old → R old new → Later old new × NoLink new)
      → Continues s t × NoLinks t
  go_on p R t w step = Wrote-Continues p R s t good w step

  serve_one-Continues :
      (q : Request)
      → Continues s (serve_one db setup provider q s) × NoLinks (serve_one db setup provider q s)
  unfolding serve_one
  serve_one-Continues (Request.create now i org seller client dto) =
      let e = create-adds db s setup now i org seller client dto in
      (λ a m. (a, rw e (Memᴰ.tail m), Later-refl a), rw e (λ y. cc, good))
  serve_one-Continues (Request.send now token otp org user i dto) =
      after (Handlers.send db setup now token otp org user i dto s) (λ r h.
        go_on _ _ r.1 (send-Wrote db s setup now token otp org user i dto h)
          (λ old new y link k. rw k.1 (sent_doc-free setup now token otp dto old k.0)))
  serve_one-Continues (Request.open_link now token) =
      after (Handlers.get_for_signing db setup now token s) (λ r h.
        elim (get_for_signing-Wrote db s setup now token h) [
          | inl e ↦ unchanged r.1 e
          | inr w ↦ go_on _ _ r.1 w (λ old new y link k. rw k.1 (
              edited old (viewed_doc now old) (sent-free old k.0) (refl, refl, refl, refl) (_, refl)
                (λ z. cc)))
        ])
  serve_one-Continues (Request.aadhaar_init token aadhaar ip ua) =
      after (Handlers.aadhaar_init db setup provider token aadhaar ip ua s)
        (λ r h. unchanged r.1 (aadhaar_init-same db s setup provider token aadhaar ip ua h))
  serve_one-Continues (Request.aadhaar_verify now token reference otp) =
      elim (aadhaar_verify-Wrote db s setup provider now token reference otp) [
        | inl e ↦
            unchanged (Handlers.aadhaar_verify db setup provider now token reference otp s).1 e
        | inr w ↦
            go_on _ _ (Handlers.aadhaar_verify db setup provider now token reference otp s).1 w
              (λ old new y link k.
                let free = linked-free token old y link in
                rw k.1 (
                  edited old (aadhaar_doc now k.0 old) free (refl, refl, refl, refl) (_, refl)
                    (free_link (aadhaar_doc now k.0 old) free)))
      ]
  serve_one-Continues (Request.resend_otp now token otp) =
      after (Handlers.resend_otp db setup now token otp s) (λ r h.
        elim (resend_otp-Wrote db s setup now token otp h) [
          | inl e ↦ unchanged r.1 e
          | inr w ↦ go_on _ _ r.1 w (λ old new y link k. rw k.1 (
              edited old (new_otp setup now token otp old) k.0 (refl, refl, refl, refl)
                ([], sym (append_nil old.audit_trail))
                (free_link (new_otp setup now token otp old) k.0)))
        ])
  serve_one-Continues (Request.sign now code token dto ip ua) =
      after (Handlers.sign db setup now code token dto ip ua s) (λ r h.
        go_on _ _ r.1 (sign-Wrote db s setup now code token dto ip ua h) (λ old new y link k.
          let doc =
            with_pdf (setup.render (signed_doc setup now code dto ip ua old))
              (signed_doc setup now code dto ip ua old) in
          let (kept, grows, token_gone) =
            signed_doc-Same setup now code dto ip ua
              (setup.render (signed_doc setup now code dto ip ua old)) old in
          rw k.5 (edited old doc k.0 kept grows (λ _. token_gone))))
  serve_one-Continues (Request.decline now token) =
      after (Handlers.decline db setup now token s) (λ r h.
        go_on _ _ r.1 (decline-Wrote db s setup now token h) (λ old new y link k.
          rw k.1
            (edited old (declined_doc now old) k.0 (refl, refl, refl, refl) (_, refl) (λ z. cc))))
  serve_one-Continues (Request.set_lifecycle now org i dto) =
      after (Contract.set_lifecycle db now org i dto s) (λ r h.
        go_on _ _ r.1 (set_lifecycle-Wrote db s now org i dto h)
          (λ old new y link k. rw k (dated-termed now dto old link)))
  serve_one-Continues (Request.add_obligation o org i dto) =
      after (Contract.add_obligation db o org i dto s) (λ r h.
        go_on _ _ r.1 (add_obligation-Wrote db s o org i dto h) (λ old new y link k.
          rw k (termed old _ refl ([], sym (append_nil old.audit_trail)) link)))
  serve_one-Continues (Request.toggle_obligation org i o) =
      after (Contract.toggle_obligation db org i o s) (λ r h.
        go_on _ _ r.1 (toggle_obligation-Wrote db s org i o h) (λ old new y link k.
          rw k (termed old _ refl ([], sym (append_nil old.audit_trail)) link)))
  serve_one-Continues (Request.remove_obligation org i o) =
      after (Contract.remove_obligation db org i o s) (λ r h.
        go_on _ _ r.1 (remove_obligation-Wrote db s org i o h) (λ old new y link k.
          rw k (termed old _ refl ([], sym (append_nil old.audit_trail)) link)))

module _ (db : Mongo) (setup : Setup) (provider : Aadhaar.AadhaarProvider) where
  -- Whatever requests are served, in any order and with refusals among them, if no signed agreement
  -- has a signing link: every agreement stays, with the same organisation, title and text, and with a
  -- trail that has only grown; one that is signed stays signed, with the same signer, signature and
  -- other evidence; and still no signed agreement has a signing link.
  pub serve-Continues :
      (qs : List Request) (s : Store)
      → NoLinks s
      → Continues s (serve db setup provider qs s) × NoLinks (serve db setup provider qs s)
  unfolding serve
  serve-Continues [] s good = same db setup provider s good
  serve-Continues (q ∷ qs) s good =
      let (step, good1) = serve_one-Continues db setup provider s good q in
      let (rest, good2) = serve-Continues qs (serve_one db setup provider q s) good1 in
      (
        λ a m.
            let (b, mb, lb) = step a m in
            let (c, mc, lc) = rest b mb in (c, mc, Later-trans a b c lb lc),
        good2,
      )
