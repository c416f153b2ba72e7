-- ===== src/Invoices/Gapless.antt =====
-- The numbers of the invoices on file, under a sequence of requests.
use crossbill_back.Base.{true, All, suc, ◌≡◌, sym, ap, ◌∙◌, inl, inr, List, [], ◌∷◌, Option, All₂}
use crossbill_back.Base.Members.{All₂-Memᴰ, All-All₂}
use crossbill_back.Base.Text.{Text}
use crossbill_back.Base.Doubles.{Double}
use crossbill_back.Mongo.{Mongo}
use crossbill_back.Audit.{DocId}
use crossbill_back.Numbering.{Counter, format}
use crossbill_back.Invoices.Rates.{CapturedRate, LiveAnswer, Cache}
use crossbill_back.Invoices.Defs.{Invoice, Store}
use crossbill_back.Invoices.Next.{is_described, IsNext, create-IsNext}
use crossbill_back.Invoices.Requests.{Request, serve_one, serve}
use crossbill_back.Invoices.Numbers.{IsGapless, IsIssued, Complete, last_number, next-IsGapless}
use crossbill_back.Invoices.Settled.{
  Settles, update-Settles, mark_overdue-Settles, mark_paid-Settles, set_pdf_url-Settles,
  push_reminder_sent-Settles,
}

IsIssued-Settles : (cs : List Counter) (a b : Invoice) → Settles a b → IsIssued cs a → IsIssued cs b
IsIssued-Settles cs a b (same, still) (n, le, e) =
    let org : b.org_id ≡ a.org_id = ap (λ x. x.org_id) same in
    let fy : b.financial_year ≡ a.financial_year = ap (λ x. x.financial_year) same in
    let number : b.number ≡ a.number = ap (λ x. x.number) same in
    (n, rw (org, fy) le, rw (number, fy) e)

Complete-Settles :
    (cs : List Counter) (xs ys : List Invoice)
    → All₂ Settles xs ys
    → Complete cs xs
    → Complete cs ys
Complete-Settles cs xs ys r h org fy n low high =
    let (a, m, (o, f, e)) = h org fy n low high in
    let (b, m', (same, still)) = All₂-Memᴰ Settles xs ys r m in
    (
      b,
      m',
      (
        ap (λ x. x.org_id) same ∙ o,
        ap (λ x. x.financial_year) same ∙ f,
        ap (λ x. x.number) same ∙ e,
      ),
    )

-- A write that changes no number keeps them so.
IsGapless-Settles :
    (cs : List Counter) (xs ys : List Invoice)
    → All₂ Settles xs ys
    → IsGapless cs xs
    → IsGapless cs ys
IsGapless-Settles cs xs ys r h = record {
  issued = All-All₂ Settles (IsIssued cs) (IsIssued-Settles cs) xs ys r h.issued;
  complete = Complete-Settles cs xs ys r h.complete;
}

-- A request that creates an invoice has a description for each item.
abbrev pub IsDescribed : {W : Type 0} → Request W → Type 0
IsDescribed (Request.raise new_id org user today dto) = is_described dto ≡ true
IsDescribed (Request.change org i asked) = Unit
IsDescribed (Request.printed i url) = Unit
IsDescribed (Request.settle org i) = Unit
IsDescribed (Request.lapse i) = Unit
IsDescribed (Request.remind i k) = Unit

module _ {W R : Type 0} (num : Double W) (live : Text → Text → Option (LiveAnswer W))
    (redis : Cache R (CapturedRate W)) (db : Mongo) where
  IsNext-IsGapless :
      (org : DocId) (s : Store R) (inv : Invoice) (t : Store R)
      → IsNext num live redis db org s inv t
      → IsGapless s.counters s.invoices
      → IsGapless t.counters t.invoices
  IsNext-IsGapless org s inv t next h =
      let number : inv.number
          ≡ format inv.financial_year (suc (last_number inv.org_id inv.financial_year s.counters)) =
        rw next.owner next.number in
      rw (next.counters, next.invoices, sym next.owner)
        (next-IsGapless inv s.counters s.invoices number h)

  serve_one-IsGapless :
      (q : Request W) (s : Store R)
      → IsDescribed q
      → IsGapless s.counters s.invoices
      → let t = serve_one num live redis db q s in IsGapless t.counters t.invoices
  unfolding serve_one
  serve_one-IsGapless (Request.raise new_id org user today dto) s full h =
      elim (create-IsNext num live redis db new_id org user today dto s h.issued) [
        | inl (e, same) ↦ rw (serve_one, same) h
        | inr (inl (y, (inv, t, same, next))) ↦
            rw (serve_one, same) (IsNext-IsGapless org s inv t next h)
        | inr (inr (n, (t, same, lost))) ↦ absurd (cc (full, n))
      ]
  serve_one-IsGapless (Request.change org i asked) s full h =
      IsGapless-Settles s.counters s.invoices _ (update-Settles db org i asked s.invoices) h
  serve_one-IsGapless (Request.printed i url) s full h =
      IsGapless-Settles s.counters s.invoices _ (set_pdf_url-Settles db i url s.invoices) h
  serve_one-IsGapless (Request.settle org i) s full h =
      IsGapless-Settles s.counters s.invoices _ (mark_paid-Settles db org i s.invoices) h
  serve_one-IsGapless (Request.lapse i) s full h =
      IsGapless-Settles s.counters s.invoices _ (mark_overdue-Settles db i s.invoices) h
  serve_one-IsGapless (Request.remind i k) s full h =
      IsGapless-Settles s.counters s.invoices _ (push_reminder_sent-Settles db i k s.invoices) h

  -- Under every sequence of requests and jobs, refused ones among them, in which each item of a new
  -- invoice has a description, the invoices on file keep the numbers of their counters without a gap:
  -- each has a number that was given out in its organisation and financial year, and each number given
  -- out is on an invoice.
  pub serve-IsGapless :
      (qs : List (Request W)) (s : Store R)
      → All IsDescribed qs
      → IsGapless s.counters s.invoices
      → let t = serve num live redis db qs s in IsGapless t.counters t.invoices
  unfolding serve
  serve-IsGapless [] s full h = h
  serve-IsGapless (q ∷ qs) s (full, rest) h =
      serve-IsGapless qs (serve_one num live redis db q s) rest (serve_one-IsGapless q s full h)
