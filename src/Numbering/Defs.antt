-- ===== src/Numbering/Defs.antt =====
-- The counter collection and the operations of the service. A counter's `_id` is the text of its key.
use crossbill_back.Base.{ℕ, ◌+◌, Bool, List, ◌∷◌, ◌++◌, Option, none, some}
use crossbill_back.Base.Text.{Text, codes, pad_start, text_eq}
use crossbill_back.Base.Decimal.{decimal}
use crossbill_back.Mongo.{Mongo}

pub record Counter : Type 0 where
  pub key : Text
  pub seq : ℕ

-- A series of numbers: an organisation and a financial year, and a prefix for credit and debit notes.
pub data Series : Type 0 where
  invoices : Text → Text → Series
  notes : Text → Text → Text → Series

-- The `_id` of the counter of a series.
abbrev pub key_of : Series → Text
key_of (invoices org fy) = org ++ b':' ∷ fy
key_of (notes org fy prefix) = org ++ b':' ∷ (fy ++ b':' ∷ prefix)

abbrev pub has_key : Text → Counter → Bool
has_key k c = text_eq c.key k

-- `{ $inc: { seq: 1 } }`.
abbrev pub bump : Counter → Counter
bump c = record c { seq = c.seq + 1 }

-- `doc?.seq ?? 0`.
abbrev pub seq_of : Option Counter → ℕ
seq_of none = 0
seq_of (some doc) = doc.seq

-- `${prefix}/${financialYear}/${String(seq).padStart(4, '0')}`.
unfoldable pub format_with : Text → Text → ℕ → Text
format_with prefix fy seq = prefix ++ b'/' ∷ (fy ++ b'/' ∷ pad_start 4 (decimal seq))

unfoldable pub format : Text → ℕ → Text
unfolding format_with
format fy seq = format_with (codes "CB") fy seq

module _ (db : Mongo) where
  -- The counter after the atomic increment, which creates a missing counter at 0 first.
  unfoldable pub increment : Text → List Counter → Counter × List Counter
  increment k cs = db.upsert (has_key k) bump (record { key = k; seq = 0 }) cs

  unfoldable pub allocate : Text → Text → List Counter → Text × List Counter
  unfolding increment format
  allocate org fy cs =
      let (doc, cs') = increment (key_of (invoices org fy)) cs in (format fy doc.seq, cs')

  unfoldable pub peek_next : Text → Text → List Counter → Text
  unfolding format
  peek_next org fy cs = format fy (seq_of (db.find_one (has_key (key_of (invoices org fy))) cs) + 1)

  unfoldable pub allocate_series : Text → Text → Text → List Counter → Text × List Counter
  unfolding increment format_with
  allocate_series org fy prefix cs =
      let (doc, cs') = increment (key_of (notes org fy prefix)) cs in
      (format_with prefix fy doc.seq, cs')
