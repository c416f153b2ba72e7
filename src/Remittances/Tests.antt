-- ===== src/Remittances/Tests.antt =====
-- An upload that fails, over one stored file, and one that goes through.
use mathlib.Core.Path.{subst}
use crossbill_back.Base.{
  ◌≡◌, refl, sym, inl, inr, Bool, true, false, not, List, [], ◌∷◌, ◌++◌, Option, none, some, find?,
  filter, length, if◌then◌else◌, arith, Bool-cases,
}
use crossbill_back.Base.Text.{Text, codes, text_eq, text_eq→≡, text_eq_refl}
use crossbill_back.Base.Http.{err, ok, HttpError, internal_server_error}
use crossbill_back.Mongo.InMemory.{in_memory}
use crossbill_back.Remittances.{
  Remittance, Upload, Store, scoped, attach_firc, read_firc, find_one_scoped,
}
use crossbill_back.Remittances.Attach.{attach_firc-lost, attach_firc-read_firc}
use crossbill_back.Remittances.Files.{FileSystem, save, read, full_path, file_key}

-- The files are a list of paths with their texts, and the disk may be full.
abbrev Files : Type 0
Files = List (Text × Text)

abbrev text_at : Text → Files → Option Text
text_at p [] = none
text_at p ((q, b) ∷ f) = if text_eq q p then some b else text_at p f

abbrev all_but : Text → Files → Files
all_but p [] = []
all_but p ((q, b) ∷ f) = let rest = all_but p f in if text_eq q p then rest else (q, b) ∷ rest

abbrev slashed : List Text → Text
slashed [] = []
slashed (p ∷ ps) = codes "/" ++ (p ++ slashed ps)

all_but_lem : (p : Text) (f : Files) → text_at p (all_but p f) ≡ none
all_but_lem p [] = refl
all_but_lem p ((q, b) ∷ f) = elim (Bool-cases (text_eq q p)) [
  | inl y ↦ rw y (all_but_lem p f)
  | inr n ↦ rw (n, n) (all_but_lem p f)
]

abbrev written : Bool → Text → Text → Files → Bool × Files
written true p b f = (false, f)
written false p b f = (true, (p, b) ∷ f)

apart : (p q : Text) → ¬ (p ≡ q) → text_eq p q ≡ false
apart p q n = elim (Bool-cases (text_eq p q)) [ inl y ↦ absurd (n (text_eq→≡ p q y)) | inr e ↦ e ]

written_lem :
    (full : Bool) (p b : Text) (f : Files)
    → (written full p b f).0 ≡ true
    → text_at p (written full p b f).1 ≡ some b
written_lem true p b f h = ground arith
written_lem false p b f h = rw (text_eq_refl p) refl

written_ne :
    (full : Bool) (p q b : Text) (f : Files)
    → ¬ (p ≡ q)
    → text_at q (written full p b f).1 ≡ text_at q f
written_ne true p q b f n = refl
written_ne false p q b f n = rw (apart p q n) refl

abbrev disk : Bool → FileSystem Text Files
disk full = record {
  join = λ ps. codes "." ++ slashed ps;
  mkdir = λ p f. (true, f);
  write_file = written full;
  read_file = text_at;
  unlink = λ p f. (true, all_but p f);
  size = λ b. length b;
  sha256 = λ b. b;
  join_lem = λ ps. refl;
  mkdir_lem = λ p q f. refl;
  write_file_lem = written_lem full;
  write_file_ne = written_ne full;
  unlink_lem = λ p f h. all_but_lem p f;
  unlink_failed = λ p f h. ground arith;
}

abbrev remittance : Remittance
remittance = record {
  id = 3;
  org_id = 9;
  invoice_id = 1;
  amount_received = codes "5000.00";
  currency = codes "USD";
  received_date = record { year = 2026; month = 5; day = 10 };
  purpose_code = codes "P0802";
  firc_doc_url = none;
  firc_storage_key = some (codes "firc/9/3/old.pdf");
  firc_filename = none;
  notes = none;
}

abbrev dir : Text
dir = codes "storage"

abbrev store : Store Files
store = record {
  invoices = [];
  remittances = remittance ∷ [];
  documents = [];
  files = (full_path (disk true) dir (codes "firc/9/3/old.pdf"), codes "old") ∷ [];
  events = [];
}

abbrev file : Upload Text
file = record {
  originalname = codes "new.pdf";
  buffer = codes "data";
  mimetype = codes "application/pdf";
}

elsewhere : ¬ (
    full_path (disk true) dir (file_key (disk true) dir 9 3 (codes "new.pdf"))
    ≡ full_path (disk true) dir (codes "firc/9/3/old.pdf"))
unfolding crossbill_back.Base.Decimal.decimal
elsewhere e =
    let old = full_path (disk true) dir (codes "firc/9/3/old.pdf") in
    let q : false ≡ true = subst (λ x. text_eq x old ≡ true) (sym e) (text_eq_refl old) in
    ground (arith, q)

attach_firc-lost_example :
    (e : HttpError) × (t : Store Files) × (attach_firc in_memory (disk true) dir 9 3 file store
      ≡ (err e, t))
    × (find? (scoped 9 3) t.remittances ≡ some remittance)
    × (read (disk true) dir (codes "firc/9/3/old.pdf") t.files ≡ none)
    × (read_firc in_memory (disk true) dir 9 3 t
        ≡ err (internal_server_error "Internal server error"))
unfolding save
attach_firc-lost_example =
    attach_firc-lost in_memory (disk true) dir 9 3 file store refl refl refl refl elsewhere

uploaded : Remittance × Store Files
unfolding attach_firc save find_one_scoped
uploaded = elim (attach_firc in_memory (disk false) dir 9 3 file store).0 [
  | ok r ↦ (r, (attach_firc in_memory (disk false) dir 9 3 file store).1)
  | err e ↦ (remittance, store)
]

uploaded_lem : attach_firc in_memory (disk false) dir 9 3 file store ≡ (ok uploaded.0, uploaded.1)
unfolding uploaded attach_firc save find_one_scoped
uploaded_lem = refl

attach_firc-read_firc_example :
    (kind : Text) × (read_firc in_memory (disk false) dir 9 3 uploaded.1
      ≡ ok (codes "data", codes "new.pdf", kind))
attach_firc-read_firc_example =
    attach_firc-read_firc in_memory (disk false) dir 9 3 file store uploaded_lem
