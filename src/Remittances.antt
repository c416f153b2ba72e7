-- ===== src/Remittances.antt =====
-- Foreign inward remittances: api/src/modules/remittances/remittances.service.ts with its schema and DTO,
-- and the metadata of uploads.
pub mod Files
pub mod Attach
mod Tests
use crossbill_back.Base.{
  ℕ, ◌≡◌, refl, sym, ap, ◌∙◌, inl, inr, find?, Option-cases, get_or, arith, true, Bool, List, [],
  ◌∷◌, ◌++◌, Option, none, some, String, ◌==◌, ◌&&◌,
}
use crossbill_back.Base.Text.{Text, codes, text_eq}
use crossbill_back.Base.Updates.{find?-modify_first, find?-holds}
use crossbill_back.Base.Decimal.{decimal}
use crossbill_back.Base.Doubles.{Double}
use crossbill_back.Base.Http.{
  Result, ok, err, HttpError, not_found, internal_server_error, ◌>>=◌, or_throw,
}
use crossbill_back.Mongo.{Mongo, Written, written, duplicate}
use crossbill_back.Audit.{DocId, EventLog, log, entry}
use crossbill_back.FinancialYear.{Date}
use crossbill_back.Clients.{upper}
use crossbill_back.Invoices.Defs.{Invoice}
use crossbill_back.Invoices.Handlers.{nonempty}
use crossbill_back.Invoices.Changes.{mark_paid, find_one_scoped as invoice_of}
use crossbill_back.Remittances.Files.{
  FileSystem, StoredFile, save, read, remove, full_path, file_key, safe_name, save-ne, save-read,
}

pub record Remittance : Type 0 where
  pub id : DocId
  pub org_id : DocId
  pub invoice_id : DocId
  pub amount_received : Text
  pub currency : Text
  pub received_date : Date
  pub purpose_code : Text
  pub firc_doc_url : Option Text
  pub firc_storage_key : Option Text
  pub firc_filename : Option Text
  pub notes : Option String

-- `CreateRemittanceDto`; of a date-time the service keeps the date.
pub record CreateRemittanceDto (W : Type 0) : Type 0 where
  pub invoice_id : DocId
  pub amount_received : W
  pub currency : Text
  pub received_date : Date
  pub purpose_code : Text
  pub notes : Option String

pub data ScanStatus : Type 0 where
  pending clean infected : ScanStatus

pub record DocumentMeta : Type 0 where
  pub org_id : DocId
  pub invoice_id : Option DocId
  pub storage_key : Text
  pub content_type : Option Text
  pub size_bytes : ℕ
  pub checksum_sha256 : Text
  pub scan_status : ScanStatus

-- An uploaded file.
pub record Upload (B : Type 0) : Type 0 where
  pub originalname : Text
  pub buffer : B
  pub mimetype : Text

pub record Store (F : Type 0) : Type 0 where
  pub invoices : List Invoice
  pub remittances : List Remittance
  pub documents : List DocumentMeta
  pub files : F
  pub events : EventLog

abbrev pub scoped : DocId → DocId → Remittance → Bool
scoped org i r = r.id == i && r.org_id == org

abbrev or_same : {D : Type 0} → List D → Written D → List D
or_same xs (written ys) = ys
or_same xs (duplicate k) = xs

abbrev pub remittance_of :
    {W : Type 0} → Double W → DocId → DocId → DocId → CreateRemittanceDto W → Remittance
remittance_of num new_id org i dto = record {
  id = new_id;
  org_id = org;
  invoice_id = i;
  amount_received = num.to_fixed 2 dto.amount_received;
  currency = upper dto.currency;
  received_date = dto.received_date;
  purpose_code = dto.purpose_code;
  firc_doc_url = none;
  firc_storage_key = none;
  firc_filename = none;
  notes = dto.notes;
}

abbrev pub with_firc : Text → Text → Remittance → Remittance
with_firc k filename r = record r {
  firc_storage_key = some k;
  firc_filename = some filename;
  firc_doc_url = some (codes "/api/v1/remittances/" ++ (decimal r.id ++ codes "/firc"));
}

abbrev pub meta_of : {B : Type 0} → Upload B → StoredFile → Remittance → DocumentMeta
meta_of file stored r = record {
  org_id = r.org_id;
  invoice_id = some r.invoice_id;
  storage_key = stored.storage_key;
  content_type = some file.mimetype;
  size_bytes = stored.size_bytes;
  checksum_sha256 = stored.checksum_sha256;
  scan_status = pending;
}

abbrev pub named_or_firc : Option Text → Text
named_or_firc filename = get_or filename (codes "firc")

abbrev pub type_or_binary : Option DocumentMeta → Text
type_or_binary none = codes "application/octet-stream"
type_or_binary (some m) = get_or m.content_type (codes "application/octet-stream")

module _ {B F : Type 0} (fs : FileSystem B F) (base_dir : Text) where
  -- The files without the one that is replaced.
  abbrev pub without_old : Option Text → F → F
  without_old none files = files
  without_old (some k) files = remove fs base_dir k files

module _ (db : Mongo) {F : Type 0} where
  unfoldable pub create :
      {W : Type 0}
      → Double W
      → DocId
      → DocId
      → CreateRemittanceDto W
      → Store F
      → Result (Remittance × Store F)
  create num new_id org dto s = do
    invoice ← invoice_of db org dto.invoice_id s.invoices
    let remittance = remittance_of num new_id org invoice.id dto
    ok (
      remittance,
      record s {
        remittances = or_same s.remittances (db.create [] remittance s.remittances);
        invoices = mark_paid db org invoice.id s.invoices;
        events = log db (entry "remittance.recorded" org none new_id) s.events;
      },
    )

  unfoldable pub find_one_scoped : DocId → DocId → Store F → Result Remittance
  find_one_scoped org i s =
      or_throw (db.find_one (scoped org i) s.remittances) (not_found "Remittance not found")

  module _ {B : Type 0} (fs : FileSystem B F) (base_dir : Text) where
    -- From the outcome of the save on, with the files that it left.
    abbrev pub stored_as :
        DocId
        → DocId
        → Upload B
        → Remittance
        → Store F
        → Option StoredFile × F
        → Result Remittance × Store F
    stored_as org i file remittance s (none, files) =
        (err (internal_server_error "Internal server error"), record s { files = files })
    stored_as org i file remittance s (some stored, files) =
        let doc = with_firc stored.storage_key file.originalname remittance in
        (
          ok doc,
          record s {
            files = files;
            remittances =
                db.update_one (scoped org i) (with_firc stored.storage_key file.originalname)
                  s.remittances;
            documents = or_same s.documents (db.create [] (meta_of file stored doc) s.documents);
            events = log db (entry "firc.uploaded" org none i) s.events;
          },
        )

    abbrev pub attach_to :
        DocId → DocId → Upload B → Store F → Result Remittance → Result Remittance × Store F
    attach_to org i file s (err e) = (err e, s)
    attach_to org i file s (ok remittance) = stored_as org i file remittance s (
        save fs base_dir org i file.originalname file.buffer
          (without_old fs base_dir (nonempty remittance.firc_storage_key) s.files))

    unfoldable pub attach_firc : DocId → DocId → Upload B → Store F → Result Remittance × Store F
    attach_firc org i file s = attach_to org i file s (find_one_scoped org i s)

    -- The buffer, its name and its type.
    unfoldable pub read_firc : DocId → DocId → Store F → Result (B × Text × Text)
    read_firc org i s = do
      remittance ← find_one_scoped org i s
      k ←
          or_throw (nonempty remittance.firc_storage_key)
            (not_found "No FIRC uploaded for this remittance")
      let meta = db.find_one (λ m. text_eq m.storage_key k) s.documents
      buffer ← or_throw (read fs base_dir k s.files) (internal_server_error "Internal server error")
      ok (buffer, named_or_firc remittance.firc_filename, type_or_binary meta)
