-- ===== src/Remittances/Attach.antt =====
-- What an upload of a FIRC leaves, whether it goes through or not.
use crossbill_back.Base.{
  ◌≡◌, refl, sym, ap, ◌∙◌, inl, inr, find?, Option-cases, arith, true, [], ◌∷◌, Option, none, some,
}
use crossbill_back.Base.Text.{Text, codes, text_eq}
use crossbill_back.Base.Updates.{find?-modify_first, find?-holds}
use crossbill_back.Base.Decimal.{decimal}
use crossbill_back.Base.Http.{ok, err, HttpError, not_found, internal_server_error, or_throw}
use crossbill_back.Mongo.{Mongo}
use crossbill_back.Audit.{DocId}
use crossbill_back.Invoices.Handlers.{nonempty}
use crossbill_back.Remittances.Files.{
  FileSystem, StoredFile, save, read, remove, full_path, file_key, safe_name, save-ne, save-read,
}
use crossbill_back.Remittances.{
  Remittance, Upload, Store, scoped, with_firc, type_or_binary, find_one_scoped, without_old,
  stored_as, attach_to, attach_firc, read_firc,
}

module _ (db : Mongo) {B F : Type 0} (fs : FileSystem B F) (base_dir : Text) where
  -- The file of a remittance is removed before the one that replaces it is saved. If the removal goes
  -- through and the save does not, and the new file has another path, the upload fails, the old file is
  -- gone, and the remittance goes on naming it, so that reading its FIRC fails too.
  pub attach_firc-lost :
      (org i : DocId) (file : Upload B) (s : Store F) {r : Remittance} {k : Text}
      → find? (scoped org i) s.remittances ≡ some r
      → nonempty r.firc_storage_key ≡ some k
      → (fs.unlink (full_path fs base_dir k) s.files).0 ≡ true
      → (save fs base_dir org i file.originalname file.buffer (remove fs base_dir k s.files)).0
        ≡ none
      → ¬ (
          full_path fs base_dir (file_key fs base_dir org i file.originalname)
          ≡ full_path fs base_dir k)
      → (e : HttpError) × (t : Store F) × (attach_firc db fs base_dir org i file s ≡ (err e, t))
        × (find? (scoped org i) t.remittances ≡ some r)
        × (read fs base_dir k t.files ≡ none)
        × (read_firc db fs base_dir org i t ≡ err (internal_server_error "Internal server error"))
  unfolding find_one_scoped attach_firc read_firc
  attach_firc-lost org i file s {r} {k} found named gone full apart =
      let saved =
        save fs base_dir org i file.originalname file.buffer (remove fs base_dir k s.files) in
      let t : Store F = record s { files = saved.1 } in
      let known : db.find_one (scoped org i) s.remittances ≡ some r =
        db.find_one_lem (scoped org i) s.remittances ∙ found in
      let missing : read fs base_dir k saved.1 ≡ none =
        save-ne fs base_dir org i file.originalname file.buffer (full_path fs base_dir k)
          (remove fs base_dir k s.files) apart
        ∙ fs.unlink_lem (full_path fs base_dir k) s.files gone in
      let shape : saved ≡ (none, saved.1) = ap (λ o. (o, saved.1)) full in
      (
        internal_server_error "Internal server error",
        t,
        rw (known, named) (ap (stored_as db fs base_dir org i file r s) shape),
        found,
        missing,
        rw (known, named, missing) refl,
      )

  attach_firc-ok :
      (org i : DocId) (file : Upload B) (s : Store F) (r : Remittance)
      (saved : Option StoredFile × F) {doc : Remittance} {t : Store F}
      → stored_as db fs base_dir org i file r s saved ≡ (ok doc, t)
      → (stored : StoredFile) × (saved ≡ (some stored, t.files))
        × (t.remittances
            ≡ db.update_one
                (scoped org i)
                (with_firc stored.storage_key file.originalname)
                s.remittances)
  attach_firc-ok org i file s r (none, files) h = ground arith
  attach_firc-ok org i file s r (some stored, files) {t = t} h =
      (stored, ground arith, ground arith)

  -- What was uploaded is read: after an upload that goes through, the FIRC of the remittance is the
  -- buffer and the name of that upload.
  pub attach_firc-read_firc :
      (org i : DocId) (file : Upload B) (s : Store F) {doc : Remittance} {t : Store F}
      → attach_firc db fs base_dir org i file s ≡ (ok doc, t)
      → (kind : Text) × (read_firc db fs base_dir org i t
          ≡ ok (file.buffer, file.originalname, kind))
  unfolding find_one_scoped attach_firc read_firc
  attach_firc-read_firc org i file s {doc} {t} h =
      elim (Option-cases (db.find_one (scoped org i) s.remittances)) [
        | inl e ↦ ground arith
        | inr (r, e) ↦
            let found : find? (scoped org i) s.remittances ≡ some r =
              sym (db.find_one_lem (scoped org i) s.remittances) ∙ e in
            let saved =
              save fs base_dir org i file.originalname file.buffer
                (without_old fs base_dir (nonempty r.firc_storage_key) s.files) in
            let run : stored_as db fs base_dir org i file r s saved ≡ (ok doc, t) =
              sym (
                ap
                  (λ o.
                    attach_to db fs base_dir org i file s
                      (or_throw o (not_found "Remittance not found")))
                  e)
              ∙ h in
            let (stored, was, rows) = attach_firc-ok org i file s r saved run in
            let (key, there) =
              save-read fs base_dir org i file.originalname file.buffer
                (without_old fs base_dir (nonempty r.firc_storage_key) s.files) was in
            let new : Remittance = with_firc stored.storage_key file.originalname r in
            let known : db.find_one (scoped org i) t.remittances ≡ some new =
              db.find_one_lem (scoped org i) t.remittances
              ∙ ap (find? (scoped org i)) (
                  rows
                  ∙ db.update_one_lem (scoped org i)
                      (with_firc stored.storage_key file.originalname) s.remittances)
              ∙ find?-modify_first (scoped org i) (with_firc stored.storage_key file.originalname)
                  s.remittances found (find?-holds (scoped org i) s.remittances found) in
            let named : nonempty (some stored.storage_key) ≡ some stored.storage_key = rw key (
              fs.join_lem
                (codes "firc" ∷ decimal org ∷ decimal i ∷ safe_name file.originalname ∷ [])) in
            (
              type_or_binary
                  (db.find_one (λ m. text_eq m.storage_key stored.storage_key) t.documents),
              rw (known, named, there) refl,
            )
      ]
