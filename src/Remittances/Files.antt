-- ===== src/Remittances/Files.antt =====
-- The files of remittances: api/src/modules/remittances/services/firc-storage.service.ts. The calls of
-- Node.js that it makes, on files, paths and buffers, are the record `FileSystem`.
use crossbill_back.Base.{
  ℕ, zero, suc, ◌-◌, ◌≡◌, refl, sym, ◌∙◌, Bool, true, false, List, [], ◌∷◌, Option, none, some,
  ◌==◌, ◌||◌, ◌&&◌, leb, map, length, if◌then◌else◌, arith,
}
use crossbill_back.Base.Text.{Text, codes}
use crossbill_back.Base.Decimal.{decimal}
use crossbill_back.Audit.{DocId}
use crossbill_back.Invoices.Handlers.{nonempty}

-- Files `F` and buffers `B`. A call that changes files says whether it went through, and what it left.
pub record FileSystem (B F : Type 0) : Type 0 where
  pub join : List Text → Text
  pub mkdir : Text → F → Bool × F
  pub write_file : Text → B → F → Bool × F
  pub read_file : Text → F → Option B
  pub unlink : Text → F → Bool × F
  pub size : B → ℕ
  pub sha256 : B → Text
  -- A joined path is never empty.
  pub join_lem : (ps : List Text) → nonempty (some (join ps)) ≡ some (join ps)
  -- Making directories changes no file.
  pub mkdir_lem : (p q : Text) (f : F) → read_file q (mkdir p f).1 ≡ read_file q f
  -- What was written is read, and a write, also one that fails half-way, leaves other paths.
  pub write_file_lem :
      (p : Text) (b : B) (f : F)
      → (write_file p b f).0 ≡ true
      → read_file p (write_file p b f).1 ≡ some b
  pub write_file_ne :
      (p q : Text) (b : B) (f : F) → ¬ (p ≡ q) → read_file q (write_file p b f).1 ≡ read_file q f
  -- An unlink that goes through removes the file, and one that fails leaves it.
  pub unlink_lem : (p : Text) (f : F) → (unlink p f).0 ≡ true → read_file p (unlink p f).1 ≡ none
  pub unlink_failed : (p : Text) (f : F) → (unlink p f).0 ≡ false → (unlink p f).1 ≡ f

pub record StoredFile : Type 0 where
  pub storage_key : Text
  pub size_bytes : ℕ
  pub checksum_sha256 : Text

abbrev drop_chars : ℕ → Text → Text
drop_chars zero s = s
drop_chars (suc n) [] = []
drop_chars (suc n) (c ∷ s) = drop_chars n s

abbrev in_range : ℕ → ℕ → ℕ → Bool
in_range lo hi c = leb lo c && leb c hi

-- `[a-zA-Z0-9._-]`.
abbrev is_safe : ℕ → Bool
is_safe c =
    in_range b'a' b'z' c
    || in_range b'A' b'Z' c
    || in_range b'0' b'9' c
    || c == b'.'
    || c == b'_'
    || c == b'-'

-- `filename.replace(/[^a-zA-Z0-9._-]/g, '_').slice(-120)`.
abbrev pub safe_name : Text → Text
safe_name filename =
    let name = map (λ c. if is_safe c then c else b'_') filename in
    drop_chars (length name - 120) name

module _ {B F : Type 0} (fs : FileSystem B F) (base_dir : Text) where
  abbrev pub file_key : DocId → DocId → Text → Text
  file_key org i filename =
      fs.join (codes "firc" ∷ decimal org ∷ decimal i ∷ safe_name filename ∷ [])

  abbrev pub full_path : Text → Text
  full_path k = fs.join (base_dir ∷ k ∷ [])

  -- From the outcome of `writeFile`, and from that of `mkdir`: each throws if it fails.
  abbrev pub put : Text → B → Bool × F → Option StoredFile × F
  put k buffer (false, files) = (none, files)
  put k buffer (true, files) = (
    some (record {
      storage_key = k;
      size_bytes = fs.size buffer;
      checksum_sha256 = fs.sha256 buffer;
    }),
    files,
  )

  abbrev pub save_in : Text → B → Bool × F → Option StoredFile × F
  save_in k buffer (false, files) = (none, files)
  save_in k buffer (true, files) = put k buffer (fs.write_file (full_path k) buffer files)

  -- `none` if it throws; the files are those it leaves either way.
  unfoldable pub save : DocId → DocId → Text → B → F → Option StoredFile × F
  save org i filename buffer files =
      save_in (file_key org i filename) buffer
        (fs.mkdir (fs.join (base_dir ∷ codes "firc" ∷ decimal org ∷ decimal i ∷ [])) files)

  abbrev pub read : Text → F → Option B
  read k files = fs.read_file (full_path k) files

  -- A failure is logged, and forgotten.
  abbrev pub remove : Text → F → F
  remove k files = (fs.unlink (full_path k) files).1

  put-ne :
      (k : Text) (buffer : B) (q : Text) (files : F)
      → ¬ (full_path k ≡ q)
      → (w : Bool × F) → w ≡ fs.write_file (full_path k) buffer files
      → fs.read_file q (put k buffer w).1 ≡ fs.read_file q files
  put-ne k buffer q files apart (false, left) e =
      let it : left ≡ (fs.write_file (full_path k) buffer files).1 = ground arith in
      rw it (fs.write_file_ne (full_path k) q buffer files apart)
  put-ne k buffer q files apart (true, left) e =
      let it : left ≡ (fs.write_file (full_path k) buffer files).1 = ground arith in
      rw it (fs.write_file_ne (full_path k) q buffer files apart)

  save_in-ne :
      (k : Text) (buffer : B) (q : Text) (files : F)
      → ¬ (full_path k ≡ q)
      → (w : Bool × F) → fs.read_file q w.1 ≡ fs.read_file q files
      → fs.read_file q (save_in k buffer w).1 ≡ fs.read_file q files
  save_in-ne k buffer q files apart (false, left) e = e
  save_in-ne k buffer q files apart (true, left) e =
      put-ne k buffer q left apart (fs.write_file (full_path k) buffer left) refl ∙ e

  -- A save leaves the files of other paths, whether it goes through or not.
  pub save-ne :
      (org i : DocId) (filename : Text) (buffer : B) (q : Text) (files : F)
      → ¬ (full_path (file_key org i filename) ≡ q)
      → fs.read_file q (save org i filename buffer files).1 ≡ fs.read_file q files
  unfolding save
  save-ne org i filename buffer q files apart =
      save_in-ne (file_key org i filename) buffer q files apart
        (fs.mkdir (fs.join (base_dir ∷ codes "firc" ∷ decimal org ∷ decimal i ∷ [])) files)
        (fs.mkdir_lem (fs.join (base_dir ∷ codes "firc" ∷ decimal org ∷ decimal i ∷ [])) q files)

  put-ok :
      (k : Text) (buffer : B) (w : Bool × F) {stored : StoredFile} {left : F}
      → put k buffer w ≡ (some stored, left)
      → (w.0 ≡ true) × (w.1 ≡ left) × (stored.storage_key ≡ k)
  put-ok k buffer (false, files) h = ground arith
  put-ok k buffer (true, files) {stored} {left} h = (refl, ground arith, ground arith)

  save_in-read :
      (k : Text) (buffer : B) (w : Bool × F) {stored : StoredFile} {left : F}
      → save_in k buffer w ≡ (some stored, left)
      → (stored.storage_key ≡ k) × (read k left ≡ some buffer)
  save_in-read k buffer (false, files) h = ground arith
  save_in-read k buffer (true, files) h =
      let (went, kept, key) = put-ok k buffer (fs.write_file (full_path k) buffer files) h in
      (key, rw (sym kept) (fs.write_file_lem (full_path k) buffer files went))

  -- What was saved is read under its key.
  pub save-read :
      (org i : DocId) (filename : Text) (buffer : B) (files : F) {stored : StoredFile} {left : F}
      → save org i filename buffer files ≡ (some stored, left)
      → (stored.storage_key ≡ file_key org i filename)
        × (read stored.storage_key left ≡ some buffer)
  unfolding save
  save-read org i filename buffer files {left = left} h =
      let (key, found) =
        save_in-read (file_key org i filename) buffer
          (fs.mkdir (fs.join (base_dir ∷ codes "firc" ∷ decimal org ∷ decimal i ∷ [])) files) h in
      (key, rw key found)
