-- ===== src/Files/Tests.antt =====
-- An upload of a PDF file to a store in memory, and its download.
use sd_platform.Common.{
  ◌≡◌, refl, ap, sym, ℕ, String, Bool, strip, true, List, [], ◌∷◌, none, some, str_eq, eq_iff,
  if◌then◌else◌, Result, ok, err, runtime_error, utc, seconds, require_utc, first_where,
}
use sd_platform.Db.{empty_db}
use sd_platform.World.{World}
use sd_platform.Files.{FileTexts, safe_name, detect_media_type}
use sd_platform.Files.Upload.{FileMetadata, FileGateway, Upload, upload, download, keep, save}
use sd_platform.Files.Served.{upload-download}

abbrev Store : Type 0
Store = List (String × List ℕ)

abbrev lookup : String → Store → Result (List ℕ)
lookup key [] = err (runtime_error "no such object")
lookup key ((k, bytes) ∷ store) =
    let rest = lookup key store in if str_eq k key then ok bytes else rest

abbrev in_memory : FileGateway Store
in_memory = record {
  scan = λ bytes media_type store. (ok true, store);
  put = λ file_id bytes quarantined store. (ok file_id, (file_id, bytes) ∷ store);
  get = λ key store. (lookup key store, store);
  delete = λ key store. (ok tt, store);
}

gives :
    (file_id key : String) (bytes : List ℕ) (quarantined : Bool) (store store' : Store)
    → in_memory.put file_id bytes quarantined store ≡ (ok key, store')
    → in_memory.get key store' ≡ (ok bytes, store')
gives file_id key bytes quarantined store store' e =
    let same : file_id ≡ key = cc (ap (λ (p : Result String × Store). p.0) e) in
    let there : (file_id, bytes) ∷ store ≡ store' = ap (λ (p : Result String × Store). p.1) e in
    rw (sym there) (rw (sym same) (rw ((eq_iff file_id file_id).1 refl) refl))

abbrev texts : FileTexts
texts = record {
  normalize = λ t. t;
  path_name = λ t. t;
  path_parts = λ t. t ∷ [];
  lower = λ t. t;
  zip_names = λ bytes. none;
  sha256 = λ bytes. "h";
}

abbrev pdf_file : Upload
pdf_file = record {
  owner_person_id = 7;
  task_id = some 3;
  original_name = "report.pdf";
  declared_media_type = "application/pdf";
  bytes = 37 ∷ 80 ∷ 68 ∷ 70 ∷ 45 ∷ 49 ∷ [];
  now = utc (seconds 10);
  file_id = "f1";
}

abbrev start : World Store
start = record { db = empty_db; outside = [] }

abbrev answered : FileMetadata
answered = record {
  file_id = "f1";
  owner_person_id = 7;
  task_id = some 3;
  storage_key = "f1";
  original_name = "report.pdf";
  media_type = "application/pdf";
  size_bytes = 6;
  sha256 = "h";
  state = sd_platform.Db.clean;
  created_at = seconds 10;
  scanned_at = seconds 10;
}

abbrev final : World Store
final = (upload texts in_memory 1024 pdf_file start).1

uploads : upload texts in_memory 1024 pdf_file start ≡ (ok answered, final)
unfolding upload require_utc safe_name detect_media_type keep save first_where strip
uploads = refl

upload-download_example :
    download texts in_memory 1024 "f1" 7 [] final ≡ (ok (answered, pdf_file.bytes), final)
upload-download_example =
    upload-download texts in_memory 1024 gives pdf_file answered [] start final refl uploads
