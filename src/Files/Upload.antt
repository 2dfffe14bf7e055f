-- ===== src/Files/Upload.antt =====
-- The service of files over its table (`FileService` of sd-agent/sd_agent/files/service.py and
-- `SqlFileRepository` of sd-agent/sd_agent/persistence/files.py).
use sd_platform.Common.{
  ℕ, String, Bool, not, ◌&&◌, ◌||◌, List, [], ◌∷◌, ◌++◌, Option, none, some, ltb, leb, ◌==◌, str_eq,
  if◌then◌else◌, length, app_error, value_error, other, or_default, Result, ok, err, Instant,
  Datetime, require_utc, is_empty, mem_text, first_where, exists_where,
}
use sd_platform.Common.{require as check}
use sd_platform.Common.Actions.{Exec, pure, lift, raise, ◌>>=◌, ◌>>◌}
use sd_platform.Db.{Db, FileObject, FileState, is_clean}
use sd_platform.World.{World, outside, on_tables}
use sd_platform.Files.{FileTexts, file_error, safe_name, detect_media_type}

pub record FileMetadata : Type 0 where
  pub file_id : String
  pub owner_person_id : ℕ
  pub task_id : Option ℕ
  pub storage_key : String
  pub original_name : String
  pub media_type : String
  pub size_bytes : ℕ
  pub sha256 : String
  pub state : FileState
  pub created_at : Instant
  pub scanned_at : Instant

-- `FileScanner` and `ObjectStore`; the verdict of a scan is whether the bytes are clean, and a stored
-- object is its key.
pub record FileGateway (W : Type 0) : Type 0 where
  pub scan : List ℕ → (media_type : String) → Exec W Bool
  pub put : (file_id : String) (bytes : List ℕ) (quarantined : Bool) → Exec W String
  pub get : (storage_key : String) → Exec W (List ℕ)
  pub delete : (storage_key : String) → Exec W (Unit {0})

abbrev pub with_id : String → FileObject → Bool
with_id file_id row = str_eq row.file_id file_id

abbrev pub row_of_file : FileMetadata → FileObject
row_of_file m = record {
  file_id = m.file_id;
  owner_person_id = m.owner_person_id;
  task_id = m.task_id;
  storage_key = m.storage_key;
  original_name = m.original_name;
  media_type = m.media_type;
  size_bytes = m.size_bytes;
  sha256 = m.sha256;
  state = m.state;
  created_at = m.created_at;
  scanned_at = some m.scanned_at;
  bound_at = none;
}

-- `SqlFileRepository.save`. A second row with one id breaks the primary key.
unfoldable pub save : FileMetadata → Db → Result (Unit {0} × Db)
save m db =
    if exists_where (with_id m.file_id) db.file_object
    then err (other "IntegrityError")
    else ok (tt, record db { file_object = db.file_object ++ row_of_file m ∷ [] })

abbrev pub metadata_in : Option FileObject → Option FileMetadata
metadata_in none = none
metadata_in (some row) = some (record {
  file_id = row.file_id;
  owner_person_id = row.owner_person_id;
  task_id = row.task_id;
  storage_key = row.storage_key;
  original_name = row.original_name;
  media_type = row.media_type;
  size_bytes = row.size_bytes;
  sha256 = row.sha256;
  state = row.state;
  created_at = row.created_at;
  scanned_at = or_default row.scanned_at row.created_at;
})

-- `SqlFileRepository.get`
unfoldable pub get_file : (file_id : String) → Db → Option FileMetadata
get_file file_id db = metadata_in (first_where (with_id file_id) db.file_object)

-- The guard of `FileService.__init__`
unfoldable pub size_guard : (max_bytes : ℕ) → Result ℕ
size_guard max_bytes =
    if ltb max_bytes 1024 then err (value_error "max_bytes is too small") else ok max_bytes

-- What an upload is called with, and the id that it draws.
pub record Upload : Type 0 where
  pub owner_person_id : ℕ
  pub task_id : Option ℕ
  pub original_name : String
  pub declared_media_type : String
  pub bytes : List ℕ
  pub now : Datetime
  pub file_id : String

abbrev pub is_owned : ℕ → Option ℕ → Bool
is_owned owner none = ltb 0 owner
is_owned owner (some task_id) = ltb 0 owner && ltb 0 task_id

-- except FileServiceError goes on; any other exception of the scanner says that it is away
abbrev pub scanned : {W : Type 0} → Result Bool × World W → Result Bool × World W
scanned (ok clean, s) = (ok clean, s)
scanned (err (app_error class_name code status retryable), s) =
    if str_eq class_name "FileServiceError"
    then (err (app_error class_name code status retryable), s)
    else (err (file_error "FILE_SCAN_UNAVAILABLE" 503), s)
scanned (err e, s) = (err (file_error "FILE_SCAN_UNAVAILABLE" 503), s)

module _ {W : Type 0} (texts : FileTexts) (gateway : FileGateway W) (max_bytes : ℕ) where
  abbrev pub metadata_of :
      Upload
      → (name media_type : String) (clean : Bool) (storage_key : String) → Instant
      → FileMetadata
  metadata_of u name media_type clean storage_key now = record {
    file_id = u.file_id;
    owner_person_id = u.owner_person_id;
    task_id = u.task_id;
    storage_key = storage_key;
    original_name = name;
    media_type = media_type;
    size_bytes = length u.bytes;
    sha256 = texts.sha256 u.bytes;
    state = if clean then FileState.clean else FileState.quarantined;
    created_at = now;
    scanned_at = now;
  }

  abbrev pub kept : FileMetadata → Result (Unit {0}) × World W → Result (Unit {0}) × World W
  kept m (ok u, s) = (ok u, s)
  kept m (err e, s) = ((outside (gateway.delete m.storage_key)) >>= λ _. raise e) s

  -- try: save, except Exception: the stored object is deleted, and the exception raised again
  unfoldable pub keep : FileMetadata → Exec (World W) (Unit {0})
  keep m s = kept m (on_tables (save m) s)

  -- `FileService.upload`
  unfoldable pub upload : Upload → Exec (World W) FileMetadata
  upload u = do
    current_time ← lift (require_utc u.now)
    lift (check (is_owned u.owner_person_id u.task_id) (file_error "FILE_OWNER_INVALID" 422))
    name ← lift (safe_name texts u.original_name)
    lift (
        check (ltb 0 (length u.bytes) && leb (length u.bytes) max_bytes)
          (file_error "FILE_SIZE_INVALID" 413))
    media_type ← lift (detect_media_type texts u.bytes u.declared_media_type)
    clean ← (λ s. scanned (outside (gateway.scan u.bytes media_type) s))
    storage_key ← outside (gateway.put u.file_id u.bytes (not clean))
    let m = metadata_of u name media_type clean storage_key current_time
    keep m
    lift (check clean (file_error "FILE_REJECTED" 422))
    pure m

  abbrev pub clean_only : Option FileMetadata → Result FileMetadata
  clean_only none = err (file_error "FILE_NOT_FOUND" 404)
  clean_only (some m) = if is_clean m.state then ok m else err (file_error "FILE_NOT_FOUND" 404)

  -- `FileService.download`
  unfoldable pub download :
      (file_id : String) (person_id : ℕ) (roles : List String)
      → Exec (World W) (FileMetadata × List ℕ)
  download file_id person_id roles s =
      (do
        lift (check (not (is_empty file_id) && ltb 0 person_id) (file_error "FILE_NOT_FOUND" 404))
        m ← lift (clean_only (get_file file_id s.db))
        lift (
            check (m.owner_person_id == person_id || mem_text "supervision_admin" roles)
              (file_error "FILE_FORBIDDEN" 403))
        bytes ← outside (gateway.get m.storage_key)
        pure (m, bytes))
        s
