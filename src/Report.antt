-- ===== src/Report.antt =====
-- A progress report and the checks on it (sd-agent/sd_agent/submission/service.py): its normal
-- form, the form of a file's id, and who may report what. Progress and revisions are natural
-- numbers: the schema of the API (sd-agent/sd_agent/api/report.py) refuses negative ones.
pub mod Rules
mod Uploads
mod Tests
use sd_platform.Common.{
  ℕ, ◌+◌, String, Bool, true, false, not, ◌&&◌, ◌||◌, List, [], ◌∷◌, Option, none, some, leb, ◌==◌,
  str_eq, Exn, app_error, Result, ok, or_raise, ◌>>=◌, ◌>>◌, text_length, split_words, join_words,
  sorted_set,
}
use sd_platform.Common.{require as check}
use Prim.Native.Char.{Char, code}
use sd_platform.Db.{is_value}

pub record SubmissionInput : Type 0 where
  pub task_id : ℕ
  pub content : String
  pub progress : ℕ
  pub file_ids : List String
  pub on_behalf_of : Option ℕ
  pub task_revision : ℕ

-- `SubmissionInput.normalized`
unfoldable pub normalized : SubmissionInput → SubmissionInput
normalized r = record r {
  content = join_words (split_words r.content);
  file_ids = sorted_set r.file_ids;
}

pub record TaskSnapshot : Type 0 where
  pub record_id : String
  pub task_id : ℕ
  pub unit_id : ℕ
  pub primary_owner_id : ℕ
  pub progress : ℕ
  pub revision : ℕ

pub record ProgressWrite : Type 0 where
  pub record_id : String
  pub log_id : ℕ

pub record RoleScope : Type 0 where
  pub role : String
  pub scope_unit_id : Option ℕ

-- What the code reads of an `AuthenticatedUser`.
pub record User : Type 0 where
  pub person_id : ℕ
  pub roles : List RoleScope

abbrev pub submission_error : String → ℕ → Exn
submission_error code status = app_error "SubmissionError" code status false

abbrev pub unconfirmed : Exn
unconfirmed = app_error "SubmissionError" "TEABLE_WRITE_UNCONFIRMED" 503 true

-- [A-Za-z0-9_-]
abbrev is_id_char : Char → Bool
is_id_char c =
    let n = code c in
    (leb b'A' n && leb n b'Z')
    || ((leb b'a' n && leb n b'z') || ((leb b'0' n && leb n b'9') || (n == b'_' || n == b'-')))

abbrev all_id_chars : String → Bool
all_id_chars String.[] = true
all_id_chars (String.◌∷◌ c s) = is_id_char c && all_id_chars s

-- [A-Za-z0-9_-]{8,128}
abbrev is_id_tail : String → Bool
is_id_tail s = all_id_chars s && (leb 8 (text_length s) && leb (text_length s) 128)

abbrev expect : ℕ → (String → Bool) → String → Bool
expect n rest String.[] = false
expect n rest (String.◌∷◌ c s) = code c == n && rest s

-- `FILE_ID_PATTERN.fullmatch(file_id)`: ^file_[A-Za-z0-9_-]{8,128}$
unfoldable pub is_file_id : String → Bool
is_file_id = expect b'f' (expect b'i' (expect b'l' (expect b'e' (expect b'_' is_id_tail))))

unfoldable pub all_file_ids : List String → Bool
all_file_ids [] = true
all_file_ids (x ∷ xs) = is_file_id x && all_file_ids xs

abbrev pub has_role : String → List RoleScope → Bool
has_role name [] = false
has_role name (r ∷ rs) = str_eq r.role name || has_role name rs

abbrev pub coordinates : ℕ → List RoleScope → Bool
coordinates unit [] = false
coordinates unit (r ∷ rs) =
    (str_eq r.role "unit_coordinator" && is_value r.scope_unit_id unit) || coordinates unit rs

-- The task is at the revision that the report was made against, or one further with the report's
-- own progress: then an earlier try of the same report has updated it.
unfoldable pub is_fresh : SubmissionInput → TaskSnapshot → Bool
is_fresh r t =
    (t.revision == r.task_revision || t.revision == r.task_revision + 1)
    && not (t.revision == r.task_revision + 1 && not (t.progress == r.progress))

unfoldable pub is_authorized : SubmissionInput → User → TaskSnapshot → Bool
is_authorized r user t = elim r.on_behalf_of [
  | none ↦ t.primary_owner_id == user.person_id
  | some person ↦
      person == t.primary_owner_id
      && (coordinates t.unit_id user.roles || has_role "supervision_admin" user.roles)
]

abbrev pub is_nil : List String → Bool
is_nil [] = true
is_nil (x ∷ xs) = false

-- `SubmissionService._validate_request`, which gives back the task that is there. `clean` is what
-- the gateway says of the report's files.
unfoldable pub validate_request :
    SubmissionInput → User → Option TaskSnapshot → (clean : Bool) → Result TaskSnapshot
validate_request r user found clean = do
  task ← or_raise found (submission_error "TASK_NOT_FOUND" 404)
  check (leb 10 (text_length r.content)) (submission_error "REPORT_TOO_SHORT" 422)
  check (leb r.progress 100) (submission_error "REPORT_INVALID" 422)
  check (all_file_ids r.file_ids) (submission_error "FILE_NOT_CLEAN" 422)
  check (leb task.progress r.progress) (submission_error "PROGRESS_REGRESSION_REQUIRES_REVIEW" 409)
  check (is_fresh r task) (submission_error "TASK_STALE_REVISION" 409)
  check (is_authorized r user task) (submission_error "TASK_FORBIDDEN" 403)
  check (is_nil r.file_ids || clean) (submission_error "FILE_NOT_CLEAN" 422)
  ok task
