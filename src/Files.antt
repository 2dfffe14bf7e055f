-- ===== src/Files.antt =====
-- Uploaded files (sd-agent/sd_agent/files/service.py) and their table
-- (sd-agent/sd_agent/persistence/files.py). The scanner and the object store act on a state `W` of
-- their own. Bytes are numbers below 256 in a list. Unicode's normal form, the parts of a path, the
-- names in a ZIP archive and SHA-256 are parameters. The result of a scan, which nothing reads back,
-- is left out of the metadata, and so are the names of its engine and signature.
pub mod Upload
mod Served
mod Tests
use sd_platform.Common.{
  ℕ, ◌+◌, String, Bool, true, false, not, ◌&&◌, ◌||◌, List, [], ◌∷◌, Option, none, some, ltb, leb,
  ◌==◌, str_eq, if◌then◌else◌, length, Exn, app_error, value_error, Result, ok, err, or_raise,
  ◌>>=◌, ◌>>◌, Instant, text_length, is_empty, strip, mem_text, meets,
}
use sd_platform.Common.{require as check}
use Prim.Native.Char.{Char, code}

abbrev pub file_error : String → ℕ → Exn
file_error code status = app_error "FileServiceError" code status false

-- What the code asks of the libraries.
pub record FileTexts : Type 0 where
  pub normalize : String → String
  pub path_name : String → String
  pub path_parts : String → List String
  pub lower : String → String
  -- the names in an archive, if the bytes are one
  pub zip_names : List ℕ → Option (List String)
  pub sha256 : List ℕ → String

abbrev pub pdf : String
pdf = "application/pdf"

abbrev pub docx : String
docx = "application/vnd.openxmlformats-officedocument.wordprocessingml.document"

abbrev pub xlsx : String
xlsx = "application/vnd.openxmlformats-officedocument.spreadsheetml.sheet"

-- `ALLOWED_MEDIA_TYPES`
abbrev pub allowed_media_types : List String
allowed_media_types = pdf ∷ "image/png" ∷ "image/jpeg" ∷ docx ∷ xlsx ∷ []

-- ord(character) < 32, "/" or "\\", anywhere in the text
abbrev pub has_forbidden : String → Bool
has_forbidden String.[] = false
has_forbidden (String.◌∷◌ c s) =
    let n = code c in (ltb n 32 || (n == 47 || n == 92)) || has_forbidden s

-- `_safe_name`
unfoldable pub safe_name : FileTexts → String → Result String
safe_name texts value =
    let normalized = strip (texts.normalize value) in
    if is_empty normalized
      || (ltb 255 (text_length normalized)
          || (has_forbidden normalized
              || (not (str_eq (texts.path_name normalized) normalized)
                  || (str_eq normalized "." || str_eq normalized ".."))))
    then err (file_error "FILE_NAME_INVALID" 422)
    else ok normalized

-- `data.startswith(prefix)`
abbrev pub has_prefix : List ℕ → List ℕ → Bool
has_prefix [] bytes = true
has_prefix (p ∷ ps) [] = false
has_prefix (p ∷ ps) (d ∷ bytes) = p == d && has_prefix ps bytes

abbrev pub starts : (prefix : String) → String → Bool
starts String.[] s = true
starts (String.◌∷◌ p ps) String.[] = false
starts (String.◌∷◌ p ps) (String.◌∷◌ c s) = code p == code c && starts ps s

abbrev pub ends : (suffix : String) → String → Bool
ends suffix String.[] = str_eq suffix String.[]
ends suffix (String.◌∷◌ c s) = let rest = ends suffix s in str_eq suffix (String.◌∷◌ c s) || rest

abbrev pub any_name : (String → Bool) → List String → Bool
any_name test [] = false
any_name test (n ∷ ns) = test n || any_name test ns

-- A name that leaves the archive: an absolute one, or one with "..".
abbrev pub leaves_archive : FileTexts → String → Bool
leaves_archive texts name = starts "/" name || mem_text ".." (texts.path_parts name)

-- `_detect_ooxml`
unfoldable pub detect_ooxml : FileTexts → List ℕ → (declared : String) → Result String
detect_ooxml texts bytes declared = do
  names ← or_raise (texts.zip_names bytes) (file_error "FILE_TYPE_MISMATCH" 415)
  check (mem_text "[Content_Types].xml" names && not (any_name (leaves_archive texts) names))
      (file_error "FILE_TYPE_MISMATCH" 415)
  check (not (any_name (λ n. ends "vbaproject.bin" (texts.lower n)) names))
      (file_error "FILE_MACRO_REJECTED" 415)
  check
      (any_name (starts (if ends "wordprocessingml.document" declared then "word/" else "xl/"))
        names)
      (file_error "FILE_TYPE_MISMATCH" 415)
  ok declared

-- `_detect_media_type`
unfoldable pub detect_media_type : FileTexts → List ℕ → (declared : String) → Result String
detect_media_type texts bytes declared =
    if not (mem_text declared allowed_media_types)
    then err (file_error "FILE_TYPE_REJECTED" 415)
    else if (str_eq declared pdf && has_prefix (37 ∷ 80 ∷ 68 ∷ 70 ∷ 45 ∷ []) bytes)
        || ((str_eq declared "image/png"
              && has_prefix (137 ∷ 80 ∷ 78 ∷ 71 ∷ 13 ∷ 10 ∷ 26 ∷ 10 ∷ []) bytes)
            || (str_eq declared "image/jpeg" && has_prefix (255 ∷ 216 ∷ 255 ∷ []) bytes))
    then ok declared
    else if starts "application/vnd.openxmlformats-officedocument" declared
    then detect_ooxml texts bytes declared
    else err (file_error "FILE_TYPE_MISMATCH" 415)
