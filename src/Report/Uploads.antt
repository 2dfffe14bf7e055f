-- ===== src/Report/Uploads.antt =====
-- The ids of uploaded files, `str(uuid4())` in sd-agent/sd_agent/files/service.py, against the form
-- that a report's file ids must have.
use sd_platform.Common.{
  ◌≡◌, String, Bool, true, false, ◌&&◌, ◌||◌, List, [], ◌∷◌, Option, ok, leb, ◌==◌, str_eq, eq_iff,
  arith, mem_text, refl, subst, sym, Bool-cases, inl, inr,
}
use Prim.Native.Char.{Char, code}
use sd_platform.Report.{
  SubmissionInput, TaskSnapshot, User, is_file_id, all_file_ids, validate_request,
}
use sd_platform.Report.Rules.{validate_ok}

-- [0-9a-f-]
abbrev is_uuid_char : Char → Bool
is_uuid_char c =
    let n = code c in (leb b'0' n && leb n b'9') || ((leb b'a' n && leb n b'f') || n == b'-')

abbrev pub all_uuid_chars : String → Bool
all_uuid_chars String.[] = true
all_uuid_chars (String.◌∷◌ c s) = is_uuid_char c && all_uuid_chars s

uuid_refused : (u : String) → all_uuid_chars u ≡ true → is_file_id u ≡ false
unfolding is_file_id
uuid_refused String.[] h = refl
uuid_refused (String.◌∷◌ c String.[]) h = ground arith
uuid_refused (String.◌∷◌ c (String.◌∷◌ d s)) h = ground arith

named_refused :
    (u : String) (ids : List String)
    → all_uuid_chars u ≡ true
    → mem_text u ids ≡ true
    → all_file_ids ids ≡ false
unfolding all_file_ids
named_refused u [] h k = ground arith
named_refused u (x ∷ ids) h k = elim (Bool-cases (str_eq x u)) [
  | inl same ↦ rw (subst (λ v. is_file_id v ≡ false) (sym ((eq_iff x u).0 same)) (uuid_refused u h))
  | inr other ↦ ground (arith, named_refused u ids h)
]

-- A report is never taken if one of its files has an id of the form of a UUID, whatever its task
-- and whether or not its files are clean.
pub uploads_refused :
    (r : SubmissionInput) (user : User) (found : Option TaskSnapshot) (clean : Bool)
    (task : TaskSnapshot) (u : String)
    → all_uuid_chars u ≡ true
    → mem_text u r.file_ids ≡ true
    → ¬ (validate_request r user found clean ≡ ok task)
uploads_refused r user found clean task u h k e =
    let allowed = validate_ok r user task found clean e in
    ground (arith, named_refused u r.file_ids h k, allowed.named)
