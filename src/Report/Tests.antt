-- ===== src/Report/Tests.antt =====
-- The checks on a report at concrete reports.
use sd_platform.Common.{◌≡◌, ◌↔◌, refl, [], ◌∷◌, none, some, ok, true}
use sd_platform.Report.{SubmissionInput, TaskSnapshot, User, validate_request, is_file_id}
use sd_platform.Report.Rules.{IsReportable, validate_exact}
use sd_platform.Report.Uploads.{uploads_refused}

abbrev road : TaskSnapshot
road = record {
  record_id = "rec_1";
  task_id = 3;
  unit_id = 12;
  primary_owner_id = 7;
  progress = 40;
  revision = 1;
}

abbrev owner : User
owner = record { person_id = 7; roles = [] }

abbrev with_upload : SubmissionInput
with_upload = record {
  task_id = 3;
  content = "the road is repaired";
  progress = 60;
  file_ids = "8c0e4d8e-3f63-4a7e-9a51-2f5b7f1c9a10" ∷ [];
  on_behalf_of = none;
  task_revision = 1;
}

plain_id : is_file_id "file_0a1b2c3d" ≡ true
unfolding is_file_id
plain_id = refl

validate_exact_example :
    validate_request with_upload owner (some road) true ≡ ok road
    ↔ IsReportable with_upload owner (some road) true road
validate_exact_example = validate_exact with_upload owner road (some road) true

uploads_refused_example : ¬ (validate_request with_upload owner (some road) true ≡ ok road)
uploads_refused_example =
    uploads_refused with_upload owner (some road) true road "8c0e4d8e-3f63-4a7e-9a51-2f5b7f1c9a10"
      refl refl
