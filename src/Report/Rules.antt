-- ===== src/Report/Rules.antt =====
-- Which reports the service takes (`SubmissionService._validate_request`).
use sd_platform.Common.{
  ◌≡◌, ◌≤◌, ◌+◌, ◌⊎◌, ◌↔◌, inl, inr, Bool, true, ◌||◌, Option, none, some, arith, ok, text_length,
  refl, Option-cases, Bool-cases, eq→==, ==→eq, ◌==◌, ap, ◌∙◌,
}
use sd_platform.Report.{
  SubmissionInput, TaskSnapshot, User, validate_request, all_file_ids, is_fresh, is_authorized,
  is_nil, coordinates, has_role,
}

-- The task is as the report saw it, or an earlier try of the same report has updated it.
abbrev pub IsFresh : SubmissionInput → TaskSnapshot → Type 0
IsFresh r t =
    (t.revision ≡ r.task_revision)
    ⊎ ((t.revision ≡ r.task_revision + 1) × (t.progress ≡ r.progress))

-- The owner reports in person, or a coordinator of the task's unit or an admin reports for the owner.
abbrev pub MayReport : SubmissionInput → User → TaskSnapshot → Type 0
MayReport r user t =
    ((r.on_behalf_of ≡ none) × (t.primary_owner_id ≡ user.person_id))
    ⊎ ((r.on_behalf_of ≡ some t.primary_owner_id)
        × ((coordinates t.unit_id user.roles ≡ true)
            ⊎ (has_role "supervision_admin" user.roles ≡ true)))

pub record IsReportable (r : SubmissionInput) (user : User) (found : Option TaskSnapshot)
    (clean : Bool) (task : TaskSnapshot) : Type 0 where
  pub there : found ≡ some task
  pub long : 10 ≤ text_length r.content
  pub bounded : r.progress ≤ 100
  pub named : all_file_ids r.file_ids ≡ true
  pub forward : task.progress ≤ r.progress
  pub fresh : IsFresh r task
  pub entitled : MayReport r user task
  pub safe : (is_nil r.file_ids || clean) ≡ true

module _ (r : SubmissionInput) (user : User) (task : TaskSnapshot) where
  IsFresh-exact : is_fresh r task ≡ true ↔ IsFresh r task
  unfolding is_fresh
  IsFresh-exact = (forth, λ e. ground arith)
    where
      forth : is_fresh r task ≡ true → IsFresh r task
      forth e = elim (Bool-cases (task.revision == r.task_revision)) [
        | inl same ↦ inl (==→eq task.revision r.task_revision same)
        | inr other ↦ inr (ground arith, ground arith)
      ]

  authorized_exact : is_authorized r user task ≡ true ↔ MayReport r user task
  unfolding is_authorized
  authorized_exact = (forth, back)
    where
      forth : is_authorized r user task ≡ true → MayReport r user task
      forth e = elim (Option-cases r.on_behalf_of) [
        | inl own ↦ inl (own, ground arith)
        | inr (person, other) ↦
            let by_owner : person ≡ task.primary_owner_id = ground arith in
            elim (Bool-cases (coordinates task.unit_id user.roles)) [
              | inl unit ↦ inr (other ∙ ap some by_owner, inl unit)
              | inr not_unit ↦ inr (other ∙ ap some by_owner, inr (ground arith))
            ]
      ]

      back : MayReport r user task → is_authorized r user task ≡ true
      back (inl (own, same)) = rw own (eq→== task.primary_owner_id user.person_id same)
      back (inr (other, inl unit)) =
          rw other (rw (eq→== task.primary_owner_id task.primary_owner_id refl) (rw unit))
      back (inr (other, inr admin)) =
          rw other
            (rw (eq→== task.primary_owner_id task.primary_owner_id refl) (rw admin (ground arith)))

  module _ (found : Option TaskSnapshot) (clean : Bool) where
    pub validate_ok :
        validate_request r user found clean ≡ ok task → IsReportable r user found clean task
    unfolding validate_request
    validate_ok e = record {
      there = ground arith;
      long = ground arith;
      bounded = ground arith;
      named = ground arith;
      forward = ground arith;
      fresh = IsFresh-exact.0 (ground arith);
      entitled = authorized_exact.0 (ground arith);
      safe = ground arith;
    }

    -- A report is taken exactly if its task is there, its text has 10 characters, its progress is at
    -- most 100 and at least the task's, its files have the form of a file's id and are clean, it was
    -- made against the task's revision, and the person may report on the task.
    pub validate_exact :
        validate_request r user found clean ≡ ok task ↔ IsReportable r user found clean task
    unfolding validate_request
    validate_exact = (
      validate_ok,
      λ h. rw h.there (
          ground (
            arith,
            h.long,
            h.bounded,
            h.forward,
            h.named,
            h.safe,
            IsFresh-exact.1 h.fresh,
            authorized_exact.1 h.entitled,
          )),
    )
