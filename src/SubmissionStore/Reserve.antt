-- ===== src/SubmissionStore/Reserve.antt =====
-- The command that `SqlSubmissionPersistence.reserve` gives back.
use sd_platform.Common.{
  ℕ, ◌≡◌, refl, sym, ◌∙◌, true, false, some, none, ok, String, [], ◌∷◌, ◌++◌, Option-cases, inl,
  inr, Instant, is_none, All, All-first_where, first_where, first_where-append, eq→==, subst, List,
}
use sd_platform.Db.{Uuid, Db, SubmissionCommand, is_committed}
use sd_platform.SubmissionStore.{
  reserve, command_of, with_key, insert_command, new_command, files_are_clean,
}

-- A command that is committed has a result.
abbrev pub IsWhole : SubmissionCommand → Type 0
IsWhole c = is_committed c.state ≡ true → is_none c.result ≡ false

module _ (command_id key : Uuid) (person_id task_id : ℕ) (hash : String) (now : Instant)
    (db : Db) where
  abbrev pub new_one : SubmissionCommand
  new_one = new_command command_id key person_id task_id hash now

  abbrev pub with_new : Db
  with_new = record db { submission_command = db.submission_command ++ new_one ∷ [] }

  -- A key that has a command gives that command, and nothing is written.
  pub reserve_again :
      (c : SubmissionCommand)
      → command_of key db.submission_command ≡ some c
      → reserve command_id key person_id task_id hash now db ≡ ok (c, db)
  unfolding reserve insert_command
  reserve_again c e = rw e (rw e)

  pub files_are_clean-new :
      (file_ids : List String) (task user : ℕ)
      → files_are_clean file_ids task user with_new ≡ files_are_clean file_ids task user db
  unfolding files_are_clean
  files_are_clean-new file_ids task user = refl

  pub new_found :
      command_of key db.submission_command ≡ none
      → command_of key with_new.submission_command ≡ some new_one
  unfolding first_where
  new_found e =
      first_where-append (with_key key) db.submission_command (new_one ∷ [])
      ∙ rw e (rw (eq→== key key refl))

  -- A key without one gives a new pending command.
  pub reserve_new :
      command_of key db.submission_command ≡ none
      → reserve command_id key person_id task_id hash now db ≡ ok (new_one, with_new)
  unfolding reserve insert_command
  reserve_new e = rw e (rw (new_found e))

  -- What is given back and stored: the row of the key.
  abbrev pub IsReserved : SubmissionCommand × Db → Type 0
  IsReserved (c, db') = (command_of key db'.submission_command ≡ some c) × IsWhole c

  given : (r r' : SubmissionCommand × Db) → ok r ≡ ok r' → r ≡ r'
  given r r' e = cc

  pub reserve_ok :
      (r : SubmissionCommand × Db)
      → All IsWhole db.submission_command
      → reserve command_id key person_id task_id hash now db ≡ ok r
      → IsReserved r
  reserve_ok r whole e = elim (Option-cases (command_of key db.submission_command)) [
    | inl absent ↦
        subst IsReserved (given (new_one, with_new) r (sym (reserve_new absent) ∙ e))
          (new_found absent, λ (h : false ≡ true). cc)
    | inr (c, found) ↦
        subst IsReserved (given (c, db) r (sym (reserve_again c found) ∙ e))
          (found, All-first_where IsWhole (with_key key) db.submission_command whole c found)
  ]
