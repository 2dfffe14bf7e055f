-- ===== src/SubmissionStore/Commands.antt =====
-- The command of a key, as the steps of a submission change it.
use sd_platform.Common.{
  ◌≡◌, refl, ◌∙◌, false, some, if◌then◌else◌, Instant, String, ◌==◌, eq→==, ◌&&◌, List,
  first_where-update, update_where, inl, inr, Bool-cases, true,
}
use sd_platform.Db.{
  Uuid, Db, SubmissionCommand, SubmissionResult, is_pending, is_committed, CommandState,
}
use sd_platform.SubmissionStore.{
  command_of, with_key, is_open, written, committed, mark_teable_written, reject, turned_down,
}

-- The tables after the record of the report is known, which only a pending command notes.
abbrev pub marked : SubmissionCommand → String → Instant → Db → Db
marked command record_id now db =
    if is_pending command.state then mark_teable_written command.command_id record_id now db else db

-- A command with the identity of another one.
pub record IsSame (command row : SubmissionCommand) : Type 0 where
  pub id : row.command_id ≡ command.command_id
  pub hash : row.payload_hash ≡ command.payload_hash
  pub person : row.person_id ≡ command.person_id
  pub task : row.task_id ≡ command.task_id

module _ (key : Uuid) (command : SubmissionCommand) (now : Instant) where
  -- A pending or written command stays open when it is marked.
  pub marked-command :
      (record_id : String) (db : Db)
      → command_of key db.submission_command ≡ some command
      → is_committed command.state ≡ false
      → (row : SubmissionCommand) × (command_of key
            (marked command record_id now db).submission_command
          ≡ some row)
        × IsSame command row
        × (is_committed row.state ≡ false)
  unfolding mark_teable_written written
  marked-command record_id db found unsettled = elim (Bool-cases (is_pending command.state)) [
    | inl fresh ↦
        rw (fresh, mark_teable_written)
          (
            written record_id now command,
            first_where-update (with_key key)
                  (λ c. c.command_id == command.command_id && is_pending c.state)
                  (written record_id now) (λ r. refl) db.submission_command
                ∙ rw found (rw (eq→== command.command_id command.command_id refl) (rw fresh)),
            record { id = refl; hash = refl; person = refl; task = refl },
            refl,
          )
    | inr old ↦
        rw old
          (command, found, record { id = refl; hash = refl; person = refl; task = refl }, unsettled)
  ]

  -- The step touches no other table.
  pub marked-tables :
      (record_id : String) (db : Db)
      → ((marked command record_id now db).file_object ≡ db.file_object)
        × ((marked command record_id now db).audit_event ≡ db.audit_event)
        × ((marked command record_id now db).outbox_message ≡ db.outbox_message)
  unfolding mark_teable_written
  marked-tables record_id db = elim (Bool-cases (is_pending command.state)) [
    | inl fresh ↦ rw (fresh, mark_teable_written) (refl, refl, refl)
    | inr old ↦ rw old (refl, refl, refl)
  ]

  pub completed-command :
      (row : SubmissionCommand) (result : SubmissionResult) (rows : List SubmissionCommand)
      → command_of key rows ≡ some row
      → row.command_id ≡ command.command_id
      → is_committed row.state ≡ false
      → command_of key (update_where (is_open command.command_id) (committed result now) rows)
        ≡ some (committed result now row)
  unfolding committed
  completed-command row result rows found same unsettled =
      first_where-update (with_key key) (is_open command.command_id) (committed result now)
        (λ r. refl) rows
      ∙ rw found (rw (eq→== row.command_id command.command_id same) (rw unsettled))

  -- The command that is left says what it was committed with, and is the same otherwise.
  pub committed-IsSame :
      (row : SubmissionCommand) (result : SubmissionResult)
      → IsSame command row
      → IsSame command (committed result now row)
        × (is_committed (committed result now row).state ≡ true)
        × ((committed result now row).result ≡ some result)
  unfolding committed
  committed-IsSame row result h =
      (record { id = h.id; hash = h.hash; person = h.person; task = h.task }, refl, refl)

  -- A rejected command is the same command with the code of its rejection.
  pub rejected-command :
      (code : String) (db : Db)
      → command_of key db.submission_command ≡ some command
      → is_committed command.state ≡ false
      → (row : SubmissionCommand) × (command_of key
            (reject command.command_id code now db).submission_command
          ≡ some row)
        × IsSame command row
        × (row.state ≡ CommandState.rejected)
        × (row.last_error_code ≡ some code)
  unfolding reject turned_down
  rejected-command code db found unsettled = (
    turned_down code now command,
    first_where-update (with_key key) (is_open command.command_id) (turned_down code now)
          (λ r. refl) db.submission_command
        ∙ rw found (rw (eq→== command.command_id command.command_id refl) (rw unsettled)),
    record { id = refl; hash = refl; person = refl; task = refl },
    refl,
    refl,
  )
