-- ===== src/SubmissionStore/Whole.antt =====
-- Every transaction on submissions leaves each committed command with a result.
use sd_platform.Common.{
  ◌≡◌, ℕ, refl, subst, sym, true, false, ok, String, [], ◌∷◌, ◌==◌, ◌&&◌, Option-cases, inl, inr,
  Instant, All, All-append, All-update, ◌∙◌,
}
use sd_platform.Db.{Uuid, Db, SubmissionCommand, SubmissionResult, is_pending}
use sd_platform.SubmissionStore.{
  AuditFacts, reserve, command_of, mark_teable_written, written, reject, turned_down, complete,
  committed, is_open,
}
use sd_platform.SubmissionStore.Reserve.{IsWhole, reserve_new, reserve_again, new_one, with_new}
use sd_platform.SubmissionStore.Completion.{complete-inverse}

abbrev pub AllWhole : Db → Type 0
AllWhole db = All IsWhole db.submission_command

same_db : (r r' : SubmissionCommand × Db) → ok r ≡ ok r' → r.1 ≡ r'.1
same_db r r' e = cc

pub reserve-AllWhole :
    (command_id key : Uuid) (person_id task_id : ℕ) (hash : String) (now : Instant) (db db' : Db)
    (c : SubmissionCommand)
    → AllWhole db
    → reserve command_id key person_id task_id hash now db ≡ ok (c, db')
    → AllWhole db'
reserve-AllWhole command_id key person_id task_id hash now db db' c whole e =
    elim (Option-cases (command_of key db.submission_command)) [
      | inl absent ↦
          let new = new_one command_id key person_id task_id hash now db in
          subst AllWhole
            (same_db (new, with_new command_id key person_id task_id hash now db) (c, db')
              (sym (reserve_new command_id key person_id task_id hash now db absent) ∙ e))
            (All-append IsWhole db.submission_command (new ∷ []) whole
              (λ (h : false ≡ true). cc, tt))
      | inr (c', found) ↦
          subst AllWhole
            (same_db (c', db) (c, db')
              (sym (reserve_again command_id key person_id task_id hash now db c' found) ∙ e))
            whole
    ]

pub mark-AllWhole :
    (command_id : Uuid) (record_id : String) (now : Instant) (db : Db)
    → AllWhole db
    → AllWhole (mark_teable_written command_id record_id now db)
unfolding mark_teable_written written
mark-AllWhole command_id record_id now db whole =
    All-update IsWhole (λ c. c.command_id == command_id && is_pending c.state)
      (written record_id now) (λ c hit h (k : false ≡ true). cc) db.submission_command whole

pub reject-AllWhole :
    (command_id : Uuid) (code : String) (now : Instant) (db : Db)
    → AllWhole db
    → AllWhole (reject command_id code now db)
unfolding reject turned_down
reject-AllWhole command_id code now db whole =
    All-update IsWhole (is_open command_id) (turned_down code now)
      (λ c hit h (k : false ≡ true). cc) db.submission_command whole

pub complete-AllWhole :
    (event_id outbox_id command_id : Uuid) (result : SubmissionResult) (audit : AuditFacts)
    (now : Instant) (db db' : Db)
    → AllWhole db
    → complete event_id outbox_id command_id result audit now db ≡ ok (tt, db')
    → AllWhole db'
unfolding committed
complete-AllWhole event_id outbox_id command_id result audit now db db' whole e =
    let done = complete-inverse event_id outbox_id command_id result audit now db db' tt e in
    subst (All IsWhole) (sym done.commands) (
      All-update IsWhole (is_open command_id) (committed result now) (λ c hit h k. refl)
        db.submission_command whole)
