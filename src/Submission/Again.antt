-- ===== src/Submission/Again.antt =====
-- A report that is sent again with its key (`SubmissionService.submit`).
use sd_platform.Common.{
  ◌≡◌, refl, sym, ap, ◌∙◌, true, false, arith, some, ok, Result, not, ◌&&◌, String, Bool-cases,
  Option-cases, inl, inr, Instant, is_none, All, or_default, ℕ, require_utc, subst,
}
use sd_platform.Db.{Uuid, Db, SubmissionCommand, SubmissionResult, is_committed, is_rejected}
use sd_platform.Report.{SubmissionInput, normalized}
use sd_platform.SubmissionStore.{reserve, command_of, committed}
use sd_platform.SubmissionStore.Commands.{
  marked, marked-command, completed-command, committed-IsSame,
}
use sd_platform.SubmissionStore.Completion.{complete-inverse}
use sd_platform.World.{World}
use sd_platform.Submission.{
  Call, SubmissionGateway, facts, submit, resume, validate_command, stored,
}
use sd_platform.Common.Actions.{bind_ok, lift}
use sd_platform.Submission.Commit.{proceed_ok}
use sd_platform.SubmissionStore.Reserve.{IsWhole, reserve_ok, reserve_again}
use sd_platform.Submission.Steps.{stored_ok, valid_command, command_valid}

-- The key's command is committed with a result, for one report.
pub record IsSettled (key : Uuid) (payload_hash : String) (person_id task_id : ℕ)
    (r : SubmissionResult) (db : Db) : Type 0 where
  pub row : SubmissionCommand
  pub found : command_of key db.submission_command ≡ some row
  pub state : is_committed row.state ≡ true
  pub result : row.result ≡ some r
  pub hash : row.payload_hash ≡ payload_hash
  pub person : row.person_id ≡ person_id
  pub task : row.task_id ≡ task_id

settled_result :
    (c : SubmissionCommand)
    → (is_committed c.state && not (is_none c.result)) ≡ true
    → (is_committed c.state ≡ true)
      × (c.result ≡ some (or_default c.result (record { submission_id = 0; log_id = 0 })))
settled_result c e = elim (Option-cases c.result) [
  | inl absent ↦ ground arith
  | inr (r, present) ↦ (ground arith, rw present)
]

unsettled :
    (c : SubmissionCommand)
    → IsWhole c
    → (is_committed c.state && not (is_none c.result)) ≡ false
    → is_committed c.state ≡ false
unsettled c whole e = elim (Bool-cases (is_committed c.state)) [
  | inl yep ↦ ground (arith, whole yep)
  | inr nope ↦ nope
]

module _ {W : Type 0} (gateway : SubmissionGateway W)
    (payload_hash : SubmissionInput → String) where
  resume_ok :
      (call : Call) (command : SubmissionCommand) (request : SubmissionInput) (now : Instant)
      (s : World W) (r : SubmissionResult) (s' : World W)
      → command_of call.key s.db.submission_command ≡ some command
      → IsWhole command
      → resume gateway call command request now s ≡ (ok r, s')
      → IsSettled call.key command.payload_hash command.person_id command.task_id r s'.db
  unfolding resume
  resume_ok call command request now s r s' found whole e =
      elim (Bool-cases (is_committed command.state && not (is_none command.result))) [
        | inl old ↦
            let same : s ≡ s' = ap (λ (p : Result SubmissionResult × World W). p.1) (rw old at e) in
            let given : or_default command.result (record { submission_id = 0; log_id = 0 }) ≡ r =
              ground arith in
            let (state, result) = settled_result command old in
            record {
              row = command;
              found =
                  ap (λ (w : World W). command_of call.key w.db.submission_command) (sym same)
                  ∙ found;
              state = state;
              result = result ∙ ap some given;
              hash = refl;
              person = refl;
              task = refl;
            }
        | inr fresh ↦ elim (Bool-cases (is_rejected command.state)) [
          | inl rejected ↦ ground arith
          | inr accepted ↦
              let carried =
                proceed_ok gateway call command request now r s s'
                  (rw accepted at (rw fresh at e)) in
              let all =
                complete-inverse call.event_id call.outbox_id command.command_id r
                  (facts call request) now (marked command carried.write.record_id now s.db) s'.db
                  tt carried.settled in
              let (row, found', alike, free) =
                marked-command call.key command now carried.write.record_id s.db found
                  (unsettled command whole fresh) in
              let (alike', state, result) = committed-IsSame call.key command now row r alike in
              record {
                row = committed r now row;
                found =
                    ap (command_of call.key) all.commands
                    ∙ completed-command call.key command now row r
                        (marked command carried.write.record_id now s.db).submission_command found'
                        alike.id free;
                state = state;
                result = result;
                hash = alike'.hash;
                person = alike'.person;
                task = alike'.task;
              }
        ]
      ]

  abbrev pub IsAnswered : Call → SubmissionInput → SubmissionResult → Db → Type 0
  IsAnswered call request r db =
      IsSettled call.key (payload_hash (normalized request)) call.user.person_id request.task_id r
        db

  normalized-task : (request : SubmissionInput) → (normalized request).task_id ≡ request.task_id
  unfolding normalized
  normalized-task request = refl

  submit_settles :
      (call : Call) (request : SubmissionInput) (s : World W) (r : SubmissionResult) (s' : World W)
      → All IsWhole s.db.submission_command
      → submit gateway payload_hash call request s ≡ (ok r, s')
      → IsAnswered call request r s'.db
  unfolding submit
  submit_settles call request s r s' whole e =
      let normal = normalized request in
      let (now, s1, e1, r1) = bind_ok (lift (require_utc call.now)) _ s r s' e in
      let (command, s2, e2, r2) =
        bind_ok
          (λ (w : World W). stored w (
            reserve call.command_id call.key call.user.person_id normal.task_id
              (payload_hash normal) now w.db))
          _ s1 r s' r1 in
      let (u, s3, e3, r3) =
        bind_ok (lift (validate_command command call.user.person_id normal (payload_hash normal))) _
          s2 r s' r2 in
      let same1 : s ≡ s1 = ap (λ (p : Result Instant × World W). p.1) e1 in
      let same3 : s3 ≡ s2 = ap (λ (p : Result (Unit {0}) × World W). p.1) (sym e3) in
      let (found, whole') =
        reserve_ok call.command_id call.key call.user.person_id normal.task_id (payload_hash normal)
          now s1.db (command, s2.db)
          (subst (λ (w : World W). All IsWhole w.db.submission_command) same1 whole)
          (stored_ok s1
            (reserve call.command_id call.key call.user.person_id normal.task_id
              (payload_hash normal) now s1.db)
            command s2 e2) in
      let (hash, person, task) =
        valid_command command call.user.person_id normal (payload_hash normal)
          (ap (λ (p : Result (Unit {0}) × World W). p.0) e3) in
      let h =
        resume_ok call command normal now s3 r s'
          (ap (λ (w : World W). command_of call.key w.db.submission_command) same3 ∙ found) whole'
          r3 in
      record {
        row = h.row;
        found = h.found;
        state = h.state;
        result = h.result;
        hash = h.hash ∙ hash;
        person = h.person ∙ person;
        task = h.task ∙ task ∙ normalized-task request;
      }

  pub answered_again :
      (call : Call) (request : SubmissionInput) (s : World W) (r : SubmissionResult) (now : Instant)
      → require_utc call.now ≡ ok now
      → IsAnswered call request r s.db
      → submit gateway payload_hash call request s ≡ (ok r, s)
  unfolding submit resume
  answered_again call request s r now utc h =
      let normal = normalized request in
      rw utc (
        rw
          (reserve_again call.command_id call.key call.user.person_id normal.task_id
            (payload_hash normal) now s.db h.row h.found)
          (rw
            (command_valid h.row call.user.person_id normal (payload_hash normal) h.hash h.person
              (h.task ∙ sym (normalized-task request)))
            (rw h.state (rw h.result))))

  -- A report that was submitted and is sent again with its key by the same person, at any time in
  -- UTC and with any other facts of the call, gets the same answer, and neither the tables nor the
  -- task table are touched. The tables that it was submitted to hold no committed command without
  -- a result.
  pub submit_again :
      (call call' : Call) (request : SubmissionInput) (s : World W) (r : SubmissionResult)
      (s' : World W) (now' : Instant)
      → All IsWhole s.db.submission_command
      → submit gateway payload_hash call request s ≡ (ok r, s')
      → call'.key ≡ call.key
      → call'.user.person_id ≡ call.user.person_id
      → require_utc call'.now ≡ ok now'
      → submit gateway payload_hash call' request s' ≡ (ok r, s')
  submit_again call call' request s r s' now' whole e key person utc =
      let h = submit_settles call request s r s' whole e in
      answered_again call' request s' r now' utc (record {
        row = h.row;
        found = ap (λ k. command_of k s'.db.submission_command) key ∙ h.found;
        state = h.state;
        result = h.result;
        hash = h.hash;
        person = h.person ∙ sym person;
        task = h.task;
      })
