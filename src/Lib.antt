-- ===== src/Lib.antt =====
-- Verification library of sd-platform: the services behind progress reports and notifications
-- (sd-agent/), modelled as functions on the tables of their PostgreSQL schema.
--
-- The program. A person reports progress on a task; the report goes to Teable, a task table of
-- another vendor, and to PostgreSQL, and a message for the OA system is queued in the same
-- transaction as the end of the report. A worker claims queued messages in batches under a lease,
-- delivers each by the handler of its kind, and settles it: sent, to be retried later, or dead. A
-- dead letter is put back in the queue by two people: a supervision admin approves and an ops admin
-- executes. So submissions feed the outbox, the worker empties it, and the administration puts dead
-- letters back. Jobs run at their times or on request: a request queues a command in the outbox, whose
-- handler runs the job, and a job has one run for each of its times. One job, the reconciliation,
-- finishes reports that stopped between Teable and PostgreSQL. People log in through the OA, and a
-- login ends in a session and a token.
--
-- The files and what they model:
--   Common        numbers, texts, tables as lists (select, update, order by), times, exceptions
--                 and results, and code that changes a state and may raise (Common/Actions)
--   Db            the rows of persistence/models.py, and the tables in one record
--   Outbox        outbox/service.py: the router of handlers (dispatch), the classification of a
--                 delivery with its backoff (_outcome is outcome_of), and a batch (run_once)
--   OutboxStore   persistence/outbox.py: claim and finish
--   Report        submission/service.py: the report, its normal form, _validate_request
--   SubmissionStore  persistence/submissions.py, and files_are_clean of adapters/submission.py
--   Submission    submission/service.py: the saga submit and _validate_command
--   Admin         outbox/admin.py: its types and _require_role
--   ReplayStore   persistence/outbox_admin.py: list_dead_letters, approve_replay, replay
--   Replay        outbox/admin.py: OutboxAdminService
--   Rules         rules/engine.py: evaluate_task and make_urge_decision
--   World         the tables beside the state of another system
--   Scheduler     scheduler/service.py: run and its guards; scheduler/catalog.py: the jobs
--   SchedulerWorker  worker/scheduler.py: start, stop, run_job
--   JobStore      persistence/scheduler.py: claim_run, finish_run
--   SchedulerAdmin  scheduler/admin.py: its types and _require_role
--   TriggerStore  persistence/scheduler_admin.py: list_runs, enqueue_trigger
--   Triggers      scheduler/admin.py: SchedulerAdminService, SchedulerTriggerOutboxHandler
--                 (__call__ is handle_trigger)
--   Reconciliation  jobs/reconciliation.py: SqlReconciliationRepository; Reconciliation/Job: the end
--                 of a claim (complete_claim) and the handler (reconcile)
--   Urge          jobs/urge.py: the commands of a scan (all_commands) and its checks; Urge/Scan:
--                 UrgeScanHandler.__call__ (scan_tasks) and SqlUrgeCommandSink.enqueue
--   Files         files/service.py: the checks of names and types; Files/Upload: upload, download, and
--                 persistence/files.py
--   Oa            oa/service.py and oa/urge.py: the handlers of both commands (handle_complete_pending,
--                 handle_send_urge) and MockOaGateway._accept (accept)
--   Lifecycle     the life of one message under every transaction of the above: an abstract view of
--                 its state (Move, by the kind of the transaction), a step relation on the tables
--                 (Steps), and that the one implements the other (Refinement)
--   SsoStore      persistence/sso.py
--   Sso           sso/service.py: start, callback, MockSsoProvider (Sso/Mock);
--                 validate_redirect_path of auth/security.py
--   Sessions      auth/service.py: authenticate, issue_csrf, verify_csrf, logout; auth/security.py:
--                 TokenService (issue, verify); persistence/sessions.py
-- (all below sd-agent/sd_agent/). Child modules of a part hold its lemmas and theorems, named for
-- what they are about; Tests and Samples hold runs at concrete data.
--
-- How code is rendered. A transaction is a function from tables to a value with the tables after
-- it, or an exception, which leaves the tables alone. A method that awaits several transactions or
-- outside calls passes the state along and keeps what was written before a raise. An exception is
-- its class with the fields the code reads; the text shown to a person is left out. A UUID is a
-- number, an instant a number of microseconds, and a JSON column a list of named values. UUIDs that
-- the code draws are arguments, and that two draws do not collide is not assumed where it is not
-- needed: a collision on a primary key would raise, and is not modelled. SHA-256, the hash of the
-- canonical JSON of a report, the task table (a gateway over a state of any type), the dispatcher
-- of deliveries, the JWT library, the HMAC of CSRF tokens, the store of identities, the OA's login, the
-- cron triggers, the handlers of jobs, the texts of UUIDs and times, urllib, the scanner and the
-- store of files, ZIP archives, Unicode's normal form, and which rows and locks
-- other transactions hold are parameters. Progress, revisions and ids are natural numbers, as the
-- API's schema has them.
--
-- Loops. A batch of messages or of stopped reports is a list, and its loop is recursion on it, so
-- there is no fuel.
--
-- Not modelled: the HTTP routes, settings, logging and wiring, the HTTP clients, the migrations,
-- the browser client and the deployment, which are glue on libraries; and, as yet, the weighted
-- progress of the rules, the file clients of adapters/files.py, and the AI pipeline. The
-- advisory lock of a task is not a definition: submissions of one task run one after the other. The
-- lock of a job's time and of a command is the argument that says whether it was free; the locks of a
-- request's key and of a ticket, which wait, make their transactions run one after the other.
mod Common
mod Db
pub mod World
pub mod Outbox
pub mod OutboxStore
pub mod Report
pub mod SubmissionStore
pub mod Submission
pub mod Admin
pub mod ReplayStore
pub mod Replay
pub mod Rules
pub mod Sessions
pub mod JobStore
pub mod Scheduler
pub mod SchedulerWorker
pub mod SchedulerAdmin
pub mod TriggerStore
pub mod Triggers
pub mod Lifecycle
pub mod Reconciliation
pub mod SsoStore
pub mod Sso
pub mod Urge
pub mod Files
pub mod Oa
