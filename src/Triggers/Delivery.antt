-- ===== src/Triggers/Delivery.antt =====
-- The delivery of a command that a request queued (`SchedulerTriggerOutboxHandler` over
-- `SchedulerService.run` and its repository): the outbox may deliver it more than once.
use sd_platform.Common.{
  ◌≡◌, refl, ap, ◌∙◌, String, Bool, true, false, Option, none, some, ltb, Result, ok, err, Instant,
  Datetime, Tz, first_where, is_empty, text_length,
}
use sd_platform.Common.Actions.{Exec}
use sd_platform.Db.{Uuid, Db, Json, JobRun}
use sd_platform.World.{World}
use sd_platform.Outbox.{OutboxItem, DispatchResult}
use sd_platform.Scheduler.{
  Counts, JobHandler, JobExecution, run, attempted, shanghai, is_config_hash,
}
use sd_platform.JobStore.{is_slot, sql_runs}
use sd_platform.JobStore.Slots.{run_slot, claimed, Settled, run_settles, run_again}
use sd_platform.SchedulerAdmin.{SchedulerAdminActor}
use sd_platform.TriggerStore.{run_command}
use sd_platform.Triggers.{Texts, required_string, command_of, handle_trigger, answered, delivered}

-- What the texts of a command must be like to be read back: they are short, and the time is read as
-- an aware one of the same instant, in whatever zone.
pub record IsReadable (texts : Texts) (job : String) (slot : Instant) : Type 0 where
  pub job_there : is_empty job ≡ false
  pub job_short : ltb 64 (text_length job) ≡ false
  pub time_there : is_empty (texts.isoformat (shanghai slot)) ≡ false
  pub time_short : ltb 64 (text_length (texts.isoformat (shanghai slot))) ≡ false
  pub parsed : Datetime
  pub time_read : texts.fromisoformat (texts.isoformat (shanghai slot)) ≡ ok parsed
  pub same_time : parsed.instant ≡ slot
  pub zone : Tz
  pub aware : parsed.tzinfo ≡ some zone

-- The handler reads what the request wrote.
command_read :
    (texts : Texts) (trigger_id outbox_id event_id : Uuid) (job : String) (retry : Option Uuid)
    (key : Uuid) (hash : String) (actor : SchedulerAdminActor) (now : Instant)
    → IsReadable texts job now
    → command_of texts
        (run_command trigger_id outbox_id event_id job retry key hash actor now).payload
      ≡ ok (job, now)
unfolding command_of required_string
command_read texts trigger_id outbox_id event_id job retry key hash actor now h =
    rw (h.job_there, h.job_short)
      (rw (h.time_there, h.time_short) (rw h.time_read (rw h.aware (rw h.same_time refl))))

-- How the handler reports a run that settled.
abbrev pub Reported : Result Counts → DispatchResult → Type 0
Reported (ok counts) result = result ≡ delivered 200
Reported (err e) result = result ≡ delivered 202

Settled-Reported :
    {W : Type 0} (id : Uuid) (job : String) (r : Result Counts) (q : Result JobExecution × World W)
    (row : JobRun)
    → Settled id job r q.0 row
    → (result : DispatchResult) × (answered q ≡ (ok result, q.1)) × Reported r result
unfolding answered
Settled-Reported id job (ok counts) (q, s) row settled = (delivered 200, rw settled.0, refl)
Settled-Reported id job (err e) (q, s) row settled = (delivered 202, rw settled.0, refl)

module _ {W : Type 0} (tick : World W → Instant) (locked : Db → Bool) (draw : Db → Uuid)
    (handlers : String → Option (JobHandler (World W))) (config_hash : String) (texts : Texts)
    (trigger_id outbox_id event_id : Uuid) (job : String) (retry : Option Uuid) (key : Uuid)
    (hash : String) (actor : SchedulerAdminActor) (now : Instant) where
  -- The service as the handler calls it.
  abbrev pub run_now : (job : String) (scheduled_for now : Datetime) → Exec (World W) JobExecution
  run_now job scheduled_for now =
      run (sql_runs locked draw) (λ t. (ok (shanghai (tick t)), t)) handlers config_hash job
        scheduled_for now

  -- The command that the request queued.
  abbrev pub queued : Json
  queued = (run_command trigger_id outbox_id event_id job retry key hash actor now).payload

  abbrev pub slot_after : OutboxItem → World W → World W
  slot_after item s = (run_slot tick locked draw handlers config_hash job now item.started_at s).1

  delivery_runs :
      (item : OutboxItem) (s : World W)
      → IsReadable texts job now
      → item.payload ≡ queued
      → handle_trigger texts run_now item s
        ≡ answered (run_slot tick locked draw handlers config_hash job now item.started_at s)
  unfolding handle_trigger
  delivery_runs item s h same =
      let read =
        ap (command_of texts) same
        ∙ command_read texts trigger_id outbox_id event_id job retry key hash actor now h in
      rw (read, handle_trigger) refl

  -- A queued command runs its job once, whatever the outbox delivers: the first delivery reports the
  -- run, as done or as failed, and every later one, in any world that still has the run of the slot,
  -- reports a duplicate and changes nothing. The job is registered, its handler leaves the table of
  -- runs alone, the texts of the command are short and its time is read as an aware one of the same
  -- instant, and at the first delivery the lock was free and the slot without a run.
  pub command_once :
      (handler : JobHandler (World W)) (s later : World W) (item item' : OutboxItem)
      → IsReadable texts job now
      → item.payload ≡ queued
      → item'.payload ≡ queued
      → handlers job ≡ some handler
      → is_config_hash config_hash ≡ true
      → locked s.db ≡ true
      → first_where (is_slot job now) s.db.job_run ≡ none
      → ((t : World W) → (attempted handler (shanghai now) t).1.db.job_run ≡ t.db.job_run)
      → first_where (is_slot job now) later.db.job_run
        ≡ first_where (is_slot job now) (slot_after item s).db.job_run
      → (result : DispatchResult) × (handle_trigger texts run_now item s
          ≡ (ok result, slot_after item s))
        × Reported
            (attempted handler
              (shanghai now)
              (claimed tick locked draw handlers config_hash job now item.started_at s)).0
            result
        × (handle_trigger texts run_now item' later ≡ (ok (delivered 208), later))
  unfolding answered
  command_once handler s later item item' h same same' known hashed free absent keeps stays =
      let (row, found, settled) =
        run_settles tick locked draw handlers config_hash job now item.started_at handler s known
          hashed free absent keeps in
      let (result, first, reported) =
        Settled-Reported (draw s.db) job
          (attempted handler (shanghai now)
            (claimed tick locked draw handlers config_hash job now item.started_at s)).0
          (run_slot tick locked draw handlers config_hash job now item.started_at s) row settled in
      let again =
        run_again tick locked draw handlers config_hash job now item'.started_at handler later row
          known hashed (stays ∙ found) in
      (
        result,
        delivery_runs item s h same ∙ first,
        reported,
        delivery_runs item' later h same' ∙ rw again,
      )
