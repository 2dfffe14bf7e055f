-- ===== src/SchedulerWorker.antt =====
-- The worker that starts jobs at their times (sd-agent/sd_agent/worker/scheduler.py). APScheduler's
-- cron triggers are a parameter, and its scheduler is the list of the calls that it got.
use sd_platform.Common.{
  ◌-◌, String, Bool, true, false, not, List, [], ◌∷◌, ◌++◌, map, Option, none, some, ltb, str_eq,
  if◌then◌else◌, app_error, Result, ok, err, Instant, Datetime, seconds,
}
use sd_platform.Common.Actions.{Exec}
use sd_platform.Scheduler.{JobExecution, JobSpec, spec_of, shanghai}

-- `SchedulerAdapter`: what the worker asks of it.
pub data AdapterCall : Type 0 where
  add_job : JobSpec → AdapterCall
  start_jobs shutdown_jobs : AdapterCall

-- `specs` is the dict of that name, in which each name stands once.
pub record SchedulerWorker : Type 0 where
  pub specs : List JobSpec
  pub calls : List AdapterCall
  pub started : Bool

-- `SchedulerWorker.start`
unfoldable pub start : SchedulerWorker → SchedulerWorker
start w =
    if w.started
    then w
    else record w { calls = (w.calls ++ map add_job w.specs) ++ start_jobs ∷ []; started = true }

-- `SchedulerWorker.stop`
unfoldable pub stop : SchedulerWorker → SchedulerWorker
stop w =
    if not w.started then w else record w { calls = w.calls ++ shutdown_jobs ∷ []; started = false }

-- What the worker writes to its log.
pub data JobEvent : Type 0 where
  job_failed : (job error_code : String) → JobEvent
  job_completed : (job state : String) (idempotent : Bool) → JobEvent

module _ {S : Type 0} where
  -- except SchedulerError as exc: the error ends in the log; any other goes on
  abbrev logged : String → Result JobExecution × S → Result JobEvent × S
  logged job (ok execution, s) = (ok (job_completed job execution.state execution.idempotent), s)
  logged job (err (app_error class_name error_code status retryable), s) =
      if str_eq class_name "SchedulerError"
      then (ok (job_failed job error_code), s)
      else (err (app_error class_name error_code status retryable), s)
  logged job (err e, s) = (err e, s)

  -- `SchedulerWorker.run_job`. `next_fire` is the next time that a job's cron trigger names from an
  -- instant on; that time and the clock's are in Shanghai's zone.
  unfoldable pub run_job :
      (run : (job : String) (scheduled_for now : Datetime) → Exec S JobExecution)
      → (next_fire : JobSpec → Instant → Option Instant)
      → (specs : List JobSpec) (job : String) (now : Instant) → Exec S JobEvent
  run_job run next_fire specs job now s = elim (spec_of job specs) [
    | none ↦ (ok (job_failed job "JOB_NOT_REGISTERED"), s)
    | some spec ↦ elim (next_fire spec (now - seconds spec.misfire_grace_seconds)) [
      | none ↦ (ok (job_failed job "SCHEDULE_SLOT_UNAVAILABLE"), s)
      | some slot ↦
          if ltb now slot
          then (ok (job_failed job "SCHEDULE_SLOT_UNAVAILABLE"), s)
          else logged job (run job (shanghai slot) (shanghai now) s)
    ]
  ]
