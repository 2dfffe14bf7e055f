-- ===== src/JobStore.antt =====
-- Runs of jobs in PostgreSQL (sd-agent/sd_agent/persistence/scheduler.py). Each function is one
-- transaction over the tables; the UUID that the code draws is an argument, and so is whether the
-- advisory lock of the job and its time was free.
pub mod Slots
pub mod Samples
mod Tests
use sd_platform.Common.{
  ℕ, String, Bool, true, false, not, ◌&&◌, List, [], ◌∷◌, ◌++◌, Option, none, some, ◌==◌, str_eq,
  if◌then◌else◌, runtime_error, Result, ok, err, ◌>>◌, Instant, update_where, exists_where,
}
use sd_platform.Common.{require as check}
use sd_platform.Db.{Uuid, Db, JobRun, RunState, is_running}
use sd_platform.World.{World, on_tables}
use sd_platform.Scheduler.{Counts, JobRunRepository}

-- the unique key of a run
abbrev pub is_slot : String → Instant → JobRun → Bool
is_slot job scheduled_for row = str_eq row.job job && row.scheduled_for == scheduled_for

abbrev pub new_run : Uuid → String → Instant → String → Instant → JobRun
new_run id job scheduled_for config_hash started_at = record {
  job_run_id = id;
  job = job;
  scheduled_for = scheduled_for;
  state = RunState.running;
  config_hash = config_hash;
  counts = [];
  error_code = none;
  started_at = some started_at;
  finished_at = none;
}

-- `SqlJobRunRepository.claim_run`
unfoldable pub claim_run :
    (locked : Bool) (id : Uuid) (job : String)
    → (scheduled_for : Instant) (config_hash : String) (started_at : Instant) → Db
    → Option Uuid × Db
claim_run locked id job scheduled_for config_hash started_at db =
    if not locked
    then (none, db)
    else if exists_where (is_slot job scheduled_for) db.job_run
    then (none, db)
    else (
      some id,
      record db {
        job_run = db.job_run ++ new_run id job scheduled_for config_hash started_at ∷ [];
      },
    )

abbrev pub is_claimed : Uuid → JobRun → Bool
is_claimed id row = row.job_run_id == id && is_running row.state

abbrev pub ended_as : RunState → Counts → Option String → Instant → JobRun → JobRun
ended_as state counts error_code finished_at row = record row {
  state = state;
  counts = counts;
  error_code = error_code;
  finished_at = some finished_at;
}

-- `SqlJobRunRepository.finish_run`
unfoldable pub finish_run :
    Uuid → RunState → Counts → Option String → Instant → Db → Result (Unit {0} × Db)
finish_run id state counts error_code finished_at db =
    check (exists_where (is_claimed id) db.job_run) (runtime_error "job run claim was lost")
    >> ok (
      tt,
      record db {
        job_run =
            update_where (is_claimed id) (ended_as state counts error_code finished_at) db.job_run;
      },
    )

-- The repository that the service is given. `locked` says whether the lock is free, and `draw` gives
-- the UUID of a run.
abbrev pub sql_runs :
    {W : Type 0} → (locked : Db → Bool) (draw : Db → Uuid) → JobRunRepository (World W)
sql_runs locked draw = record {
  claim_run = λ job scheduled_for config_hash started_at.
      on_tables
        λ db. ok (claim_run (locked db) (draw db) job scheduled_for config_hash started_at db);
  finish_run = λ id state counts error_code finished_at.
      on_tables (finish_run id state counts error_code finished_at);
}
