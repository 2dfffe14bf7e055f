-- ===== src/JobStore/Slots.antt =====
-- One slot of a job, the job with its planned time, from its claim to the end of its run
-- (`SchedulerService.run` over `SqlJobRunRepository`).
use sd_platform.Common.{
  ◌≡◌, refl, ◌∙◌, String, Bool, true, false, List, [], ◌∷◌, ◌++◌, Option, none, some, eq→==,
  Option-cases, Bool-cases, inl, inr, is_none, Result, ok, err, Instant, Datetime, first_where,
  first_where-append, first_where-update, update_where, eq_iff,
}
use sd_platform.Common.Actions.{Exec}
use sd_platform.Db.{Uuid, Db, JobRun, RunState}
use sd_platform.World.{World}
use sd_platform.Scheduler.{
  Counts, JobHandler, JobExecution, run, ended, ending, attempted, duplicate, succeeded,
  scheduler_error, require_shanghai_time, shanghai, is_config_hash,
}
use sd_platform.JobStore.{is_slot, new_run, claim_run, is_claimed, ended_as, finish_run, sql_runs}

module _ (rows : List JobRun) (id : Uuid) (job : String) (slot : Instant) (hash : String)
    (started_at : Instant) where
  abbrev new_one : JobRun
  new_one = new_run id job slot hash started_at

  abbrev with_new : List JobRun
  with_new = rows ++ new_one ∷ []

  is_slot-new : is_slot job slot new_one ≡ true
  is_slot-new = rw ((eq_iff job job).1 refl) (eq→== slot slot refl)

  new_slot :
      first_where (is_slot job slot) rows ≡ none
      → first_where (is_slot job slot) with_new ≡ some new_one
  unfolding first_where
  new_slot absent =
      first_where-append (is_slot job slot) rows (new_one ∷ []) ∙ rw absent (rw is_slot-new)

  new_claimed : is_none (first_where (is_claimed id) with_new) ≡ false
  unfolding first_where
  new_claimed = rw (first_where-append (is_claimed id) rows (new_one ∷ [])) (
      rw (eq→== id id refl) (elim (Option-cases (first_where (is_claimed id) rows)) [
        | inl absent ↦ rw absent
        | inr (r, there) ↦ rw there
      ]))

  -- A claimed run can be ended, and its row is the row of the slot.
  ended_slot :
      (state : RunState) (counts : Counts) (error_code : Option String) (finished_at : Instant)
      → first_where (is_slot job slot) rows ≡ none
      → first_where
          (is_slot job slot)
          (update_where (is_claimed id) (ended_as state counts error_code finished_at) with_new)
        ≡ some (ended_as state counts error_code finished_at new_one)
  ended_slot state counts error_code finished_at absent =
      first_where-update (is_slot job slot) (is_claimed id)
        (ended_as state counts error_code finished_at) (λ r. refl) with_new
      ∙ rw (new_slot absent) (rw (eq→== id id refl))

  finish_claimed :
      (state : RunState) (counts : Counts) (error_code : Option String) (finished_at : Instant)
      (db : Db)
      → db.job_run ≡ with_new
      → finish_run id state counts error_code finished_at db
        ≡ ok (
          tt,
          record db {
            job_run =
                update_where
                  (is_claimed id)
                  (ended_as state counts error_code finished_at)
                  with_new;
          },
        )
  unfolding finish_run
  finish_claimed state counts error_code finished_at db same = rw same (rw new_claimed)

-- How a run that was claimed ends: what it gives, and the row of its slot.
abbrev pub Settled :
    (id : Uuid) (job : String) → Result Counts → Result JobExecution → JobRun → Type 0
Settled id job (ok counts) r row =
    (r ≡ ok (succeeded id job))
    × (row.state ≡ RunState.succeeded)
    × (row.counts ≡ counts)
    × (row.error_code ≡ none)
Settled id job (err e) r row =
    (r ≡ err (scheduler_error "JOB_EXECUTION_FAILED"))
    × (row.state ≡ RunState.failed)
    × (row.counts ≡ [])
    × (row.error_code ≡ some "JOB_EXECUTION_FAILED")

module _ {W : Type 0} (tick : World W → Instant) (locked : Db → Bool) (draw : Db → Uuid)
    (handlers : String → Option (JobHandler (World W))) (hash job : String)
    (slot started_at : Instant) where
  abbrev clock : Exec (World W) Datetime
  clock t = (ok (shanghai (tick t)), t)

  -- One call of the service for the slot.
  abbrev pub run_slot : Exec (World W) JobExecution
  run_slot =
      run (sql_runs locked draw) clock handlers hash job (shanghai slot) (shanghai started_at)

  -- The state in which the handler starts.
  abbrev pub claimed : World W → World W
  claimed s = record s {
    db = record s.db { job_run = with_new s.db.job_run (draw s.db) job slot hash started_at };
  }

  module _ (rows : List JobRun) (id : Uuid)
      (absent : first_where (is_slot job slot) rows ≡ none) where
    ended_settles :
        (r : Result Counts) (t : World W)
        → t.db.job_run ≡ with_new rows id job slot hash started_at
        → (row : JobRun) × (first_where
              (is_slot job slot)
              (ended (sql_runs locked draw) clock id job r t).1.db.job_run
            ≡ some row)
          × Settled id job r (ended (sql_runs locked draw) clock id job r t).0 row
    unfolding ended require_shanghai_time
    ended_settles (ok counts) t same =
        let done =
          finish_claimed rows id job slot hash started_at RunState.succeeded counts none (tick t)
            t.db same in
        rw done (
          ended_as RunState.succeeded counts none (tick t)
              (new_one rows id job slot hash started_at),
          ended_slot rows id job slot hash started_at RunState.succeeded counts none (tick t)
              absent,
          (refl, refl, refl, refl),
        )
    ended_settles (err e) t same =
        let done =
          finish_claimed rows id job slot hash started_at RunState.failed []
            (some "JOB_EXECUTION_FAILED") (tick t) t.db same in
        rw done (
          ended_as RunState.failed [] (some "JOB_EXECUTION_FAILED") (tick t)
              (new_one rows id job slot hash started_at),
          ended_slot rows id job slot hash started_at RunState.failed []
              (some "JOB_EXECUTION_FAILED") (tick t) absent,
          (refl, refl, refl, refl),
        )

    ending_settles :
        (r : Result Counts × World W)
        → r.1.db.job_run ≡ with_new rows id job slot hash started_at
        → (row : JobRun) × (first_where
              (is_slot job slot)
              (ending (sql_runs locked draw) clock id job r).1.db.job_run
            ≡ some row)
          × Settled id job r.0 (ending (sql_runs locked draw) clock id job r).0 row
    ending_settles (r, t) same = ended_settles r t same

  run_claims :
      (handler : JobHandler (World W)) (s : World W)
      → handlers job ≡ some handler
      → is_config_hash hash ≡ true
      → locked s.db ≡ true
      → first_where (is_slot job slot) s.db.job_run ≡ none
      → run_slot s
        ≡ ending
            (sql_runs locked draw)
            clock
            (draw s.db)
            job
            (attempted handler (shanghai slot) (claimed s))
  unfolding run require_shanghai_time claim_run
  run_claims handler s known hashed free absent =
      rw known (rw hashed (rw (free, claim_run) (rw absent)))

  -- A slot that is run for the first time ends as its handler did, whatever that was: as succeeded
  -- with the handler's counts, or as failed when the handler raised or counted wrongly. The handler
  -- is a registered one that leaves the table of runs alone, and the lock of the slot was free.
  pub run_settles :
      (handler : JobHandler (World W)) (s : World W)
      → handlers job ≡ some handler
      → is_config_hash hash ≡ true
      → locked s.db ≡ true
      → first_where (is_slot job slot) s.db.job_run ≡ none
      → ((t : World W) → (attempted handler (shanghai slot) t).1.db.job_run ≡ t.db.job_run)
      → (row : JobRun) × (first_where (is_slot job slot) (run_slot s).1.db.job_run ≡ some row)
        × Settled
            (draw s.db)
            job
            (attempted handler (shanghai slot) (claimed s)).0
            (run_slot s).0
            row
  run_settles handler s known hashed free absent keeps =
      rw (run_claims handler s known hashed free absent) (
        ending_settles s.db.job_run (draw s.db) absent
          (attempted handler (shanghai slot) (claimed s)) (keeps (claimed s)))

  -- A slot that has a row, of a run that goes on or that ended in any way, is not run again: every
  -- further call reports a duplicate and changes nothing.
  pub run_again :
      (handler : JobHandler (World W)) (s : World W) (row : JobRun)
      → handlers job ≡ some handler
      → is_config_hash hash ≡ true
      → first_where (is_slot job slot) s.db.job_run ≡ some row
      → run_slot s ≡ (ok (duplicate job), s)
  unfolding run require_shanghai_time claim_run
  run_again handler s row known hashed found = elim (Bool-cases (locked s.db)) [
    | inl free ↦ rw known (rw hashed (rw (free, claim_run) (rw found)))
    | inr held ↦ rw known (rw hashed (rw (held, claim_run)))
  ]
