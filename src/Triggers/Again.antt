-- ===== src/Triggers/Again.antt =====
-- A request to run a job that is made again (`SchedulerAdminService.trigger`): with the same key it
-- is the same request, and with another key a failed run is not run a second time.
use sd_platform.Common.{
  ◌≡◌, refl, sym, subst, ap, ◌∙◌, String, true, false, List, [], ◌∷◌, ◌++◌, Option, none, some,
  arith, Result, ok, err, Instant, Datetime, require_utc, first_where, first_where-append,
  exists_where, eq_iff, str_eq, ◌==◌, eq→==, Option-cases, Bool-cases, inl, inr, then_ok,
  then_value, test_passed, ◌&&◌, ◌>>=◌, ◌>>◌,
}
use sd_platform.Common.{require as check}
use sd_platform.Db.{Uuid, Db, Json, JobRun, JobTriggerRequest, is_failed}
use sd_platform.Scheduler.{is_job, job_specs}
use sd_platform.SchedulerAdmin.{
  SchedulerAdminActor, TriggerResult, scheduler_admin_error, require_role,
}
use sd_platform.TriggerStore.{
  with_key, retries, retry_allowed, request_row, requested, trigger_result, enqueue_trigger,
}
use sd_platform.Triggers.{trigger, trigger_payload_hash}

module _ (trigger_id outbox_id event_id : Uuid) (job : String) (retry : Option Uuid) (key : Uuid)
    (payload_hash : String) (actor : SchedulerAdminActor) (now : Instant) where
  abbrev row : JobTriggerRequest
  row = request_row trigger_id outbox_id event_id job retry key payload_hash actor now

  abbrev after_it : Db → Db
  after_it = requested trigger_id outbox_id event_id job retry key payload_hash actor now

  abbrev enqueue : Db → Result (TriggerResult × Db)
  enqueue = enqueue_trigger trigger_id outbox_id event_id job retry key payload_hash actor now

  row_stored :
      (db : Db)
      → first_where (with_key key) db.job_trigger_request ≡ none
      → first_where (with_key key) (after_it db).job_trigger_request ≡ some row
  unfolding first_where
  row_stored db absent =
      first_where-append (with_key key) db.job_trigger_request (row ∷ [])
      ∙ rw absent (rw (eq→== key key refl))

  -- What a request under a new key did.
  pub enqueue_new :
      (db : Db) (result : TriggerResult) (db' : Db)
      → first_where (with_key key) db.job_trigger_request ≡ none
      → enqueue db ≡ ok (result, db')
      → (retry_allowed job retry db ≡ ok tt)
        × (result ≡ trigger_result row false)
        × (db' ≡ after_it db)
  unfolding enqueue_trigger
  enqueue_new db result db' absent e =
      let (allowed, same) =
        then_ok (retry_allowed job retry db) (ok (trigger_result row false, after_it db))
          (result, db') (rw (absent, enqueue_trigger) at e) in
      (allowed, ground arith, ground arith)

  enqueue_old :
      (existing : JobTriggerRequest) (db : Db) (result : TriggerResult) (db' : Db)
      → first_where (with_key key) db.job_trigger_request ≡ some existing
      → enqueue db ≡ ok (result, db')
      → (str_eq existing.payload_hash payload_hash ≡ true)
        × (result ≡ trigger_result existing true)
        × (db' ≡ db)
  unfolding enqueue_trigger
  enqueue_old existing db result db' found e =
      let known = rw (found, enqueue_trigger) at e in
      elim (Bool-cases (str_eq existing.payload_hash payload_hash)) [
        | inl hit ↦ (hit, ground arith, ground arith)
        | inr miss ↦ absurd (ground arith)
      ]

  enqueue_stored :
      (db : Db) (result : TriggerResult) (db' : Db)
      → enqueue db ≡ ok (result, db')
      → (existing : JobTriggerRequest) × (first_where (with_key key) db'.job_trigger_request
          ≡ some existing)
        × (str_eq existing.payload_hash payload_hash ≡ true)
        × (trigger_result existing true ≡ record result { idempotent = true })
  unfolding enqueue_trigger trigger_result
  enqueue_stored db result db' e =
      elim (Option-cases (first_where (with_key key) db.job_trigger_request)) [
        | inl absent ↦
            let (allowed, same, after) = enqueue_new db result db' absent e in
            (
              row,
              subst (λ (d : Db). first_where (with_key key) d.job_trigger_request ≡ some row)
                  (sym after) (row_stored db absent),
              (eq_iff payload_hash payload_hash).1 refl,
              ap (λ (r : TriggerResult). record r { idempotent = true }) (sym same),
            )
        | inr (existing, found) ↦
            let (hit, same, after) = enqueue_old existing db result db' found e in
            (
              existing,
              subst (λ (d : Db). first_where (with_key key) d.job_trigger_request ≡ some existing)
                  (sym after) found,
              hit,
              ap (λ (r : TriggerResult). record r { idempotent = true }) (sym same),
            )
      ]

  -- A request that is made again under its key, for the same content, is the request that is stored.
  pub enqueue_again :
      (trigger_id' outbox_id' event_id' : Uuid) (actor' : SchedulerAdminActor) (now' : Instant)
      (db : Db) (result : TriggerResult) (db' : Db)
      → enqueue db ≡ ok (result, db')
      → enqueue_trigger trigger_id' outbox_id' event_id' job retry key payload_hash actor' now' db'
        ≡ ok (record result { idempotent = true }, db')
  unfolding enqueue_trigger
  enqueue_again trigger_id' outbox_id' event_id' actor' now' db result db' e =
      let (existing, found, hit, same) = enqueue_stored db result db' e in
      rw (found, enqueue_trigger) (rw hit (rw same))

-- A run that may be run again is a failed one of the job.
retried_run :
    (job : String) (id : Uuid) (db : Db)
    → retry_allowed job (some id) db ≡ ok tt
    → (run : JobRun) × (first_where (λ r. r.job_run_id == id) db.job_run ≡ some run)
      × ((str_eq run.job job && is_failed run.state) ≡ true)
unfolding retry_allowed
retried_run job id db e = elim (Option-cases (first_where (λ r. r.job_run_id == id) db.job_run)) [
  | inl absent ↦ absurd (cc (rw (absent, retry_allowed) at e))
  | inr (run, found) ↦
      let known = rw (found, retry_allowed) at e in
      elim (Bool-cases (str_eq run.job job && is_failed run.state)) [
        | inl fits ↦ (run, found, fits)
        | inr not_it ↦ absurd (cc (rw not_it at known))
      ]
]

module _ (job : String) (id : Uuid) (db : Db) (rows : List JobTriggerRequest)
    (row : JobTriggerRequest) where
  retries_found : retries id row ≡ true → exists_where (retries id) (rows ++ row ∷ []) ≡ true
  unfolding first_where
  retries_found hit = rw (first_where-append (retries id) rows (row ∷ [])) (
      rw hit (elim (Option-cases (first_where (retries id) rows)) [
        | inl absent ↦ rw absent
        | inr (r, there) ↦ rw there
      ]))

  retried_refused :
      (db' : Db)
      → retries id row ≡ true
      → retry_allowed job (some id) db ≡ ok tt
      → db'.job_run ≡ db.job_run
      → db'.job_trigger_request ≡ rows ++ row ∷ []
      → retry_allowed job (some id) db' ≡ err (scheduler_admin_error "JOB_RUN_ALREADY_RETRIED" 409)
  unfolding retry_allowed
  retried_refused db' hit e same stored =
      let (run, found, fits) = retried_run job id db e in
      rw same (rw found (rw fits (rw stored (rw (retries_found hit)))))

-- Two calls of the service.
module _ (dumps : Json → String) (sha256 : String → String) (trigger_id outbox_id event_id : Uuid)
    (job : String) (key : Uuid) (actor : SchedulerAdminActor) (now : Datetime) (db db' : Db)
    (result : TriggerResult) where
  -- A call that succeeds reached the transaction.
  pub trigger-inverse :
      (retry : Option Uuid)
      → trigger dumps sha256 trigger_id outbox_id event_id job retry key actor now db
        ≡ ok (result, db')
      → (t : Instant) × (is_job job job_specs ≡ true)
        × (require_utc now ≡ ok t)
        × (enqueue_trigger trigger_id outbox_id event_id job retry key
              (trigger_payload_hash dumps sha256 job retry)
              actor
              t
              db
            ≡ ok (result, db'))
  unfolding trigger
  trigger-inverse retry e =
      let enqueue = λ (t : Instant).
        enqueue_trigger trigger_id outbox_id event_id job retry key
          (trigger_payload_hash dumps sha256 job retry) actor t db in
      let known = check (is_job job job_specs) (scheduler_admin_error "JOB_NOT_FOUND" 404) in
      let (allowed, e1) =
        then_ok (require_role actor) (known >> (require_utc now >>= enqueue)) (result, db') e in
      let (listed, e2) = then_ok known (require_utc now >>= enqueue) (result, db') e1 in
      let (t, at_t, e3) = then_value (require_utc now) enqueue (result, db') e2 in
      (
        t,
        test_passed (is_job job job_specs) (scheduler_admin_error "JOB_NOT_FOUND" 404) listed,
        at_t,
        e3,
      )

  module _ (trigger_id' outbox_id' event_id' key' : Uuid) (actor' : SchedulerAdminActor)
      (now' : Datetime) (t' : Instant) where
    trigger-forward :
        (retry : Option Uuid) (d : Db)
        → is_job job job_specs ≡ true
        → require_role actor' ≡ ok tt
        → require_utc now' ≡ ok t'
        → trigger dumps sha256 trigger_id' outbox_id' event_id' job retry key' actor' now' d
          ≡ enqueue_trigger trigger_id' outbox_id' event_id' job retry key'
              (trigger_payload_hash dumps sha256 job retry)
              actor'
              t'
              d
    unfolding trigger
    trigger-forward retry d listed allowed at_t = rw allowed (rw listed (rw at_t))

  -- A request that is made again with its key, for the same job and run, by any administrator at any
  -- time, gets the answer of the first one and changes nothing: the job is queued once.
  pub trigger_again :
      (trigger_id' outbox_id' event_id' : Uuid) (retry : Option Uuid) (actor' : SchedulerAdminActor)
      (now' : Datetime) (t' : Instant)
      → trigger dumps sha256 trigger_id outbox_id event_id job retry key actor now db
        ≡ ok (result, db')
      → require_role actor' ≡ ok tt
      → require_utc now' ≡ ok t'
      → trigger dumps sha256 trigger_id' outbox_id' event_id' job retry key actor' now' db'
        ≡ ok (record result { idempotent = true }, db')
  trigger_again trigger_id' outbox_id' event_id' retry actor' now' t' e allowed at_t =
      let (t, listed, from, e') = trigger-inverse retry e in
      trigger-forward trigger_id' outbox_id' event_id' key actor' now' t' retry db' listed allowed
        at_t
      ∙ enqueue_again trigger_id outbox_id event_id job retry key
          (trigger_payload_hash dumps sha256 job retry) actor t trigger_id' outbox_id' event_id'
          actor' t' db result db' e'

  -- A failed run is run again once: after a request under a new key to run it again, every request
  -- under another new key, by any administrator at any time, is refused.
  pub retry_refused :
      (trigger_id' outbox_id' event_id' key' id : Uuid) (actor' : SchedulerAdminActor)
      (now' : Datetime) (t' : Instant)
      → first_where (with_key key) db.job_trigger_request ≡ none
      → trigger dumps sha256 trigger_id outbox_id event_id job (some id) key actor now db
        ≡ ok (result, db')
      → require_role actor' ≡ ok tt
      → require_utc now' ≡ ok t'
      → first_where (with_key key') db'.job_trigger_request ≡ none
      → trigger dumps sha256 trigger_id' outbox_id' event_id' job (some id) key' actor' now' db'
        ≡ err (scheduler_admin_error "JOB_RUN_ALREADY_RETRIED" 409)
  unfolding enqueue_trigger
  retry_refused trigger_id' outbox_id' event_id' key' id actor' now' t' new e allowed at_t new' =
      let (t, listed, from, e') = trigger-inverse (some id) e in
      let hash = trigger_payload_hash dumps sha256 job (some id) in
      let (could, same, after) =
        enqueue_new trigger_id outbox_id event_id job (some id) key hash actor t db result db' new
          e' in
      let refusal =
        retried_refused job id db db.job_trigger_request
          (request_row trigger_id outbox_id event_id job (some id) key hash actor t) db'
          (eq→== id id refl) could (ap (λ (d : Db). d.job_run) after)
          (ap (λ (d : Db). d.job_trigger_request) after) in
      trigger-forward trigger_id' outbox_id' event_id' key' actor' now' t' (some id) db' listed
        allowed at_t
      ∙ rw (new', enqueue_trigger) (rw refusal)
