-- ===== src/JobStore/Tests.antt =====
-- One slot of a job at concrete tables.
use sd_platform.Common.{◌≡◌, refl, some, ok, first_where, update_where}
use sd_platform.Db.{JobRun}
use sd_platform.Scheduler.{
  run, attempted, validated_counts, require_shanghai_time, ended, shanghai, succeeded,
}
use sd_platform.JobStore.{is_slot, claim_run, finish_run}
use sd_platform.JobStore.Slots.{run_slot, claimed, Settled, run_settles}
use sd_platform.JobStore.Samples.{
  hash, scan, registered, tick, free, draw, first, second, scan_keeps,
}

run_settles_example :
    (found : JobRun) × (first_where
        (is_slot "urge_scan" 60)
        (run_slot tick free draw registered hash "urge_scan" 60 61 first).1.db.job_run
      ≡ some found)
    × Settled 5 "urge_scan"
        (attempted scan
          (shanghai 60)
          (claimed tick free draw registered hash "urge_scan" 60 61 first)).0
        (run_slot tick free draw registered hash "urge_scan" 60 61 first).0
        found
unfolding first_where
run_settles_example =
    run_settles tick free draw registered hash "urge_scan" 60 61 scan first refl refl refl refl
      scan_keeps

-- the row that the theorem speaks of
runs :
    run_slot tick free draw registered hash "urge_scan" 60 61 first
    ≡ (ok (succeeded 5 "urge_scan"), second)
unfolding run require_shanghai_time claim_run first_where attempted validated_counts ended
    finish_run update_where
runs = refl
