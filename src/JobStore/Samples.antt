-- ===== src/JobStore/Samples.antt =====
-- A scan that counts three, a table without runs and the table after its run, for the tests.
use sd_platform.Common.{◌≡◌, refl, ℕ, String, [], ◌∷◌, Bool, true, Option, none, some, pos, Instant}
use sd_platform.Common.Actions.{pure}
use sd_platform.Db.{Db, JobRun, RunState, empty_db}
use sd_platform.World.{World}
use sd_platform.Scheduler.{JobHandler, attempted, shanghai}
use sd_platform.JobStore.{new_run, ended_as}

abbrev pub hash : String
hash = "0123456789abcdef0123456789abcdef0123456789abcdef0123456789abcdef"

abbrev pub scan : JobHandler (World (Unit {0}))
scan slot = pure (("queued", pos 3) ∷ [])

abbrev pub registered : String → Option (JobHandler (World (Unit {0})))
registered job = some scan

abbrev pub tick : World (Unit {0}) → Instant
tick s = 70

abbrev pub free : Db → Bool
free db = true

abbrev pub draw : Db → ℕ
draw db = 5

abbrev pub first : World (Unit {0})
first = record { db = empty_db; outside = tt }

abbrev pub row : JobRun
row = ended_as RunState.succeeded (("queued", 3) ∷ []) none 70 (new_run 5 "urge_scan" 60 hash 61)

abbrev pub second : World (Unit {0})
second = record { db = record empty_db { job_run = row ∷ [] }; outside = tt }

pub scan_keeps :
    (t : World (Unit {0})) → (attempted scan (shanghai 60) t).1.db.job_run ≡ t.db.job_run
unfolding attempted
scan_keeps t = refl
