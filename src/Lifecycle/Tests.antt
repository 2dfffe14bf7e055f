-- ===== src/Lifecycle/Tests.antt =====
-- The life of a dead letter that is replayed.
use sd_platform.Common.{refl, first_where, [], ◌∷◌}
use sd_platform.ReplayStore.{approval_of}
use sd_platform.ReplayStore.Samples.{
  start, replayed, hash, admin, operator, waiting, queued, approves, replays,
}
use sd_platform.Lifecycle.{Moves, quiet, reopening, status}
use sd_platform.Lifecycle.Steps.{Step, Reach, here, next}
use sd_platform.Lifecycle.Refinement.{outbox_refines}

replayed_reached : Reach start replayed
replayed_reached =
    next
      (next here (
        Step.approves hash 100 200 4 "network is back" 500 (admin 1) 20 (approval_of waiting)
          approves))
      (Step.replays 202 4 100 600 operator 40 queued replays)

outbox_refines_example :
    Moves 4
      (status 4 start.outbox_message)
      (reopening 4 ∷ quiet ∷ [])
      (status 4 replayed.outbox_message)
unfolding first_where replayed_reached
outbox_refines_example = outbox_refines start replayed 4 replayed_reached (refl, tt)
