-- ===== src/ReplayStore/Tests.antt =====
-- The theorems on approvals and replays at concrete tables.
use sd_platform.Common.{true, ◌≡◌, refl, ok, err, first_where}
use sd_platform.Admin.{admin_error}
use sd_platform.ReplayStore.{approve_replay, replay, approval_of, consumed}
use sd_platform.ReplayStore.Approve.{IsOpened, approve_opens}
use sd_platform.ReplayStore.Approved.{none_yet, then_replay, approve_again}
use sd_platform.ReplayStore.Again.{replay_again, replay_spent}
use sd_platform.ReplayStore.Samples.{
  operator, admin, start, hash, waiting, approved, approves, replayed, queued, replays,
}

approve_opens_example :
    IsOpened hash 100 200 4 "network is back" 500 (admin 1) 20 start (approval_of waiting) approved
unfolding first_where
approve_opens_example =
    approve_opens hash 100 200 4 "network is back" 500 (admin 1) 20 start (approval_of waiting)
      approved refl approves

approve_again_example :
    approve_replay hash 101 201 4 "network is back" 500 (admin 2) 60 replayed
    ≡ ok (record (approval_of waiting) { consumed = true }, replayed)
unfolding approval_of
approve_again_example =
    approve_again hash 100 200 4 "network is back" 500 (admin 1) 20 start (approval_of waiting)
      approved replayed true 101 201 (admin 2) 60 approves
      (then_replay none_yet 202 4 100 600 operator 40 queued replays)

replay_again_example :
    replay 203 4 100 600 (admin 3) 50 replayed
    ≡ ok (record { outbox_id = 4; approval_id = 100; idempotent = true }, replayed)
replay_again_example =
    replay_again 202 4 100 600 operator 40 approved queued replayed 203 (admin 3) 50 replays

replay_spent_example :
    replay 203 4 100 601 (admin 3) 50 replayed ≡ err (admin_error "OUTBOX_APPROVAL_CONSUMED" 409)
unfolding first_where consumed
replay_spent_example =
    replay_spent 202 4 100 600 operator 40 approved queued replayed 203 601 (admin 3) 50 refl
      replays refl
