-- ===== src/Replay/Tests.antt =====
-- The theorems on who may approve and replay, at concrete tables.
use sd_platform.Common.{◌≤◌, refl, first_where, text_length, strip, utc, require_utc}
use sd_platform.Admin.{require_role}
use sd_platform.ReplayStore.{approval_of}
use sd_platform.ReplayStore.Approve.{IsOpened}
use sd_platform.ReplayStore.Execute.{IsAllowed, IsReplayed}
use sd_platform.ReplayStore.Samples.{
  operator, admin, start, hash, waiting, approved, approves, replayed, queued, replays,
}
use sd_platform.Replay.{approve_replay, replay}
use sd_platform.Replay.Roles.{HasRole, service_approves, service_replays}

service_approves_example :
    HasRole (admin 1) "supervision_admin"
    × (10 ≤ text_length (strip " network is back "))
    × (text_length (strip " network is back ") ≤ 500)
    × IsOpened hash 100 200 4
        (strip " network is back ")
        500
        (admin 1)
        20
        start
        (approval_of waiting)
        approved
unfolding approve_replay require_role require_utc first_where strip
service_approves_example =
    service_approves (admin 1) (utc 20) start hash 100 200 4 " network is back " 500
      (approval_of waiting) approved refl approves

service_replays_example :
    HasRole operator "ops_admin"
    × IsAllowed 202 4 100 600 operator 40 approved
    × IsReplayed 202 4 100 600 operator 40 approved replayed
unfolding replay require_role require_utc first_where
service_replays_example =
    service_replays operator (utc 40) approved 202 4 100 600 queued replayed refl replays
