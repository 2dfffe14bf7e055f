-- ===== src/Rules/Calendar.antt =====
-- Counting work days (`_workday_distance`).
use sd_platform.Common.{ℤ, neg, ◌≡◌, ◌≤◌, ◌<◌, ℕ, zero, suc, refl, List, [], ◌∷◌, ok, arith}
use sd_platform.Rules.{between, workday_distance, overdue_workdays}

-- A later end counts no fewer days.
pub between_mono :
    (low high high' : ℕ) (days : List ℕ)
    → high ≤ high'
    → between low high days ≤ between low high' days
unfolding between
between_mono low high high' [] h = ground arith
between_mono low high high' (d ∷ days) h = ground (arith, between_mono low high high' days h)

overdue-neg : (n : ℕ) → overdue_workdays (neg n) ≡ n
overdue-neg zero = refl
overdue-neg (suc n) = refl

-- On a day after the deadline the task is as many work days overdue as lie between, the day
-- included.
pub overdue_exact :
    (as_of deadline : ℕ) (days : List ℕ) (d : ℤ)
    → deadline < as_of
    → workday_distance as_of deadline days ≡ ok d
    → overdue_workdays d ≡ between deadline as_of days
unfolding workday_distance
overdue_exact as_of deadline days d late e =
    ground (arith, overdue-neg (between deadline as_of days))
