-- ===== src/Common/Times.antt =====
-- Python's `datetime`: the instant in microseconds from an epoch, and what the code reads of its
-- time zone. An aware time has an offset to UTC, and a zone of `zoneinfo` has a key too.
use Prim.Native.Nat.{ℕ, ◌*◌}
use Prim.Native.String.{String}
use mathlib.Core.Bool.{Bool, false}
use mathlib.Core.Option.{Option, none, some}
use sd_platform.Common.Tests.{◌==◌, if◌then◌else◌}
use sd_platform.Common.Results.{Result, ok, err, value_error}

-- An instant, in microseconds.
abbrev pub Instant : Type 0
Instant = ℕ

-- `timedelta(seconds=n)` and `timedelta(minutes=n)`
abbrev pub seconds : ℕ → ℕ
seconds n = n * 1000000

abbrev pub minutes : ℕ → ℕ
minutes n = n * 60000000

-- `value.utcoffset()`, east or west of UTC.
pub data Offset : Type 0 where
  east west : ℕ → Offset

pub record Tz : Type 0 where
  pub key : Option String
  pub offset : Offset

pub record Datetime : Type 0 where
  pub instant : Instant
  pub tzinfo : Option Tz

abbrev pub is_zero : Offset → Bool
is_zero (east n) = n == 0
is_zero (west n) = n == 0

abbrev pub is_utc : Option Tz → Bool
is_utc none = false
is_utc (some tz) = is_zero tz.offset

-- `_require_utc`: the same function in each service module.
unfoldable pub require_utc : Datetime → Result Instant
require_utc value =
    if is_utc value.tzinfo
    then ok value.instant
    else err (value_error "datetime must be timezone-aware UTC")

abbrev pub utc : Instant → Datetime
utc t = record { instant = t; tzinfo = some (record { key = none; offset = east 0 }) }
