-- ===== src/Metrics/Keys.antt =====
-- The Redis keys of the metrics, and the minute, hour and day of a time. Times are milliseconds.
pub mod Laws
pub mod Apart
use Prim.Native.String
use eventify.Common.{ℕ, ◌*◌, ◌/◌, String}
use eventify.Common.Number.{decimal}

abbrev pub join : String → String → String
join a b = String.◌++◌ a b

-- `metrics:${family}:${time}`.
unfoldable pub metric_key : String → String → String
metric_key family time = join "metrics:" (join family (join ":" time))

unfoldable pub time_key : ℕ → String
time_key timestamp = decimal (timestamp / (1000 * 60))

unfoldable pub hour_key : ℕ → String
hour_key timestamp = decimal (timestamp / (1000 * 60 * 60))

unfoldable pub day_key : ℕ → String
day_key timestamp = decimal (timestamp / (1000 * 60 * 60 * 24))
