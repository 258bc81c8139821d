-- ===== src/Queue/Time.antt =====
-- The parts of Go's package `time` that the program computes with. A `Time` is the number of
-- nanoseconds since Go's zero time (1 January of year 1); a `Duration` is a number of nanoseconds.
use http_add_on.Prelude.{ℕ, ◌-◌, ◌/◌, ◌%◌, Bool, ltb, ◌==◌, if◌then◌else◌}
use Prim.Native.Nat.{min}

abbrev pub second : ℕ
second = 1000000000

abbrev pub millisecond : ℕ
millisecond = 1000000

-- The largest duration, 2 ^ 63 - 1 ns, where `Time.Sub` saturates.
abbrev pub max_duration : ℕ
max_duration = 9223372036854775807

-- The seconds from the zero time to the Unix epoch.
abbrev pub epoch_seconds : ℕ
epoch_seconds = 62135596800

abbrev pub epoch : ℕ
epoch = 62135596800000000000

-- `Time.Truncate`: down to a multiple of `d` since the zero time; a zero `d` changes nothing.
abbrev pub truncate : ℕ → ℕ → ℕ
truncate t d = if d == 0 then t else t - t % d

-- `Time.Sub`, for a time that is not before the other.
abbrev pub sub_time : ℕ → ℕ → ℕ
sub_time t u = min (t - u) max_duration

abbrev pub after : ℕ → ℕ → Bool
after t u = ltb u t

-- `Time.Unix`, for a time at or after the epoch.
abbrev pub unix : ℕ → ℕ
unix t = t / second - epoch_seconds
