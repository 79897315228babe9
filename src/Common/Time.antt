-- ===== src/Common/Time.antt =====
-- Go's time.Time: an instant, in nanoseconds since the zero time, January 1 of year 1 in UTC.
-- `UTC()` changes the location of an instant and not the instant, so it is the identity here.
use gaming_go_backend.Common.{ℕ, ◌/◌, ◌*◌, Bool, ◌==◌}

abbrev pub Time : Type 0
Time = ℕ

abbrev pub is_zero : Time → Bool
is_zero t = t == 0

-- What a TIMESTAMPTZ column keeps of an instant: the whole microsecond, as pgx encodes it.
abbrev pub stored_time : Time → Time
stored_time t = t / 1_000 * 1_000

-- What the RFC 3339 text of an instant keeps of it: the whole second.
abbrev pub whole_second : Time → Time
whole_second t = t / 1_000_000_000 * 1_000_000_000
