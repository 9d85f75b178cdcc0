-- ===== src/Time.antt =====
-- What the program uses of Go's `time`: instants, durations and their arithmetic.
-- An instant is its number of nanoseconds since 1970 (any integer: `time.Time` reaches far beyond
-- the 64-bit range), without the monotonic reading; a duration is an `int64` of nanoseconds.
use rateforge.Base.{◌&&◌, Bool, if◌then◌else◌}
use rateforge.Base.Int.{ℤ, pos, negsuc, ◌+ℤ◌, ◌-ℤ◌, ltb_ℤ, leb_ℤ, wrap64, max_int64, min_int64}

abbrev pub Time : Type 0
Time = ℤ

abbrev pub Duration : Type 0
Duration = ℤ

-- The zero `time.Time`, the first of January of year 1.
abbrev pub zero_time : Time
zero_time = negsuc 62_135_596_799_999_999_999

abbrev pub millisecond : Duration
millisecond = pos 1_000_000

abbrev pub second : Duration
second = pos 1_000_000_000

abbrev pub hour : Duration
hour = pos 3_600_000_000_000

-- `t.UnixNano()`
abbrev pub unix_nano : Time → ℤ
unix_nano t = wrap64 t

-- `time.Unix(0, n)`
abbrev pub from_nano : ℤ → Time
from_nano n = n

-- `t.Add(d)`
abbrev pub add_time : Time → Duration → Time
add_time t d = t +ℤ d

-- `t.Sub(u)`, which saturates.
unfoldable pub sub_time : Time → Time → Duration
sub_time t u =
    let d = t -ℤ u in
    if ltb_ℤ max_int64 d then max_int64 else if ltb_ℤ d min_int64 then min_int64 else d

-- `t.Before(u)` and `t.After(u)`
abbrev pub before : Time → Time → Bool
before t u = ltb_ℤ t u

abbrev pub after : Time → Time → Bool
after t u = ltb_ℤ u t

-- `t.IsZero()`
abbrev pub is_zero : Time → Bool
is_zero t = leb_ℤ t zero_time && leb_ℤ zero_time t
