-- ===== src/Config/Interval.antt =====
-- `Duration`, `Timeout` and `LogLevel` (agent/internal/config/config.go). A time.Duration is an
-- int64 of nanoseconds, so a product wraps around.
use infracheck_appliance.Base.{
  ℕ, ◌-◌, ◌*◌, ◌%◌, ◌^◌, ◌≤◌, ◌<◌, String, ◌≡◌, arith, ltb, if◌then◌else◌, str_eq,
}
use infracheck_appliance.Base.Int.{ℤ, pos, negsuc, pos_part, ltb_ℤ, leb_ℤ, ◌<ℤ◌}
use infracheck_appliance.Config.{IntervalConfig}

abbrev pub second : ℕ
second = 1_000_000_000

-- The int64 with the bit pattern of `n` modulo 2^64.
unfoldable pub int64 : ℕ → ℤ
int64 n = let r = n % 2 ^ 64 in if ltb r (2 ^ 63) then pos r else negsuc (2 ^ 64 - r - 1)

-- `time.Duration(n) * unit` of a positive `n`, and `else` otherwise
abbrev positive_times : ℤ → ℕ → ℤ → ℤ
positive_times n unit other = if ltb_ℤ (pos 0) n then int64 (pos_part n * unit) else other

unfoldable pub duration : IntervalConfig → ℤ
unfolding int64
duration i = positive_times i.interval_seconds second (
    positive_times i.interval_minutes (60 * second)
      (positive_times i.interval_hours (3600 * second) (pos 0)))

unfoldable pub timeout : IntervalConfig → ℤ
unfolding int64
timeout i =
    if leb_ℤ i.timeout_seconds (pos 0)
    then pos (5 * second)
    else int64 (pos_part i.timeout_seconds * second)

pub data Level : Type 0 where
  debug info warn error : Level

unfoldable pub log_level : String → Level
log_level level =
    if str_eq level "debug"
    then Level.debug
    else if str_eq level "warn"
    then Level.warn
    else if str_eq level "error"
    then Level.error
    else Level.info

-- The longest interval whose nanoseconds fit int64, in seconds.
abbrev pub max_seconds : ℕ
max_seconds = 9_223_372_036

-- The first of the three fields that is positive, in seconds, and else 0.
abbrev pub seconds_of : IntervalConfig → ℕ
seconds_of i =
    if ltb_ℤ (pos 0) i.interval_seconds
    then pos_part i.interval_seconds
    else if ltb_ℤ (pos 0) i.interval_minutes
    then pos_part i.interval_minutes * 60
    else if ltb_ℤ (pos 0) i.interval_hours
    then pos_part i.interval_hours * 3600
    else 0

-- An interval of at most `max_seconds` has exactly its seconds as its duration, so it is positive
-- exactly if one of its fields is.
pub duration_exact :
    (i : IntervalConfig) → seconds_of i ≤ max_seconds → duration i ≡ pos (seconds_of i * second)
unfolding duration
duration_exact i h = ground arith

-- One second more wraps around: the duration is negative.
pub duration_overflow :
    (i : IntervalConfig)
    → max_seconds < seconds_of i
    → seconds_of i ≤ 2 * max_seconds
    → duration i <ℤ pos 0
unfolding duration
duration_overflow i lo hi = ground arith
