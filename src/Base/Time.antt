-- ===== src/Base/Time.antt =====
-- Go's package time, in nanoseconds. The zero Time is `none`, and any other is a number of
-- nanoseconds since 1970; a Duration that the program makes is not negative.
use Prim.Native.Nat.{ℕ, ◌*◌, ◌-◌}
use mathlib.Core.Option.{Option, none, some}

abbrev pub Time : Type 0
Time = Option ℕ

abbrev pub second : ℕ
second = 1_000_000_000

abbrev pub minute : ℕ
minute = 60 * second

abbrev pub max_duration : ℕ
max_duration = 9_223_372_036_854_775_807

-- `time.Since(t)` at `now`: the largest Duration for the zero Time. A negative difference counts as 0:
-- every use compares it with a positive bound.
abbrev pub since : ℕ → Time → ℕ
since now none = max_duration
since now (some t) = now - t
