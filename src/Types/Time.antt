-- ===== src/Types/Time.antt =====
-- time.Time in UTC: the nanoseconds since the zero Time, January 1 of year 1.
use margin_offer_system.Base.{ℕ, ◌*◌, ◌^◌, Bool}
use margin_offer_system.Base.Int.{ℤ, pos, ltb_ℤ, eqb_ℤ, ◌+ℤ◌, scale}

abbrev pub Time : Type 0
Time = ℤ

abbrev pub before : Time → Time → Bool
before t u = ltb_ℤ t u

abbrev pub after : Time → Time → Bool
after t u = ltb_ℤ u t

abbrev pub zero_time : Time
zero_time = pos 0

abbrev pub is_zero : Time → Bool
is_zero t = eqb_ℤ t zero_time

abbrev pub nanoseconds_per_hour : ℕ
nanoseconds_per_hour = 3600 * 10 ^ 9

-- `t.AddDate(0, 0, days)`: a day of UTC has 24 hours.
unfoldable pub add_days : Time → ℤ → Time
add_days t days = t +ℤ scale (24 * nanoseconds_per_hour) days
