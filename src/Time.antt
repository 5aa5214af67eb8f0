-- ===== src/Time.antt =====
-- Instants of package time: nanoseconds from Go's zero time. A Duration is an int64 of nanoseconds.
use sshm.Prelude.{ℕ, ◌*◌, ◌^◌, ◌-◌, ℤ, pos, negsuc, ltb_ℤ, Bool, false, if◌then◌else◌, leb}
unfoldable use sshm.Prelude.{◌+ℤ◌, ◌-ℤ◌}

abbrev pub Time : Type 0
Time = ℤ

abbrev pub Duration : Type 0
Duration = ℤ

-- time.Time{}
abbrev pub zero_time : Time
zero_time = pos 0

-- t.IsZero()
abbrev pub is_zero : Time → Bool
is_zero (pos n) = leb n 0
is_zero (negsuc n) = false

-- t.After(u), t.Before(u)
abbrev pub after : Time → Time → Bool
after t u = ltb_ℤ u t

abbrev pub before : Time → Time → Bool
before t u = ltb_ℤ t u

-- time.Hour
abbrev pub hour : ℕ
hour = 3_600_000_000_000

abbrev pub day : ℕ
day = 24 * hour

-- t.Add(d)
unfoldable pub add : Time → Duration → Time
unfolding ◌+ℤ◌
add t d = t +ℤ d

-- t.Sub(u): the difference, held to the range of an int64.
abbrev pub saturate : ℤ → Duration
saturate (pos n) = if leb (2 ^ 63) n then pos (2 ^ 63 - 1) else pos n
saturate (negsuc n) = if leb (2 ^ 63) n then negsuc (2 ^ 63 - 1) else negsuc n

unfoldable pub sub : Time → Time → Duration
unfolding ◌-ℤ◌
sub t u = saturate (t -ℤ u)
