-- ===== src/Base/Clock.antt =====
-- `time.Time` as nanoseconds since the Unix epoch, and `time.Duration` in nanoseconds.
use orbit_depot_prototype.Base.Int.{ℤ, pos, negsuc, ltb_ℤ}
use Prim.Native.Nat.{ℕ, ◌+◌, ◌-◌, ◌*◌, ◌/◌}
use mathlib.Core.Bool.{Bool}
use mathlib.Core.Path.{◌≡◌}
use native.Mathlib.Omega.{arith}

abbrev pub Time : Type 0
Time = ℤ

abbrev pub second : ℕ
second = 1000000000

abbrev pub minute : ℕ
minute = 60 * second

abbrev pub hour : ℕ
hour = 60 * minute

-- `t.Unix()`: whole seconds, rounded down
unfoldable pub unix : Time → ℤ
unix (pos n) = pos (n / second)
unix (negsuc n) = negsuc (n / second)

-- `time.Unix(s, 0)`
unfoldable pub from_unix : ℤ → Time
from_unix (pos n) = pos (n * second)
from_unix (negsuc n) = negsuc ((n + 1) * second - 1)

-- `t.After(u)`
abbrev pub after : Time → Time → Bool
after t u = ltb_ℤ u t

pub unix-from_unix : (s : ℤ) → unix (from_unix s) ≡ s
unfolding unix from_unix
unix-from_unix (pos n) = ground arith
unix-from_unix (negsuc n) = ground arith
