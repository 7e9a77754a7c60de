-- ===== src/Base/Clock.antt =====
-- Instants and durations. An instant is the number of nanoseconds since Go's zero `time.Time`
-- (the start of year 1), so 0 is the zero time. A duration is an `int64` of nanoseconds, an integer
-- here: at least -2^63, which is less than 293 years, so no instant that a running process computes
-- from its clock lies before the zero time, where `add` stops.
use Prim.Native.Nat.{ℕ, suc, ◌+◌, ◌-◌, ◌<◌, ◌%◌}
use mathlib.Core.Logic.{◌≢◌}
use mathlib.Core.Bool.{Bool, true, false}
use native.Mathlib.Omega.{arith}
use entroq.Base.Int.{ℤ, pos, negsuc}
use entroq.Base.Tests.{ltb, leb, if◌then◌else◌}

abbrev pub Time : Type 0
Time = ℕ

abbrev pub Duration : Type 0
Duration = ℤ

-- `t.Add(d)`
abbrev pub add : Time → Duration → Time
add t (pos n) = t + n
add t (negsuc n) = t - suc n

-- `t.After(u)` and `t.Before(u)`
abbrev pub after : Time → Time → Bool
after t u = ltb u t

abbrev pub before : Time → Time → Bool
before t u = ltb t u

-- `t.IsZero()`
abbrev pub is_zero : Time → Bool
is_zero t = elim t [ ℕ.zero ↦ true | ℕ.suc _ ↦ false ]

-- `d > 0`
abbrev pub is_positive : Duration → Bool
is_positive (pos n) = ltb 0 n
is_positive (negsuc n) = false

-- `d == 0`
abbrev pub is_zero_duration : Duration → Bool
is_zero_duration (pos n) = is_zero n
is_zero_duration (negsuc n) = false

-- An `int32` is its bit pattern, a number below 2^32; `v++` wraps around.
abbrev pub int32_mod : ℕ
int32_mod = 4_294_967_296

unfoldable pub inc32 : ℕ → ℕ
inc32 v = (v + 1) % int32_mod

abbrev pub IsInt32 : ℕ → Type 0
IsInt32 v = v < int32_mod

-- `v > 0` for a signed `v`
abbrev pub is_positive32 : ℕ → Bool
is_positive32 v = if ltb 0 v then ltb v 2_147_483_648 else false

pub inc32_moves : (v : ℕ) → IsInt32 v → inc32 v ≢ v
unfolding inc32
inc32_moves v h = ground arith

pub inc32-IsInt32 : (v : ℕ) → IsInt32 (inc32 v)
unfolding inc32
inc32-IsInt32 v = omega arith

-- The signed order of two bit patterns, by the offset that makes it the unsigned one.
abbrev pub le32 : ℕ → ℕ → Bool
le32 a b = leb ((a + 2_147_483_648) % int32_mod) ((b + 2_147_483_648) % int32_mod)
