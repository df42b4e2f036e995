-- ===== src/Time.antt =====
-- What the program uses of Go's package `time`: instants, durations, and their comparison.
-- An instant is the number of nanoseconds since Go's zero time (January 1 of the year 1, UTC), so
-- that `IsZero` is the test for 0. A duration is an int64 number of nanoseconds: a product of
-- durations wraps, and the difference of two instants is cut off at the ends of the range.
use Prim.Native.Nat.{ℕ, ◌+◌, ◌-◌, ◌*◌, ◌%◌, ◌^◌, ◌≤◌, ◌<◌}
use mathlib.Core.Path.{◌≡◌}
use mathlib.Core.Bool.{Bool, false}
use native.Mathlib.Omega.{arith}
use bad_pen.Base.{ltb, ◌==◌, if◌then◌else◌}
use bad_pen.Base.Int.{ℤ, pos, negsuc, pos_part, neg_part, ◌+ℤ◌, ◌-ℤ◌, ◌*ℤ◌, ltb_ℤ}

abbrev pub Instant : Type 0
Instant = ℤ

abbrev pub Duration : Type 0
Duration = ℤ

abbrev pub zero_time : Instant
zero_time = pos 0

abbrev pub is_zero : Instant → Bool
is_zero (pos n) = n == 0
is_zero (negsuc n) = false

-- `t.After(u)`
abbrev pub after : Instant → Instant → Bool
after t u = ltb_ℤ u t

-- `t.Before(u)`
abbrev pub before : Instant → Instant → Bool
before t u = ltb_ℤ t u

infix 50 ◌<ℤ◌
abbrev pub ◌<ℤ◌ : ℤ → ℤ → Type 0
a <ℤ b = pos_part a + neg_part b < pos_part b + neg_part a

-- The value of an int64 after its arithmetic has wrapped.
unfoldable pub wrap64 : ℤ → ℤ
wrap64 (pos n) = let r = n % 2 ^ 64 in if ltb r (2 ^ 63) then pos r else negsuc (2 ^ 64 - 1 - r)
wrap64 (negsuc n) = let r = n % 2 ^ 64 in if ltb r (2 ^ 63) then negsuc r else pos (2 ^ 64 - 1 - r)

abbrev pub max_duration : ℕ
max_duration = 2 ^ 63 - 1

abbrev pub second : Duration
second = pos 1000000000

-- `time.Second * time.Duration(n)` and `-time.Second * time.Duration(n)`
unfoldable pub seconds : ℤ → Duration
unfolding wrap64 ◌*ℤ◌
seconds n = wrap64 (second *ℤ n)

unfoldable pub minus_seconds : ℤ → Duration
unfolding wrap64 ◌*ℤ◌
minus_seconds n = wrap64 (negsuc 999999999 *ℤ n)

-- `t.Add(d)`
abbrev pub add : Instant → Duration → Instant
add t d = t +ℤ d

-- `t.Sub(u)`
unfoldable pub sub : Instant → Instant → Duration
unfolding ◌-ℤ◌
sub t u =
    let d = t -ℤ u in
    if ltb_ℤ (pos max_duration) d
    then pos max_duration
    else if ltb_ℤ d (negsuc max_duration)
    then negsuc max_duration
    else d

-- A number of seconds below 2 ^ 63 nanoseconds (some 292 years) does not wrap.
pub seconds_exact : (n : ℕ) → 1000000000 * n ≤ max_duration → seconds (pos n) ≡ pos (1000000000 * n)
unfolding seconds
seconds_exact n h = ground arith

pub minus_seconds_exact :
    (n : ℕ) → 1000000000 * n ≤ max_duration → minus_seconds (pos n) ≡ pos 0 -ℤ pos (1000000000 * n)
unfolding minus_seconds ◌-ℤ◌
minus_seconds_exact n h = ground arith
