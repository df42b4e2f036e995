-- ===== src/CronJob/Schedule/Missed.antt =====
-- What `getNextScheduledTime` finds: the latest activation that was missed, and when it gives up.
use Prim.Native.Nat.{ℕ, zero, suc, ◌+◌, ◌≤◌, ◌<◌}
use mathlib.Core.Path.{◌≡◌}
use mathlib.Core.Logic.{◌⊎◌, inl, inr}
use mathlib.Core.Option.{some}
use native.Mathlib.Omega.{arith}
use bad_pen.Base.{Bool-cases, ltb}
use bad_pen.Base.Int.{◌≤ℤ◌}
use bad_pen.Base.Result.{Error, Result, ok, err}
use bad_pen.Time.{Instant, after, ◌<ℤ◌}
use bad_pen.CronJob.Schedule.{Next, missed_loop, too_many_missed}

-- The `k`-th activation after `t`.
unfoldable pub activation : Next → ℕ → Instant → Instant
activation next zero t = t
activation next (suc k) t = activation next k (next t)

-- The documented promise of `Next`, for a schedule that can be met: a later instant.
abbrev pub IsLater : Next → Type 0
IsLater next = (t : Instant) → t <ℤ next t

module _ (next : Next) (now : Instant) where
  -- The loop ends within its fuel.
  pub missed_loop_total :
      (fuel : ℕ) (t last : Instant) (n : ℕ)
      → 101 ≤ fuel + n
      → n ≤ 100
      → (r : Result Instant) × (missed_loop next now fuel t last n ≡ some r)
  unfolding missed_loop
  missed_loop_total zero t last n h k = absurd (omega arith)
  missed_loop_total (suc fuel) t last n h k = elim (Bool-cases (after t now)) [
    | inl over ↦ (ok last, rw over)
    | inr due ↦ elim (Bool-cases (ltb 100 (n + 1))) [
      | inl many ↦ (err too_many_missed, rw (due, many))
      | inr few ↦
          rw (due, few) (missed_loop_total fuel (next t) t (n + 1) (omega arith) (ground arith))
    ]
  ]

  -- What the loop has found when it ends at `m`, started at `t` with `last` and `n`.
  abbrev pub Found : Instant → Instant → ℕ → Instant → Type 0
  Found t last n m =
      ((m ≡ last) × (now <ℤ t))
      ⊎ ((k : ℕ) × (n + suc k ≤ 100) × (m ≡ activation next k t) × (m ≤ℤ now) × (now <ℤ next m))

  Found-step :
      (t last m : Instant) (n : ℕ)
      → n + 1 ≤ 100
      → t ≤ℤ now
      → Found (next t) t (n + 1) m
      → Found t last n m
  unfolding activation
  Found-step t last m n few due (inl (e, over)) = inr (0, omega arith, e, rw e due, rw e over)
  Found-step t last m n few due (inr (k, bound, e, le, lt)) = inr (suc k, omega arith, e, le, lt)

  pub missed_loop-Found :
      (fuel : ℕ) (t last m : Instant) (n : ℕ)
      → missed_loop next now fuel t last n ≡ some (ok m)
      → Found t last n m
  unfolding missed_loop
  missed_loop-Found zero t last m n e = cc
  missed_loop-Found (suc fuel) t last m n e = elim (Bool-cases (after t now)) [
    | inl over ↦ inl (ground arith, ground arith)
    | inr due ↦ elim (Bool-cases (ltb 100 (n + 1))) [
      | inl many ↦ absurd (ground arith)
      | inr few ↦
          Found-step t last m n (ground arith) (ground arith)
            (missed_loop-Found fuel (next t) t m (n + 1) (ground arith))
    ]
  ]

  pub missed_loop_gives_up :
      (fuel : ℕ) (t last : Instant) (n d : ℕ) (e : Error)
      → n + d ≡ 100
      → missed_loop next now fuel t last n ≡ some (err e)
      → (e ≡ too_many_missed) × (activation next d t ≤ℤ now)
  unfolding missed_loop activation
  missed_loop_gives_up zero t last n d e p h = absurd (ground arith)
  missed_loop_gives_up (suc fuel) t last n zero e p h = ground arith
  missed_loop_gives_up (suc fuel) t last n (suc d) e p h =
      ground (arith, missed_loop_gives_up fuel (next t) t (n + 1) d e)

  pub le-activation : IsLater next → (k : ℕ) (t : Instant) → t ≤ℤ activation next k t
  unfolding activation
  le-activation later zero t = omega arith
  le-activation later (suc k) t = omega (arith, later t, le-activation later k (next t))

  pub lt-activation : IsLater next → (k : ℕ) (t : Instant) → t <ℤ activation next (suc k) t
  unfolding activation
  lt-activation later k t = omega (arith, later t, le-activation later k (next t))

  pub missed_loop_must_give_up :
      IsLater next
      → (fuel d : ℕ) (t last : Instant) (n : ℕ) → n + d ≡ 100
      → d < fuel
      → activation next d t ≤ℤ now
      → missed_loop next now fuel t last n ≡ some (err too_many_missed)
  unfolding missed_loop activation
  missed_loop_must_give_up later zero d t last n p f h = absurd (omega arith)
  missed_loop_must_give_up later (suc fuel) zero t last n p f h = ground arith
  missed_loop_must_give_up later (suc fuel) (suc d) t last n p f h = ground (
    arith,
    le-activation later (suc d) t,
    missed_loop_must_give_up later fuel d (next t) t (n + 1),
  )
