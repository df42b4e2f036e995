-- ===== src/CronJob/Schedule/Never.antt =====
-- What `getNextScheduledTime` makes of a schedule that is never met
-- (circle/internal/controller/cronjob_controller.go).
use Prim.Native.Nat.{ℕ, zero, suc, ◌+◌, ◌≤◌, ◌<◌}
use Prim.Native.String.{String}
use mathlib.Core.Path.{◌≡◌, refl}
use mathlib.Core.Logic.{inl, inr}
use mathlib.Core.Option.{some}
use native.Mathlib.Omega.{arith}
use bad_pen.Base.{Bool-cases}
use bad_pen.Base.Int.{◌≤ℤ◌}
use bad_pen.Base.Result.{Result, ok, err}
use bad_pen.Time.{Instant, zero_time, after}
use bad_pen.CronJob.{CronJob}
use bad_pen.CronJob.Schedule.{
  Next, with_next, missed_fuel, missed_loop, next_runs, too_many_missed, next_scheduled_time,
  earliest_time,
}

-- If no activation lies after now, the loop counts until it gives up.
missed_loop_never_ends :
    (next : Next) (now : Instant) (fuel jobs : ℕ) (t last : Instant)
    → ((s : Instant) → next s ≤ℤ now)
    → t ≤ℤ now
    → jobs ≤ 100
    → 100 < jobs + fuel
    → missed_loop next now fuel t last jobs ≡ some (err too_many_missed)
unfolding missed_loop
missed_loop_never_ends next now zero jobs t last past due few enough = absurd (omega arith)
missed_loop_never_ends next now (suc fuel) jobs t last past due few enough =
    ground (arith, past t, missed_loop_never_ends next now fuel (jobs + 1) (next t) t past)

next_runs_never :
    (next : Next) (earliest now : Instant)
    → ((s : Instant) → next s ≤ℤ now)
    → earliest ≤ℤ now
    → next_runs next earliest now ≡ some (err too_many_missed)
unfolding next_runs
next_runs_never next earliest now past due = elim (Bool-cases (after earliest now)) [
  | inl early ↦ absurd (ground arith)
  | inr begun ↦
      rw
        (
          begun,
          missed_loop_never_ends next now missed_fuel 0 (next earliest) zero_time past
              (past earliest) (omega arith) (omega arith),
        )
        (unfold with_next in refl)
]

-- With a schedule that can be read but is never met, so that `Next` gives the zero time, as cron
-- documents it, `getNextScheduledTime` does not answer that there is no run: if now is neither
-- before the earliest time nor before the zero time, it gives up with "too many missed jobs",
-- although no run was missed.
pub next_scheduled_time_never_met :
    (parse_standard : String → Result Next) (cron_job : CronJob) (now : Instant) (next : Next)
    → parse_standard cron_job.spec.schedule ≡ ok next
    → ((t : Instant) → next t ≡ zero_time)
    → zero_time ≤ℤ now
    → earliest_time cron_job now ≤ℤ now
    → next_scheduled_time parse_standard cron_job now ≡ some (err too_many_missed)
unfolding next_scheduled_time
next_scheduled_time_never_met parse_standard cron_job now next parsed never after_zero begun =
    rw (parsed, next_scheduled_time)
      (next_runs_never next (earliest_time cron_job now) now (λ t. rw (never t) after_zero) begun)
