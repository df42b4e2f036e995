-- ===== src/CronJob/Schedule/Deadline.antt =====
-- The starting deadline and the last run in `getNextScheduledTime`
-- (circle/internal/controller/cronjob_controller.go).
use Prim.Native.Nat.{ℕ, ◌*◌, ◌^◌, ◌≤◌, ◌<◌}
use Prim.Native.String.{String}
use mathlib.Core.Path.{◌≡◌}
use mathlib.Core.Logic.{◌≢◌, ◌⊎◌, inl, inr}
use mathlib.Core.Bool.{true}
use mathlib.Core.Option.{none, some}
use native.Mathlib.Omega.{arith}
use bad_pen.Base.{Option-cases}
use bad_pen.Base.Int.{ℤ, pos, ◌≤ℤ◌, ◌+ℤ◌, ◌-ℤ◌, int_laws}
use bad_pen.Base.Result.{Result, ok}
use bad_pen.Time.{
  Instant, zero_time, after, add, minus_seconds, minus_seconds_exact, max_duration, ◌<ℤ◌,
}
use bad_pen.CronJob.{CronJob}
use bad_pen.CronJob.Schedule.{
  Next, next_runs, next_scheduled_time, earliest_time, later_of, last_run,
}
use bad_pen.CronJob.Schedule.Missed.{IsLater, lt-activation}
use bad_pen.CronJob.Schedule.Latest.{next_scheduled_time_latest}

later_of_bounds :
    (deadline last : Instant)
    → (deadline ≤ℤ later_of deadline last) × (last ≤ℤ later_of deadline last)
unfolding later_of
later_of_bounds deadline last = ground arith

earliest_time-later_of :
    (cron_job : CronJob) (now : Instant) (n : ℤ)
    → cron_job.spec.starting_deadline_seconds ≡ some n
    → earliest_time cron_job now ≡ later_of (add now (minus_seconds n)) (last_run cron_job)
unfolding earliest_time
earliest_time-later_of cron_job now n e = rw (e, earliest_time)

last_run_stored :
    (cron_job : CronJob) (t : Instant)
    → cron_job.status.last_schedule_time ≡ some t
    → last_run cron_job ≡ t
unfolding last_run
last_run_stored cron_job t e = rw (e, last_run)

last_run-le :
    (cron_job : CronJob) (now : Instant)
    → (cron_job.spec.starting_deadline_seconds ≡ none)
      ⊎ ((n : ℤ) × (cron_job.spec.starting_deadline_seconds ≡ some n))
    → last_run cron_job ≤ℤ earliest_time cron_job now
last_run-le cron_job now (inl e) = unfold earliest_time in rw (e, earliest_time) (omega arith)
last_run-le cron_job now (inr (n, e)) =
    rw (earliest_time-later_of cron_job now n e)
      (later_of_bounds (add now (minus_seconds n)) (last_run cron_job)).1

-- Runs are looked for from the last run on.
pub last_run-le-earliest_time :
    (cron_job : CronJob) (now t : Instant)
    → cron_job.status.last_schedule_time ≡ some t
    → t ≤ℤ earliest_time cron_job now
last_run-le-earliest_time cron_job now t e =
    rw (last_run_stored cron_job t e) at
      (last_run-le cron_job now (Option-cases cron_job.spec.starting_deadline_seconds))

earliest_time_deadline :
    (cron_job : CronJob) (now : Instant) (n : ℕ)
    → cron_job.spec.starting_deadline_seconds ≡ some (pos n)
    → 1000000000 * n ≤ max_duration
    → now ≤ℤ earliest_time cron_job now +ℤ pos (1000000000 * n)
earliest_time_deadline cron_job now n e h =
    rw (earliest_time-later_of cron_job now (pos n) e, minus_seconds_exact n h)
      (omega
        (int_laws, later_of_bounds (now +ℤ (pos 0 -ℤ pos (1000000000 * n))) (last_run cron_job)))

-- A missed run that `getNextScheduledTime` returns is not older than the starting deadline, if its
-- nanoseconds fit an int64.
pub next_scheduled_time_deadline :
    (parse_standard : String → Result Next) (cron_job : CronJob) (now missed upcoming : Instant)
    (next : Next) (n : ℕ)
    → parse_standard cron_job.spec.schedule ≡ ok next
    → IsLater next
    → cron_job.spec.starting_deadline_seconds ≡ some (pos n)
    → 1000000000 * n ≤ max_duration
    → next_scheduled_time parse_standard cron_job now ≡ some (ok (missed, upcoming))
    → missed ≢ zero_time
    → now <ℤ missed +ℤ pos (1000000000 * n)
next_scheduled_time_deadline parse_standard cron_job now missed upcoming next n parsed later
      deadline fits e run =
    elim (next_scheduled_time_latest parse_standard cron_job now missed upcoming next parsed later
      e).1 [
        | inl (none_missed, _) ↦ absurd (run none_missed)
        | inr (k, _, found, _, _) ↦ rw found (
            omega (
              int_laws,
              lt-activation next now later k (earliest_time cron_job now),
              earliest_time_deadline cron_job now n deadline fits,
            ))
      ]

next_runs_early :
    (next : Next) (earliest now : Instant)
    → after earliest now ≡ true
    → next_runs next earliest now ≡ some (ok (zero_time, next now))
unfolding next_runs
next_runs_early next earliest now early = rw early

minus_seconds_future :
    (n : ℕ) → 2 ^ 63 < 1000000000 * n → 1000000000 * n < 2 ^ 64 → pos 0 <ℤ minus_seconds (pos n)
unfolding minus_seconds
minus_seconds_future n over below = ground arith

later_of_future : (d now last : ℤ) → pos 0 <ℤ d → after (later_of (add now d) last) now ≡ true
unfolding later_of ◌+ℤ◌
later_of_future d now last h = ground arith

-- A deadline whose nanoseconds overflow an int64 once counts as an instant in the future, so that
-- no missed run is ever found and the job never runs.
pub next_scheduled_time_overflow :
    (parse_standard : String → Result Next) (cron_job : CronJob) (now : Instant) (next : Next)
    (n : ℕ)
    → parse_standard cron_job.spec.schedule ≡ ok next
    → cron_job.spec.starting_deadline_seconds ≡ some (pos n)
    → 2 ^ 63 < 1000000000 * n
    → 1000000000 * n < 2 ^ 64
    → next_scheduled_time parse_standard cron_job now ≡ some (ok (zero_time, next now))
unfolding next_scheduled_time
next_scheduled_time_overflow parse_standard cron_job now next n parsed deadline over below =
    rw (parsed, next_scheduled_time)
      (next_runs_early next (earliest_time cron_job now) now (
        rw (earliest_time-later_of cron_job now (pos n) deadline)
          (later_of_future _ now (last_run cron_job) (minus_seconds_future n over below))))
