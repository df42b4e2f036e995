-- ===== src/CronJob/Schedule.antt =====
-- When a CronJob runs: `getNextScheduledTime` of circle/internal/controller/cronjob_controller.go.
-- The cron parser is github.com/robfig/cron: a parameter, whose result is a schedule's `Next`.
pub mod Missed
pub mod Latest
pub mod Deadline
pub mod Never
use Prim.Native.Nat.{ℕ, zero, suc, ◌+◌}
use Prim.Native.String.{String}
use mathlib.Core.Option.{Option, none, some}
use bad_pen.Base.{ltb, if◌then◌else◌}
use bad_pen.Base.Int.{ℤ, ltb_ℤ}
use bad_pen.Base.Result.{Error, failed, Result, ok, err}
use bad_pen.Time.{Instant, zero_time, after, add, minus_seconds}
use bad_pen.CronJob.{CronJob}

-- A schedule's `Next`.
abbrev pub Next : Type 0
Next = Instant → Instant

abbrev pub too_many_missed : Error
too_many_missed = failed "too many missed jobs"

-- The time from which runs are looked for.
last_run : CronJob → Instant
last_run cron_job = elim cron_job.status.last_schedule_time [
  | some t ↦ t
  | none ↦ cron_job.meta.creation_timestamp
]

later_of : Instant → Instant → Instant
later_of deadline last = if after deadline last then deadline else last

unfoldable pub earliest_time : CronJob → Instant → Instant
unfolding last_run later_of
earliest_time cron_job now = elim cron_job.spec.starting_deadline_seconds [
  | none ↦ last_run cron_job
  | some n ↦ later_of (add now (minus_seconds n)) (last_run cron_job)
]

-- The `for` loop, with its variables `t`, `lastMissed` and `missingJobs`, on fuel.
unfoldable pub missed_loop : Next → Instant → ℕ → Instant → Instant → ℕ → Option (Result Instant)
missed_loop next now zero t last_missed missing_jobs = none
missed_loop next now (suc fuel) t last_missed missing_jobs =
    let rest = missed_loop next now fuel (next t) t (missing_jobs + 1) in
    if after t now
    then some (ok last_missed)
    else if ltb 100 (missing_jobs + 1)
    then some (err too_many_missed)
    else rest

-- One round for each counted run, and one more in which the loop ends.
abbrev pub missed_fuel : ℕ
missed_fuel = 101

with_next : Instant → Option (Result Instant) → Option (Result (Instant × Instant))
with_next next_run none = none
with_next next_run (some (ok last_missed)) = some (ok (last_missed, next_run))
with_next next_run (some (err e)) = some (err e)

unfoldable pub next_runs : Next → Instant → Instant → Option (Result (Instant × Instant))
unfolding with_next
next_runs next earliest now =
    if after earliest now
    then some (ok (zero_time, next now))
    else with_next (next now) (missed_loop next now missed_fuel (next earliest) zero_time 0)

-- `none` would mean that the fuel ran out.
unfoldable pub next_scheduled_time :
    (String → Result Next) → CronJob → Instant → Option (Result (Instant × Instant))
unfolding earliest_time next_runs
next_scheduled_time parse_standard cron_job now = elim (parse_standard cron_job.spec.schedule) [
  | err e ↦ some (err e)
  | ok next ↦ next_runs next (earliest_time cron_job now) now
]
