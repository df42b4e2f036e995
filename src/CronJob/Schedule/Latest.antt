-- ===== src/CronJob/Schedule/Latest.antt =====
-- The contract of `getNextScheduledTime`
-- (circle/internal/controller/cronjob_controller.go), and its starting deadline.
use Prim.Native.Nat.{ℕ, suc, ◌≤◌}
use Prim.Native.String.{String}
use mathlib.Core.Path.{◌≡◌, refl}
use mathlib.Core.Logic.{◌↔◌, ◌⊎◌, inl, inr}
use mathlib.Core.Option.{Option, some}
use native.Mathlib.Omega.{arith}
use bad_pen.Base.{Bool-cases, ltb→lt}
use bad_pen.Base.Int.{◌≤ℤ◌}
use bad_pen.Base.Result.{Error, Result, ok, err}
use bad_pen.Time.{Instant, zero_time, after, ◌<ℤ◌}
use bad_pen.CronJob.{CronJob}
use bad_pen.CronJob.Schedule.{
  Next, with_next, missed_fuel, next_runs, too_many_missed, next_scheduled_time, earliest_time,
}
use bad_pen.CronJob.Schedule.Missed.{
  IsLater, activation, Found, missed_loop_total, missed_loop-Found, missed_loop_gives_up,
  le-activation, missed_loop_must_give_up,
}

-- A loop that ends with a result gives `getNextScheduledTime` a result.
with_next_total :
    (upcoming : Instant) {o : Option (Result Instant)} (r : Result Instant)
    → o ≡ some r
    → (s : Result (Instant × Instant)) × (with_next upcoming o ≡ some s)
unfolding with_next
with_next_total upcoming (ok t) e = (ok (t, upcoming), rw e)
with_next_total upcoming (err x) e = (err x, rw e)

next_runs_total :
    (next : Next) (earliest now : Instant)
    → (r : Result (Instant × Instant)) × (next_runs next earliest now ≡ some r)
unfolding next_runs
next_runs_total next earliest now = elim (Bool-cases (after earliest now)) [
  | inl early ↦ (ok (zero_time, next now), rw early)
  | inr due ↦
      let (r, ends) =
        missed_loop_total next now missed_fuel (next earliest) zero_time 0 (omega arith)
          (omega arith) in
      rw due (with_next_total (next now) r ends)
]

-- `getNextScheduledTime` returns on every input, whatever the schedule: its loop is cut off after
-- a hundred missed runs.
pub next_scheduled_time_total :
    (parse_standard : String → Result Next) (cron_job : CronJob) (now : Instant)
    → (r : Result (Instant × Instant)) × (next_scheduled_time parse_standard cron_job now ≡ some r)
unfolding next_scheduled_time
next_scheduled_time_total parse_standard cron_job now =
    by_parse (parse_standard cron_job.spec.schedule) refl
  where
    by_parse :
        (p : Result Next)
        → parse_standard cron_job.spec.schedule ≡ p
        → (r : Result (Instant × Instant)) × (next_scheduled_time parse_standard cron_job now
            ≡ some r)
    by_parse (ok next) e =
        rw (e, next_scheduled_time) (next_runs_total next (earliest_time cron_job now) now)
    by_parse (err x) e = (err x, rw (e, next_scheduled_time))

-- What the two results say: `upcoming` is the next activation after now, and `missed` is the
-- latest activation after `earliest` that is not later than now, or the zero time if there is
-- none.
abbrev pub IsLatestMissed : Next → Instant → Instant → Instant → Type 0
IsLatestMissed next earliest now missed =
    ((missed ≡ zero_time) × (now <ℤ next earliest))
    ⊎ ((k : ℕ) × (suc k ≤ 100)
        × (missed ≡ activation next (suc k) earliest)
        × (missed ≤ℤ now)
        × (now <ℤ next missed))

with_next_ok :
    (upcoming' missed upcoming : Instant) (o : Option (Result Instant))
    → with_next upcoming' o ≡ some (ok (missed, upcoming))
    → (o ≡ some (ok missed)) × (upcoming ≡ upcoming')
unfolding with_next
with_next_ok upcoming' missed upcoming o e = ground arith

of_Found :
    (next : Next) (earliest now missed : Instant)
    → Found next now (next earliest) zero_time 0 missed
    → IsLatestMissed next earliest now missed
unfolding activation
of_Found next earliest now missed (inl h) = inl h
of_Found next earliest now missed (inr (k, bound, e, le, lt)) = inr (k, omega arith, e, le, lt)

with_next_err :
    (upcoming : Instant) (x : Error) (o : Option (Result Instant))
    → with_next upcoming o ≡ some (err x)
    → o ≡ some (err x)
unfolding with_next
with_next_err upcoming x o e = ground arith

next_runs_latest :
    (next : Next) (earliest now missed upcoming : Instant)
    → IsLater next
    → next_runs next earliest now ≡ some (ok (missed, upcoming))
    → (upcoming ≡ next now) × IsLatestMissed next earliest now missed
unfolding next_runs
next_runs_latest next earliest now missed upcoming later e =
    elim (Bool-cases (after earliest now)) [
      | inl early ↦ (ground arith, inl (ground arith, ground (arith, later earliest)))
      | inr due ↦
          let (ends, same) = with_next_ok (next now) missed upcoming _ (rw due at e) in
          (
            same,
            of_Found next earliest now missed
                (missed_loop-Found next now missed_fuel (next earliest) zero_time missed 0 ends),
          )
    ]

-- With a schedule whose `Next` is a later instant, a successful `getNextScheduledTime` returns the
-- first activation after now, and the latest missed one: an activation after the earliest time,
-- not later than now, with no further activation up to now. With no missed run it returns the zero
-- time, and then no activation lies between the earliest time and now.
pub next_scheduled_time_latest :
    (parse_standard : String → Result Next) (cron_job : CronJob) (now missed upcoming : Instant)
    (next : Next)
    → parse_standard cron_job.spec.schedule ≡ ok next
    → IsLater next
    → next_scheduled_time parse_standard cron_job now ≡ some (ok (missed, upcoming))
    → (upcoming ≡ next now) × IsLatestMissed next (earliest_time cron_job now) now missed
unfolding next_scheduled_time
next_scheduled_time_latest parse_standard cron_job now missed upcoming next parsed later e =
    next_runs_latest next (earliest_time cron_job now) now missed upcoming later
      (rw (parsed, next_scheduled_time) at e)

next_runs-too_many_iff :
    (next : Next) (earliest now : Instant)
    → IsLater next
    → (next_runs next earliest now ≡ some (err too_many_missed))
      ↔ (activation next 101 earliest ≤ℤ now)
unfolding next_runs activation
next_runs-too_many_iff next earliest now later = elim (Bool-cases (after earliest now)) [
  | inl early ↦ (
    λ h. absurd (ground arith),
    λ h. absurd (
        omega (
          arith,
          later earliest,
          le-activation next now later 100 (next earliest),
          ltb→lt _ _ early,
        )),
  )
  | inr due ↦ (
    λ h.
        (missed_loop_gives_up next now missed_fuel (next earliest) zero_time 0 100 too_many_missed
          refl (with_next_err (next now) too_many_missed _ (rw due at h))).1,
    λ h.
        rw
          (
            due,
            missed_loop_must_give_up next now later missed_fuel 100 (next earliest) zero_time 0 refl
                (omega arith) h,
          )
          (unfold with_next in refl),
  )
]

-- With a schedule that can be read and whose `Next` gives a later instant for every instant,
-- `getNextScheduledTime` gives up with "too many missed jobs" exactly if more than a hundred
-- activations lie after the earliest time and not after now.
pub next_scheduled_time-too_many_iff :
    (parse_standard : String → Result Next) (cron_job : CronJob) (now : Instant) (next : Next)
    → parse_standard cron_job.spec.schedule ≡ ok next
    → IsLater next
    → (next_scheduled_time parse_standard cron_job now ≡ some (err too_many_missed))
      ↔ (activation next 101 (earliest_time cron_job now) ≤ℤ now)
unfolding next_scheduled_time
next_scheduled_time-too_many_iff parse_standard cron_job now next parsed later =
    rw (parsed, next_scheduled_time)
      (next_runs-too_many_iff next (earliest_time cron_job now) now later)
