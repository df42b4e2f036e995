-- ===== src/CronJob/Tests/Ends.antt =====
-- The theorems on how a reconciliation ends, and on a schedule's deadline and clean-up.
use Prim.Native.Nat.{ℕ, suc, ◌<◌, ◌*◌}
use mathlib.Core.Path.{◌≡◌, refl}
use mathlib.Core.Logic.{◌↔◌, ◌⊎◌}
use mathlib.Core.Bool.{false}
use mathlib.Core.Option.{some}
use mathlib.Core.List.{List, [], ◌∷◌, ◌++◌}
use native.Mathlib.Omega.{arith}
use bad_pen.Base.{All, length}
use bad_pen.Base.Int.{pos, ◌+ℤ◌, ◌≤ℤ◌}
use bad_pen.Base.Exec.{value, panics}
use bad_pen.Base.Result.{ok, err, failed}
use bad_pen.Time.{◌<ℤ◌, zero_time, minus_seconds}
use bad_pen.Kube.{Pod}
use bad_pen.CronJob.{CronJob, replace_concurrent}
use bad_pen.CronJob.Env.{Call, Env, get_cron_job, list_pods, update_status}
use bad_pen.CronJob.Schedule.{
  next_scheduled_time, next_runs, missed_loop, earliest_time, too_many_missed,
}
use bad_pen.CronJob.Schedule.Missed.{activation}
use bad_pen.CronJob.Schedule.Latest.{next_scheduled_time-too_many_iff}
use bad_pen.CronJob.Schedule.Deadline.{next_scheduled_time_deadline, next_scheduled_time_overflow}
use bad_pen.CronJob.Pods.{starts_before}
use bad_pen.CronJob.Children.{children_of, with_status}
use bad_pen.CronJob.Reconcile.{clean_up, run_missed, reconcile}
use bad_pen.CronJob.Reconcile.CleanUp.{deletions, clean_up_oldest}
use bad_pen.CronJob.Reconcile.Outcomes.{reconcile_panics}
use bad_pen.CronJob.Schedule.Never.{next_scheduled_time_never_met}
use bad_pen.CronJob.Reconcile.Created.{creates}
use bad_pen.CronJob.Reconcile.Permitted.{IsPermitted, run_missed-creates_iff}
use bad_pen.CronJob.Tests.{hourly, hourly-IsLater, ten_oclock, cron_job, pod_in, cluster, req}

abbrev pods : List Pod
pods = pod_in "Failed" ∷ pod_in "Succeeded" ∷ []

abbrev env : Env
env = cluster cron_job pods

abbrev updated : CronJob → CronJob
updated c = with_status (cluster c pods) c (children_of (cluster c pods) c pods)

abbrev seen : CronJob → List Call
seen c = update_status (updated c) ∷ list_pods "default" "backup" ∷ get_cron_job req ∷ []

-- A CronJob that keeps no failed job.
abbrev keeps_none : CronJob
keeps_none = record cron_job {
  spec = record cron_job.spec { failed_jobs_history_limit = some (pos 0) };
}

reconcile_panics_example : reconcile (cluster keeps_none pods) req [] ≡ (
  panics,
  deletions
      (Env.sort_slice
        (cluster keeps_none pods)
        starts_before
        (children_of (cluster keeps_none pods) keeps_none pods).failed)
      (seen keeps_none),
)
unfolding with_status
reconcile_panics_example =
    reconcile_panics (cluster keeps_none pods) req [] keeps_none refl pods refl (updated keeps_none)
      refl (pos 0) refl (omega arith)

clean_up_oldest_example :
    (deleted kept : List Pod) × (env.sort_slice starts_before pods ≡ deleted ++ kept)
    × (clean_up env (some (pos 2)) pods [] ≡ (value tt, deletions deleted []))
    × All (λ p. All (λ q. starts_before q p ≡ false) kept) deleted
    × (length kept < 2)
unfolding starts_before
clean_up_oldest_example = clean_up_oldest env 2 pods [] (omega arith) ((refl, tt), (tt, tt))

abbrev conflicting : Env
conflicting = record env { update_answer = λ h c. err (failed "conflict") }

-- A deadline of two hours, and one of some 400 years.
abbrev with_deadline : ℕ → CronJob
with_deadline n = record cron_job {
  spec = record cron_job.spec { starting_deadline_seconds = some (pos n) };
}

due_in_time :
    next_scheduled_time env.parse_standard (with_deadline 7200) ten_oclock
    ≡ some (ok (ten_oclock, pos 39600000000000))
unfolding next_scheduled_time next_runs missed_loop earliest_time minus_seconds ◌+ℤ◌
due_in_time = refl

next_scheduled_time_deadline_example : ten_oclock <ℤ ten_oclock +ℤ pos (1000000000 * 7200)
next_scheduled_time_deadline_example =
    next_scheduled_time_deadline env.parse_standard (with_deadline 7200) ten_oclock ten_oclock
      (pos 39600000000000) hourly 7200 refl hourly-IsLater refl (omega arith) due_in_time
      (λ e. cc e)

next_scheduled_time_overflow_example :
    next_scheduled_time env.parse_standard (with_deadline 12600000000) ten_oclock
    ≡ some (ok (zero_time, hourly ten_oclock))
next_scheduled_time_overflow_example =
    next_scheduled_time_overflow env.parse_standard (with_deadline 12600000000) ten_oclock hourly
      12600000000 refl refl (omega arith) (omega arith)

next_scheduled_time-too_many_iff_example :
    (next_scheduled_time env.parse_standard cron_job ten_oclock ≡ some (err too_many_missed))
    ↔ (activation hourly 101 (earliest_time cron_job ten_oclock) ≤ℤ ten_oclock)
next_scheduled_time-too_many_iff_example =
    next_scheduled_time-too_many_iff env.parse_standard cron_job ten_oclock hourly refl
      hourly-IsLater

-- A schedule such as that of the 30th of February.
next_scheduled_time_never_met_example :
    next_scheduled_time (λ schedule. ok (λ t. zero_time)) cron_job ten_oclock
    ≡ some (err too_many_missed)
unfolding earliest_time
next_scheduled_time_never_met_example =
    next_scheduled_time_never_met (λ schedule. ok (λ t. zero_time)) cron_job ten_oclock
      (λ t. zero_time) refl (λ t. refl) (omega arith) (omega arith)

-- A CronJob whose active pods are replaced.
abbrev replacing : CronJob
replacing = record cron_job {
  spec = record cron_job.spec { concurrency_policy = replace_concurrent };
}

run_missed-creates_iff_example :
    ((creates (run_missed env replacing pods ten_oclock (hourly ten_oclock) []).1 ≡ suc 0)
      ↔ IsPermitted env replacing pods ten_oclock [])
    × ((creates (run_missed env replacing pods ten_oclock (hourly ten_oclock) []).1 ≡ suc 0)
        ⊎ (creates (run_missed env replacing pods ten_oclock (hourly ten_oclock) []).1 ≡ 0))
run_missed-creates_iff_example =
    run_missed-creates_iff env replacing pods ten_oclock (hourly ten_oclock) []
