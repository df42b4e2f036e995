-- ===== src/CronJob/Tests/Runs.antt =====
-- The theorems on runs, for a CronJob whose last pod ran at eight, when it is ten.
use mathlib.Core.Path.{◌≡◌, refl, sym, ap, ◌∙◌}
use mathlib.Core.Logic.{◌≢◌}
use mathlib.Core.Option.{some}
use mathlib.Core.List.{List, [], ◌∷◌}
use native.Mathlib.Omega.{arith}
use text.Mathlib.Text.{◌==◌}
use bad_pen.Base.{All, lookup, insert, insert_all, keep}
use bad_pen.Base.Int.{pos, ◌+ℤ◌, ◌-ℤ◌}
use bad_pen.Base.Result.{ok, Result}
use bad_pen.Time.{Instant, ◌<ℤ◌, sub}
use bad_pen.Kube.{Pod}
use bad_pen.CronJob.Env.{Env}
use bad_pen.CronJob.Schedule.{next_scheduled_time, next_runs, missed_loop, earliest_time}
use bad_pen.CronJob.Schedule.Latest.{
  next_scheduled_time_latest, IsLatestMissed, next_scheduled_time_total,
}
use bad_pen.CronJob.Pods.{schedule_time_for_pod, new_pod_for_cron_job, pod_from_template}
use bad_pen.CronJob.Children.{children_of, with_status, add_children, add_references}
use bad_pen.CronJob.Reconcile.{
  fetch, observe, clean_up, check_suspended, find_runs, run_missed, check_missed, check_deadline,
  check_policy, start_pod, act, reconcile,
}
use bad_pen.CronJob.Reconcile.Created.{creates}
use bad_pen.CronJob.Reconcile.Justified.{IsJustified, reconcile-IsJustified}
use bad_pen.CronJob.Reconcile.Once.{
  IsJustified_later, KeepsAnnotations, new_pod_for_cron_job-schedule_time,
}
use bad_pen.CronJob.Children.Laws.{
  children_of_phases, children_of-IsLatest, is_active, is_failed, is_succeeded, IsLatest,
}
use bad_pen.CronJob.Tests.{
  owned_by, hourly, hourly-IsLater, ten_oclock, cron_job, pod_in, cluster, req,
}

abbrev env : Env
env = cluster cron_job (pod_in "Succeeded" ∷ [])

created : creates (reconcile env req []).1 ≡ 1
unfolding reconcile fetch observe act clean_up check_suspended find_runs run_missed check_missed
    check_deadline check_policy start_pod next_scheduled_time next_runs missed_loop earliest_time
    children_of add_children with_status add_references schedule_time_for_pod new_pod_for_cron_job
    pod_from_template lookup insert insert_all ◌+ℤ◌ sub ◌-ℤ◌
created = refl

changed : creates (reconcile env req []).1 ≢ creates []
changed e = omega (arith, created, e)

reconcile-IsJustified_example : IsJustified env req [] (reconcile env req []).1
reconcile-IsJustified_example = reconcile-IsJustified env req [] changed

justified : IsJustified env req [] (reconcile env req []).1
justified = reconcile-IsJustified env req [] changed

ok_injective : {A : Type 0} {a b : A} → ok a ≡ ok b → a ≡ b
ok_injective e = cc e

IsJustified_later_example :
    All
      (λ pod. (t : Instant) → schedule_time_for_pod env pod ≡ ok t → t <ℤ justified.run.missed)
      justified.pods
unfolding with_status
IsJustified_later_example =
    IsJustified_later env req [] (reconcile env req []).1 hourly justified
      (sym (ap (λ c. c.status.last_schedule_time) (ok_injective justified.was_stored)))
      (sym (ap (λ c. env.parse_standard c.spec.schedule) (ok_injective justified.was_stored))
        ∙ sym (ap (λ c. env.parse_standard c.spec.schedule) (ok_injective justified.was_fetched)))
      hourly-IsLater

found :
    next_scheduled_time env.parse_standard cron_job ten_oclock
    ≡ some (ok (ten_oclock, pos 39600000000000))
unfolding next_scheduled_time next_runs missed_loop earliest_time ◌+ℤ◌
found = refl

next_scheduled_time_latest_example :
    (pos 39600000000000 ≡ hourly ten_oclock)
    × IsLatestMissed hourly (earliest_time cron_job ten_oclock) ten_oclock ten_oclock
next_scheduled_time_latest_example =
    next_scheduled_time_latest env.parse_standard cron_job ten_oclock ten_oclock
      (pos 39600000000000) hourly refl hourly-IsLater found

next_scheduled_time_total_example :
    (r : Result (Instant × Instant)) × (next_scheduled_time env.parse_standard cron_job ten_oclock
      ≡ some r)
next_scheduled_time_total_example = next_scheduled_time_total env.parse_standard cron_job ten_oclock

new_pod_for_cron_job-schedule_time_example :
    schedule_time_for_pod env (owned_by cron_job.meta (pod_from_template env cron_job ten_oclock))
    ≡ ok ten_oclock
new_pod_for_cron_job-schedule_time_example =
    new_pod_for_cron_job-schedule_time env cron_job ten_oclock
      (owned_by cron_job.meta (pod_from_template env cron_job ten_oclock)) keeps refl
      (λ e. cc (ap (λ s. s == "") e)) (unfold new_pod_for_cron_job in refl)
  where
    keeps : KeepsAnnotations env
    keeps owner pod owned e = sym (ap (λ p. p.meta.annotations) (ok_injective e))

abbrev three_pods : List Pod
three_pods = pod_in "Failed" ∷ pod_in "Running" ∷ pod_in "Succeeded" ∷ []

children_of_phases_example :
    ((children_of env cron_job three_pods).active ≡ keep is_active three_pods)
    × ((children_of env cron_job three_pods).failed ≡ keep is_failed three_pods)
    × ((children_of env cron_job three_pods).successful ≡ keep is_succeeded three_pods)
children_of_phases_example = children_of_phases env cron_job three_pods

children_of-IsLatest_example :
    IsLatest env cron_job.meta.creation_timestamp
      (children_of env cron_job three_pods).last_scheduled
      three_pods
children_of-IsLatest_example = children_of-IsLatest env cron_job three_pods
