-- ===== src/CronJob/Reconcile/Once.antt =====
-- No run is started twice (circle/internal/controller/cronjob_controller.go): the annotation of a
-- new pod is read back as its scheduled time, and later runs come after it.
use Prim.Native.String.{String}
use mathlib.Core.Path.{◌≡◌, ◌∙◌}
use mathlib.Core.Logic.{◌≢◌, inl, inr}
use mathlib.Core.Bool.{false}
use mathlib.Core.Option.{some}
use mathlib.Core.List.{List, []}
use native.Mathlib.Omega.{arith}
use text.Mathlib.TextEquality.{eq_iff}
use bad_pen.Base.{All, All-imp, lookup, lookup-insert, insert_all}
use bad_pen.Base.Int.{◌≤ℤ◌}
use bad_pen.Base.Result.{ok}
use bad_pen.Time.{Instant, ◌<ℤ◌, is_zero, zero_time}
use bad_pen.Kube.{Pod}
use bad_pen.CronJob.{CronJob}
use bad_pen.CronJob.Env.{Request, Call, Env}
use bad_pen.CronJob.Schedule.{Next, earliest_time, next_scheduled_time}
use bad_pen.CronJob.Schedule.Missed.{IsLater, lt-activation}
use bad_pen.CronJob.Schedule.Latest.{next_scheduled_time_latest}
use bad_pen.CronJob.Schedule.Deadline.{last_run-le-earliest_time}
use bad_pen.CronJob.Pods.{
  scheduled_time_annotation, schedule_time_for_pod, pod_from_template, new_pod_for_cron_job,
}
use bad_pen.CronJob.Children.{children_of}
use bad_pen.CronJob.Children.Laws.{children_of-IsLatest}
use bad_pen.CronJob.Reconcile.Justified.{IsJustified, cleaned, observed}

-- `ctrl.SetControllerReference` changes the owner references of the pod only.
abbrev pub KeepsAnnotations : Env → Type 0
KeepsAnnotations env =
    (cron_job : CronJob) (pod owned : Pod)
    → env.set_controller_reference cron_job pod ≡ ok owned
    → owned.meta.annotations ≡ pod.meta.annotations

module _ (env : Env) where
  schedule_time_of_annotation :
      (pod : Pod) (s : String)
      → lookup scheduled_time_annotation pod.meta.annotations ≡ some s
      → s ≢ ""
      → schedule_time_for_pod env pod ≡ env.parse_rfc3339 s
  unfolding schedule_time_for_pod
  schedule_time_of_annotation pod s e nonempty = ground (arith, eq_iff s "")

  template_annotation :
      (cron_job : CronJob) (t : Instant)
      → lookup scheduled_time_annotation (pod_from_template env cron_job t).meta.annotations
        ≡ some (env.format_rfc3339 t)
  unfolding pod_from_template
  template_annotation cron_job t =
      lookup-insert scheduled_time_annotation scheduled_time_annotation (env.format_rfc3339 t)
        (insert_all cron_job.spec.job_template.annotations [])

  -- The scheduled time of a pod that was made for a run is the time of the run, also if the
  -- template has an annotation of that name, where formatting a time and parsing the text gives
  -- the time back.
  pub new_pod_for_cron_job-schedule_time :
      (cron_job : CronJob) (t : Instant) (pod : Pod)
      → KeepsAnnotations env
      → env.parse_rfc3339 (env.format_rfc3339 t) ≡ ok t
      → env.format_rfc3339 t ≢ ""
      → new_pod_for_cron_job env cron_job t ≡ ok pod
      → schedule_time_for_pod env pod ≡ ok t
  unfolding new_pod_for_cron_job
  new_pod_for_cron_job-schedule_time cron_job t pod keeps parsed nonempty made =
      schedule_time_of_annotation pod (env.format_rfc3339 t)
        (rw (keeps cron_job (pod_from_template env cron_job t) pod made)
          (template_annotation cron_job t))
        nonempty
      ∙ parsed

  bounded : (t last missed : Instant) → t ≤ℤ last → last <ℤ missed → t <ℤ missed
  bounded t last missed p q = omega arith

  is_zero-zero : {t : Instant} → is_zero t ≡ false → t ≢ zero_time
  is_zero-zero h e = cc (rw e at h)

  -- A missed run comes after the last run.
  after_last :
      (stored : CronJob) (now : Instant) (next : Next) (missed upcoming : Instant) {last : Instant}
      → env.parse_standard stored.spec.schedule ≡ ok next
      → IsLater next
      → stored.status.last_schedule_time ≡ some last
      → next_scheduled_time env.parse_standard stored now ≡ some (ok (missed, upcoming))
      → is_zero missed ≡ false
      → last <ℤ missed
  after_last stored now next missed upcoming {last} parsed later saved due run =
      elim (next_scheduled_time_latest env.parse_standard stored now missed upcoming next parsed
        later due).1 [
          | inl (none_missed, _) ↦ absurd (is_zero-zero run none_missed)
          | inr (k, _, found, _, _) ↦ rw found (
              omega (
                arith,
                lt-activation next now later k (earliest_time stored now),
                last_run-le-earliest_time stored now last saved,
              ))
        ]

  -- If the server stores the last schedule time that it is sent, then a run for which a pod is
  -- created is later than the scheduled time of every pod of the CronJob that was listed.
  pub IsJustified_later :
      (req : Request) (h after : List Call) (next : Next)
      → (j : IsJustified env req h after)
      → j.stored.status.last_schedule_time ≡ some (children_of env j.fetched j.pods).last_scheduled
      → env.parse_standard j.stored.spec.schedule ≡ ok next
      → IsLater next
      → All (λ pod. (t : Instant) → schedule_time_for_pod env pod ≡ ok t → t <ℤ j.run.missed) j.pods
  IsJustified_later req h after next j saved parsed later =
      let now = env.now (
        cleaned env j.stored (children_of env j.fetched j.pods)
          (observed env req j.fetched j.pods h)) in
      let latest = children_of-IsLatest env j.fetched j.pods in
      All-imp
        (λ pod bound t e.
          bounded t (children_of env j.fetched j.pods).last_scheduled j.run.missed (bound t e) (
            after_last j.stored now next j.run.missed j.run.upcoming parsed later saved j.run.due
              j.run.is_run))
        j.pods latest.bounds
