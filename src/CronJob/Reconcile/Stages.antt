-- ===== src/CronJob/Reconcile/Stages.antt =====
-- What a stage of `Reconcile` has checked and called when the stage after it is reached
-- (circle/internal/controller/cronjob_controller.go).
use mathlib.Core.Path.{◌≡◌, refl}
use mathlib.Core.Logic.{◌≢◌, inl, inr}
use mathlib.Core.Bool.{true, false}
use mathlib.Core.Option.{some}
use mathlib.Core.List.{List, [], ◌∷◌, Memᴰ}
use native.Mathlib.Omega.{arith}
use text.Mathlib.Text.{◌==◌}
use Prim.Native.String.{String}
use bad_pen.Base.{All}
use bad_pen.Base.Int.{ℤ}
use bad_pen.Base.Exec.{value}
use bad_pen.Base.Result.{ok, Result-cases}
use bad_pen.Time.{Instant, Duration, is_zero, before, add, seconds}
use bad_pen.Kube.{Pod}
use bad_pen.CronJob.{CronJob, forbid_concurrent, replace_concurrent}
use bad_pen.CronJob.Env.{
  Request, Call, get_cron_job, list_pods, update_status, delete_pod, create_pod, read_clock, Env,
}
use bad_pen.CronJob.Schedule.{next_scheduled_time}
use bad_pen.CronJob.Pods.{new_pod_for_cron_job}
use bad_pen.CronJob.Children.{Children, children_of, with_status}
use bad_pen.CronJob.Reconcile.{
  fetch, observe, is_suspended, check_suspended, find_runs, check_missed, check_deadline,
  delete_active, check_policy, start_pod,
}
use bad_pen.CronJob.Reconcile.CleanUp.{deletions}
use bad_pen.CronJob.Reconcile.Created.{creates}

module _ (env : Env) where
  pub fetch_value :
      (req : Request) (h : List Call) {fetched : CronJob}
      → (fetch env req h).0 ≡ value fetched
      → (env.get_answer h req ≡ ok fetched) × ((fetch env req h).1 ≡ get_cron_job req ∷ h)
  unfolding fetch
  fetch_value req h e = ground arith

  pub observe_value :
      (req : Request) (fetched : CronJob) (h : List Call) {stored : CronJob} {c : Children}
      → (observe env req fetched h).0 ≡ value (stored, c)
      → (pods : List Pod) × (env.list_answer h req.namespace req.name ≡ ok pods)
        × (c ≡ children_of env fetched pods)
        × (env.update_answer
              (list_pods req.namespace req.name ∷ h)
              (with_status env fetched (children_of env fetched pods))
            ≡ ok stored)
        × ((observe env req fetched h).1
            ≡ update_status (with_status env fetched (children_of env fetched pods))
              ∷ list_pods req.namespace req.name
              ∷ h)
  unfolding observe
  observe_value req fetched h e = elim (Result-cases (env.list_answer h req.namespace req.name)) [
    | inl (pods, listed) ↦ (pods, listed, ground arith, ground arith, ground arith)
    | inr (x, failed) ↦ absurd (ground arith)
  ]

  pub check_suspended_value :
      (cron_job : CronJob) (h : List Call)
      → (check_suspended env cron_job h).0 ≡ value tt
      → (is_suspended cron_job.spec.suspend ≡ false) × ((check_suspended env cron_job h).1 ≡ h)
  unfolding check_suspended
  check_suspended_value cron_job h e = ground arith

  pub find_runs_value :
      (cron_job : CronJob) (h : List Call) {missed upcoming : Instant}
      → (find_runs env cron_job h).0 ≡ value (missed, upcoming)
      → (next_scheduled_time env.parse_standard cron_job (env.now h) ≡ some (ok (missed, upcoming)))
        × ((find_runs env cron_job h).1 ≡ read_clock ∷ h)
  unfolding find_runs
  find_runs_value cron_job h e = ground arith

  pub check_missed_value :
      (missed : Instant) (waiting : Duration) (h : List Call)
      → (check_missed env missed waiting h).0 ≡ value tt
      → (is_zero missed ≡ false) × ((check_missed env missed waiting h).1 ≡ h)
  unfolding check_missed
  check_missed_value missed waiting h e = ground arith

  pub check_deadline_value :
      (cron_job : CronJob) (missed : Instant) (waiting : Duration) (h : List Call)
      → (check_deadline env cron_job missed waiting h).0 ≡ value tt
      → (n : ℤ) → cron_job.spec.starting_deadline_seconds ≡ some n
      → before (add missed (seconds n)) (env.now h) ≡ false
  unfolding check_deadline
  check_deadline_value cron_job missed waiting h e n d = ground arith

  pub delete_active_value :
      (pods : List Pod) (h : List Call)
      → (delete_active env pods h).0 ≡ value tt
      → (delete_active env pods h).1 ≡ deletions pods h
  unfolding delete_active
  delete_active_value [] h e = refl
  delete_active_value (pod ∷ pods) h e =
      ground (arith, delete_active_value pods (delete_pod pod ∷ h))

  pub replace_tests :
      (policy : String)
      → policy ≡ replace_concurrent
      → ((policy == forbid_concurrent) ≡ false) × ((policy == replace_concurrent) ≡ true)
  replace_tests policy e = rw e (refl, refl)

  pub forbid_test :
      (policy : String) → policy ≡ forbid_concurrent → (policy == forbid_concurrent) ≡ true
  forbid_test policy e = rw e

  pub check_policy_value :
      (cron_job : CronJob) (active : List Pod) (waiting : Duration) (h : List Call)
      → (check_policy env cron_job active waiting h).0 ≡ value tt
      → (cron_job.spec.concurrency_policy ≡ forbid_concurrent → active ≡ [])
        × (cron_job.spec.concurrency_policy ≡ replace_concurrent
            → (check_policy env cron_job active waiting h).1 ≡ deletions active h)
  unfolding check_policy
  check_policy_value cron_job [] waiting h e = (
    λ f. refl,
    λ r. ground (arith, replace_tests cron_job.spec.concurrency_policy r, delete_active_value [] h),
  )
  check_policy_value cron_job (pod ∷ pods) waiting h e = (
    λ f. absurd (ground (arith, forbid_test cron_job.spec.concurrency_policy f)),
    λ r. ground (
      arith,
      replace_tests cron_job.spec.concurrency_policy r,
      delete_active_value (pod ∷ pods) h,
    ),
  )

  pub start_pod_created :
      (cron_job : CronJob) (missed : Instant) (waiting : Duration) (h : List Call)
      → creates (start_pod env cron_job missed waiting h).1 ≢ creates h
      → (pod : Pod) × (new_pod_for_cron_job env cron_job missed ≡ ok pod)
        × ((start_pod env cron_job missed waiting h).1 ≡ create_pod pod ∷ h)
  unfolding start_pod
  start_pod_created cron_job missed waiting h changed =
      elim (Result-cases (new_pod_for_cron_job env cron_job missed)) [
        | inl (pod, made) ↦ (pod, made, ground arith)
        | inr (x, failed) ↦ absurd (ground arith)
      ]

  pub mem-deletions :
      (pods : List Pod) (h : List Call) {c : Call} → Memᴰ c h → Memᴰ c (deletions pods h)
  mem-deletions [] h m = m
  mem-deletions (pod ∷ pods) h m = mem-deletions pods (delete_pod pod ∷ h) (Memᴰ.tail m)

  pub deleted-All :
      (pods : List Pod) (h : List Call) → All (λ p. Memᴰ (delete_pod p) (deletions pods h)) pods
  deleted-All [] h = tt
  deleted-All (pod ∷ pods) h = (
    mem-deletions pods (delete_pod pod ∷ h) (Memᴰ.head refl),
    deleted-All pods (delete_pod pod ∷ h),
  )
