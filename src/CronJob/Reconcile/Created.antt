-- ===== src/CronJob/Reconcile/Created.antt =====
-- When `Reconcile` creates a pod (circle/internal/controller/cronjob_controller.go).
use Prim.Native.Nat.{ℕ, suc, ◌+◌}
use mathlib.Core.Path.{◌≡◌, refl}
use mathlib.Core.Option.{Option, some, none}
use mathlib.Core.List.{List, [], ◌∷◌}
use native.Mathlib.Omega.{arith}
use bad_pen.Base.{length}
use bad_pen.Base.Int.{ℤ, pos, ◌-ℤ◌}
use bad_pen.Time.{Instant, Duration}
use bad_pen.Kube.{Pod}
use bad_pen.CronJob.{CronJob}
use bad_pen.CronJob.Env.{
  Request, Call, get_cron_job, list_pods, update_status, delete_pod, create_pod, read_clock, Env,
}
use bad_pen.CronJob.Pods.{starts_before}
use bad_pen.CronJob.Reconcile.{
  fetch, observe, delete_old, clean_up, check_suspended, find_runs, check_missed, check_deadline,
  delete_active, check_policy,
}

-- How many pods were created in a history.
abbrev pub creates : List Call → ℕ
creates [] = 0
creates (create_pod pod ∷ h) = suc (creates h)
creates (get_cron_job req ∷ h) = creates h
creates (list_pods namespace name ∷ h) = creates h
creates (update_status cron_job ∷ h) = creates h
creates (delete_pod pod ∷ h) = creates h
creates (read_clock ∷ h) = creates h

module _ (env : Env) where
  pub creates-fetch : (req : Request) (h : List Call) → creates (fetch env req h).1 ≡ creates h
  unfolding fetch
  creates-fetch req h = ground arith

  pub creates-observe :
      (req : Request) (fetched : CronJob) (h : List Call)
      → creates (observe env req fetched h).1 ≡ creates h
  unfolding observe
  creates-observe req fetched h = ground arith

  creates-delete_old :
      (bound : ℤ) (i : ℕ) (pods : List Pod) (h : List Call)
      → creates (delete_old env bound i pods h).1 ≡ creates h
  unfolding delete_old
  creates-delete_old bound i [] h = ground arith
  creates-delete_old bound i (pod ∷ pods) h =
      ground (arith, creates-delete_old bound (i + 1) pods (delete_pod pod ∷ h))

  pub creates-clean_up :
      (limit : Option ℤ) (pods : List Pod) (h : List Call)
      → creates (clean_up env limit pods h).1 ≡ creates h
  unfolding clean_up
  creates-clean_up none pods h = refl
  creates-clean_up (some limit) pods h =
      let sorted = env.sort_slice starts_before pods in
      creates-delete_old (pos (length sorted) -ℤ limit) 0 sorted h

  pub creates-check_suspended :
      (cron_job : CronJob) (h : List Call) → creates (check_suspended env cron_job h).1 ≡ creates h
  unfolding check_suspended
  creates-check_suspended cron_job h = ground arith

  pub creates-find_runs :
      (cron_job : CronJob) (h : List Call) → creates (find_runs env cron_job h).1 ≡ creates h
  unfolding find_runs
  creates-find_runs cron_job h = ground arith

  pub creates-check_missed :
      (missed : Instant) (waiting : Duration) (h : List Call)
      → creates (check_missed env missed waiting h).1 ≡ creates h
  unfolding check_missed
  creates-check_missed missed waiting h = ground arith

  pub creates-check_deadline :
      (cron_job : CronJob) (missed : Instant) (waiting : Duration) (h : List Call)
      → creates (check_deadline env cron_job missed waiting h).1 ≡ creates h
  unfolding check_deadline
  creates-check_deadline cron_job missed waiting h = ground arith

  creates-delete_active :
      (pods : List Pod) (h : List Call) → creates (delete_active env pods h).1 ≡ creates h
  unfolding delete_active
  creates-delete_active [] h = refl
  creates-delete_active (pod ∷ pods) h =
      ground (arith, creates-delete_active pods (delete_pod pod ∷ h))

  pub creates-check_policy :
      (cron_job : CronJob) (active : List Pod) (waiting : Duration) (h : List Call)
      → creates (check_policy env cron_job active waiting h).1 ≡ creates h
  unfolding check_policy
  creates-check_policy cron_job active waiting h = ground (arith, creates-delete_active active h)
