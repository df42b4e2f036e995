-- ===== src/CronJob/Reconcile.antt =====
-- `Reconcile` of circle/internal/controller/cronjob_controller.go, stage by stage. Logging is left
-- out. A panic of the code is the outcome `panics`.
pub mod CleanUp
pub mod Created
pub mod Stages
pub mod Justified
pub mod Permitted
pub mod Once
pub mod Outcomes
use Prim.Native.Nat.{ℕ, ◌+◌}
use mathlib.Core.Bool.{Bool, true, false, ◌&&◌}
use mathlib.Core.Option.{Option, none, some}
use mathlib.Core.List.{List, [], ◌∷◌}
use text.Mathlib.Text.{◌==◌}
use bad_pen.Base.{length, if◌then◌else◌}
use bad_pen.Base.Int.{ℤ, pos, ◌-ℤ◌, ltb_ℤ}
use bad_pen.Base.Exec.{pure, exit, panic, call, ◌>>=◌, ◌>>◌}
use bad_pen.Base.Result.{Error, ignore_not_found, Result, ok, err}
use bad_pen.Time.{Instant, Duration, is_zero, before, add, sub, seconds}
use bad_pen.Kube.{Pod}
use bad_pen.CronJob.{CronJob, forbid_concurrent, replace_concurrent}
use bad_pen.CronJob.Env.{
  Request, get_cron_job, list_pods, update_status, delete_pod, create_pod, read_clock, Reply, Env,
  Run,
}
use bad_pen.CronJob.Schedule.{next_scheduled_time}
use bad_pen.CronJob.Pods.{new_pod_for_cron_job, starts_before}
use bad_pen.CronJob.Children.{Children, children_of, with_status}

-- `return ctrl.Result{}, err`, and `return waitingNextScheduleResult, nil`
abbrev pub no_requeue : Option Error → Reply
no_requeue e = record { requeue_after = pos 0; error = e }

abbrev pub requeue : Duration → Reply
requeue d = record { requeue_after = d; error = none }

-- `cronJob.Spec.Suspend != nil && *cronJob.Spec.Suspend`
abbrev pub is_suspended : Option Bool → Bool
is_suspended none = false
is_suspended (some b) = b

-- `len(activePods) > 0`
abbrev pub is_nonempty : List Pod → Bool
is_nonempty [] = false
is_nonempty (pod ∷ pods) = true

module _ (env : Env) where
  or_return : {A : Type 0} → (Error → Option Error) → Result A → Run A
  or_return f (ok a) = pure a
  or_return f (err e) = exit (no_requeue (f e))

  -- Stage 1: fetch the CronJob; a missing one is no error.
  unfoldable pub fetch : Request → Run CronJob
  unfolding or_return
  fetch req = do
    got ← call (get_cron_job req) (λ h. env.get_answer h req)
    or_return (λ e. ignore_not_found (some e)) got

  -- Stage 2: list the pods, and update the status. Later stages read what the server answers.
  unfoldable pub observe : Request → CronJob → Run (CronJob × Children)
  unfolding children_of with_status or_return
  observe req cron_job = do
    listed ← call (list_pods req.namespace req.name) (λ h. env.list_answer h req.namespace req.name)
    pods ← or_return some listed
    let c = children_of env cron_job pods
    let updated = with_status env cron_job c
    answer ← call (update_status updated) (λ h. env.update_answer h updated)
    stored ← or_return some answer
    pure (stored, c)

  -- The loop of stage 3 at the index `i`, over the pods from there on. Reading past the end of the
  -- slice panics. The answer to a deletion is only logged.
  unfoldable pub delete_old : ℤ → ℕ → List Pod → Run (Unit {0})
  delete_old bound i [] = if ltb_ℤ bound (pos i) then pure tt else panic
  delete_old bound i (pod ∷ pods) =
      let more = delete_old bound (i + 1) pods in
      if ltb_ℤ bound (pos i)
      then pure tt
      else (call (delete_pod pod) (λ h. env.delete_answer h pod) >>= λ _. more)

  -- Stage 3, once for the failed pods and once for the successful ones.
  unfoldable pub clean_up : Option ℤ → List Pod → Run (Unit {0})
  unfolding delete_old
  clean_up none pods = pure tt
  clean_up (some limit) pods =
      let sorted = env.sort_slice starts_before pods in
      delete_old (pos (length sorted) -ℤ limit) 0 sorted

  -- Stage 4
  unfoldable pub check_suspended : CronJob → Run (Unit {0})
  check_suspended cron_job =
      if is_suspended cron_job.spec.suspend then exit (no_requeue none) else pure tt

  clock : Run Instant
  clock = call read_clock env.now

  -- `none` is a loop that has no end; `next_scheduled_time_total` rules it out.
  runs_or_return : Option (Result (Instant × Instant)) → Run (Instant × Instant)
  runs_or_return none = panic
  runs_or_return (some (err e)) = exit (no_requeue none)
  runs_or_return (some (ok runs)) = pure runs

  -- Stage 5
  unfoldable pub find_runs : CronJob → Run (Instant × Instant)
  unfolding clock runs_or_return
  find_runs cron_job = do
    now ← clock
    runs_or_return (next_scheduled_time env.parse_standard cron_job now)

  -- Stage 6: no run was missed.
  unfoldable pub check_missed : Instant → Duration → Run (Unit {0})
  check_missed missed waiting = if is_zero missed then exit (requeue waiting) else pure tt

  -- Stage 6, the starting deadline
  unfoldable pub check_deadline : CronJob → Instant → Duration → Run (Unit {0})
  unfolding clock
  check_deadline cron_job missed waiting = elim cron_job.spec.starting_deadline_seconds [
    | none ↦ pure tt
    | some n ↦ clock >>= λ now.
        if before (add missed (seconds n)) now then exit (requeue waiting) else pure tt
  ]

  or_return_error : Option Error → Run (Unit {0})
  or_return_error none = pure tt
  or_return_error (some e) = exit (no_requeue (some e))

  -- Stage 6, the policy "Replace": a pod that is gone already is no error.
  unfoldable pub delete_active : List Pod → Run (Unit {0})
  unfolding or_return_error
  delete_active [] = pure tt
  delete_active (pod ∷ pods) =
      let more = delete_active pods in
      call (delete_pod pod) (λ h. env.delete_answer h pod) >>= λ e.
      or_return_error (ignore_not_found e) >> more

  unfoldable pub check_policy : CronJob → List Pod → Duration → Run (Unit {0})
  unfolding delete_active
  check_policy cron_job active waiting =
      if cron_job.spec.concurrency_policy == forbid_concurrent && is_nonempty active
      then exit (requeue waiting)
      else if cron_job.spec.concurrency_policy == replace_concurrent
      then delete_active active
      else pure tt

  pod_or_return : Duration → Result Pod → Run Pod
  pod_or_return waiting (ok pod) = pure pod
  pod_or_return waiting (err e) = exit (requeue waiting)

  unfoldable pub start_pod : CronJob → Instant → Duration → Run (Unit {0})
  unfolding pod_or_return or_return_error
  start_pod cron_job missed waiting = do
    pod ← pod_or_return waiting (new_pod_for_cron_job env cron_job missed)
    e ← call (create_pod pod) (λ h. env.create_answer h pod)
    or_return_error e

  -- Stages 6 and 7
  unfoldable pub run_missed : CronJob → List Pod → Instant → Instant → Run (Unit {0})
  unfolding clock
  run_missed cron_job active missed upcoming = do
    now ← clock
    let waiting = sub upcoming now
    check_missed missed waiting
    check_deadline cron_job missed waiting
    check_policy cron_job active waiting
    start_pod cron_job missed waiting
    exit (requeue waiting)

  -- Stages 3 to 7
  unfoldable pub act : CronJob → Children → Run (Unit {0})
  act cron_job c = do
    clean_up cron_job.spec.failed_jobs_history_limit c.failed
    clean_up cron_job.spec.successful_jobs_history_limit c.successful
    check_suspended cron_job
    (missed, upcoming) ← find_runs cron_job
    run_missed cron_job c.active missed upcoming

  unfoldable pub reconcile : Request → Run (Unit {0})
  reconcile req = do fetched ← fetch req; (cron_job, c) ← observe req fetched; act cron_job c
