-- ===== src/CronJob/Children.antt =====
-- Stage 2 of `Reconcile`, between listing the pods and updating the status
-- (circle/internal/controller/cronjob_controller.go): the pods by phase, and the new status.
pub mod Laws
use Prim.Native.Nat.{ℕ, zero, suc, ◌+◌}
use Prim.Native.String.{String}
use mathlib.Core.Bool.{Bool, true, false, ◌&&◌}
use mathlib.Core.Option.{Option, none, some}
use mathlib.Core.List.{List, [], ◌∷◌, ◌++◌}
use text.Mathlib.Text.{◌==◌}
use bad_pen.Base.{ltb, length, if◌then◌else◌}
use bad_pen.Base.Int.{ℤ, pos, ◌-ℤ◌, ltb_ℤ}
use bad_pen.Base.Exec.{pure, exit, panic, call, ◌>>=◌, ◌>>◌}
use bad_pen.Base.Result.{Error, ignore_not_found, Result, ok, err}
use bad_pen.Time.{Instant, Duration, is_zero, after, before, add, sub, seconds}
use bad_pen.Kube.{Pod, pod_succeeded, pod_failed}
use bad_pen.CronJob.{CronJob, CronJobStatus, ObjectReference, forbid_concurrent, replace_concurrent}
use bad_pen.CronJob.Env.{
  Request, Call, get_cron_job, list_pods, update_status, delete_pod, create_pod, read_clock, Reply,
  Env, Run,
}
use bad_pen.CronJob.Schedule.{next_scheduled_time}
use bad_pen.CronJob.Pods.{schedule_time_for_pod, new_pod_for_cron_job, starts_before}

-- The variables of the first loop of stage 2.
pub record Children : Type 0 where
  pub active : List Pod
  pub failed : List Pod
  pub successful : List Pod
  pub last_scheduled : Instant

by_phase : Pod → Children → Children
by_phase pod c =
    if pod.phase == pod_succeeded
    then record c { successful = c.successful ++ pod ∷ [] }
    else if pod.phase == pod_failed
    then record c { failed = c.failed ++ pod ∷ [] }
    else record c { active = c.active ++ pod ∷ [] }

note_schedule : Result Instant → Children → Children
note_schedule (err e) c = c
note_schedule (ok t) c = if after t c.last_scheduled then record c { last_scheduled = t } else c

module _ (env : Env) where
  unfoldable pub add_children : Children → List Pod → Children
  unfolding by_phase note_schedule
  add_children c [] = c
  add_children c (pod ∷ pods) =
      add_children (note_schedule (schedule_time_for_pod env pod) (by_phase pod c)) pods

  add_reference : Result ObjectReference → List ObjectReference → List ObjectReference
  add_reference (ok ref) refs = refs ++ ref ∷ []
  add_reference (err e) refs = refs

  -- `cronJob.Status.Active = append(cronJob.Status.Active, *podRef)`
  unfoldable pub add_references : List ObjectReference → List Pod → List ObjectReference
  unfolding add_reference
  add_references refs [] = refs
  add_references refs (pod ∷ pods) =
      add_references (add_reference (env.get_reference pod) refs) pods

  unfoldable pub children_of : CronJob → List Pod → Children
  unfolding add_children
  children_of cron_job pods =
      add_children
        (record {
          active = [];
          failed = [];
          successful = [];
          last_scheduled = cron_job.meta.creation_timestamp;
        })
        pods

  unfoldable pub with_status : CronJob → Children → CronJob
  unfolding add_references
  with_status cron_job c = record cron_job {
    status = record {
      active = add_references [] c.active;
      last_schedule_time = some c.last_scheduled;
    };
  }
