-- ===== src/CronJob/Reconcile/Outcomes.antt =====
-- How `Reconcile` ends on its error paths and for a CronJob that is suspended
-- (circle/internal/controller/cronjob_controller.go).
use mathlib.Core.Path.{◌≡◌, ◌∙◌}
use mathlib.Core.Bool.{true}
use mathlib.Core.Option.{some, none}
use mathlib.Core.List.{List, ◌∷◌}
use native.Mathlib.Omega.{arith}
use bad_pen.Base.Int.{ℤ, pos, ◌≤ℤ◌}
use bad_pen.Base.Exec.{reply, panics}
use bad_pen.Base.Result.{Error, ok, err, ignore_not_found}
use bad_pen.Kube.{Pod}
use bad_pen.CronJob.{CronJob}
use bad_pen.CronJob.Env.{Request, Call, get_cron_job, list_pods, update_status, Env}
use bad_pen.CronJob.Pods.{starts_before}
use bad_pen.CronJob.Children.{Children, children_of, with_status}
use bad_pen.CronJob.Reconcile.{
  no_requeue, fetch, observe, clean_up, check_suspended, act, reconcile,
}
use bad_pen.CronJob.Reconcile.CleanUp.{deletions, clean_up_panics}

module _ (env : Env) (stored : CronJob) (c : Children) (h : List Call) where
  act_panics :
      (limit : ℤ)
      → stored.spec.failed_jobs_history_limit ≡ some limit
      → limit ≤ℤ pos 0
      → act env stored c h ≡ (panics, deletions (env.sort_slice starts_before c.failed) h)
  unfolding act
  act_panics limit e low = rw e (ground (arith, clean_up_panics env limit c.failed h low))

  act_suspended :
      stored.spec.failed_jobs_history_limit ≡ none
      → stored.spec.successful_jobs_history_limit ≡ none
      → stored.spec.suspend ≡ some true
      → act env stored c h ≡ (reply (no_requeue none), h)
  unfolding act clean_up check_suspended
  act_suspended failed successful suspended = rw (failed, successful) (ground arith)

module _ (env : Env) (req : Request) (h : List Call) where
  -- A CronJob that does not exist ends the reconciliation without an error, any other error of
  -- reading it is returned, and nothing else is called.
  pub reconcile-get_error :
      (e : Error)
      → env.get_answer h req ≡ err e
      → reconcile env req h ≡ (reply (no_requeue (ignore_not_found (some e))), get_cron_job req ∷ h)
  unfolding reconcile fetch
  reconcile-get_error e got = ground arith

  module _ (fetched : CronJob) (was_fetched : env.get_answer h req ≡ ok fetched) where
    -- An error of listing the pods is returned before anything is written.
    pub reconcile-list_error :
        (e : Error)
        → env.list_answer (get_cron_job req ∷ h) req.namespace req.name ≡ err e
        → reconcile env req h
          ≡ (reply (no_requeue (some e)), list_pods req.namespace req.name ∷ get_cron_job req ∷ h)
    unfolding reconcile fetch observe
    reconcile-list_error e listed = ground arith

    module _ (pods : List Pod)
        (was_listed : env.list_answer (get_cron_job req ∷ h) req.namespace req.name ≡ ok pods) where
      abbrev updated : CronJob
      updated = with_status env fetched (children_of env fetched pods)

      -- An error of updating the status is returned before any pod is deleted or created.
      pub reconcile-update_error :
          (e : Error)
          → env.update_answer (list_pods req.namespace req.name ∷ get_cron_job req ∷ h) updated
            ≡ err e
          → reconcile env req h ≡ (
            reply (no_requeue (some e)),
            update_status updated ∷ list_pods req.namespace req.name ∷ get_cron_job req ∷ h,
          )
      unfolding reconcile fetch observe
      reconcile-update_error e failed = ground arith

      module _ (stored : CronJob)
          (was_stored : env.update_answer
              (list_pods req.namespace req.name ∷ get_cron_job req ∷ h)
              updated
            ≡ ok stored) where
        abbrev seen : List Call
        seen = update_status updated ∷ list_pods req.namespace req.name ∷ get_cron_job req ∷ h

        reconcile-act : reconcile env req h ≡ act env stored (children_of env fetched pods) seen
        unfolding reconcile fetch observe
        reconcile-act = ground arith

        -- A limit of zero failed jobs makes the reconciliation panic, once the status is updated
        -- and every failed pod is deleted.
        pub reconcile_panics :
            (limit : ℤ)
            → stored.spec.failed_jobs_history_limit ≡ some limit
            → limit ≤ℤ pos 0
            → reconcile env req h ≡ (
              panics,
              deletions (env.sort_slice starts_before (children_of env fetched pods).failed) seen,
            )
        reconcile_panics limit e low =
            reconcile-act ∙ act_panics env stored (children_of env fetched pods) seen limit e low

        -- A suspended CronJob with no history limits is left alone once its status is updated.
        pub reconcile_suspended :
            stored.spec.failed_jobs_history_limit ≡ none
            → stored.spec.successful_jobs_history_limit ≡ none
            → stored.spec.suspend ≡ some true
            → reconcile env req h ≡ (reply (no_requeue none), seen)
        reconcile_suspended failed successful suspended =
            reconcile-act
            ∙ act_suspended env stored (children_of env fetched pods) seen failed successful
                suspended
