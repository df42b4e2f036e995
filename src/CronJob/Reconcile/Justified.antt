-- ===== src/CronJob/Reconcile/Justified.antt =====
-- What must hold for `Reconcile` to create a pod
-- (circle/internal/controller/cronjob_controller.go).
use mathlib.Core.Path.{◌≡◌, ap, ◌∙◌, sym, subst₃}
use mathlib.Core.Logic.{◌≢◌}
use mathlib.Core.Bool.{false}
use mathlib.Core.Option.{some}
use mathlib.Core.List.{List, [], ◌∷◌, Memᴰ}
use bad_pen.Base.{All}
use bad_pen.Base.Int.{ℤ}
use bad_pen.Base.Exec.{bind_reached, then_exit, ◌>>=◌}
use bad_pen.Base.Result.{ok}
use bad_pen.Time.{Instant, is_zero, before, add, seconds, sub}
use bad_pen.Kube.{Pod}
use bad_pen.CronJob.{CronJob, forbid_concurrent, replace_concurrent}
use bad_pen.CronJob.Env.{
  Request, Call, get_cron_job, list_pods, update_status, delete_pod, create_pod, read_clock, Env,
}
use bad_pen.CronJob.Schedule.{next_scheduled_time}
use bad_pen.CronJob.Pods.{new_pod_for_cron_job}
use bad_pen.CronJob.Children.{Children, children_of, with_status}
use bad_pen.CronJob.Reconcile.{
  requeue, fetch, observe, clean_up, is_suspended, check_suspended, find_runs, check_missed,
  check_deadline, check_policy, start_pod, run_missed, act, reconcile,
}
use bad_pen.CronJob.Reconcile.Created.{
  creates, creates-fetch, creates-observe, creates-clean_up, creates-check_suspended,
  creates-find_runs, creates-check_missed, creates-check_deadline, creates-check_policy,
}
use bad_pen.CronJob.Reconcile.Stages.{
  fetch_value, observe_value, check_suspended_value, find_runs_value, check_missed_value,
  check_deadline_value, check_policy_value, start_pod_created, deleted-All,
}

module _ (env : Env) where
  -- The three calls of the first two stages, and the history after stage 3.
  abbrev pub observed : Request → CronJob → List Pod → List Call → List Call
  observed req fetched pods h =
      update_status (with_status env fetched (children_of env fetched pods))
      ∷ list_pods req.namespace req.name
      ∷ get_cron_job req
      ∷ h

  abbrev pub cleaned : CronJob → Children → List Call → List Call
  cleaned stored c h =
      (clean_up env stored.spec.successful_jobs_history_limit c.successful
        (clean_up env stored.spec.failed_jobs_history_limit c.failed h).1).1

  -- What stages 3 to 7 have done after the history `h`, if they created a pod.
  pub record IsDueRun (stored : CronJob) (c : Children) (h after : List Call) : Type 0 where
    pub missed : Instant
    pub upcoming : Instant
    pub pod : Pod
    pub earlier : List Call
    pub not_suspended : is_suspended stored.spec.suspend ≡ false
    pub due :
        next_scheduled_time env.parse_standard stored (env.now (cleaned stored c h))
        ≡ some (ok (missed, upcoming))
    pub is_run : is_zero missed ≡ false
    pub in_time :
        (n : ℤ)
        → stored.spec.starting_deadline_seconds ≡ some n
        → before (add missed (seconds n)) (env.now (read_clock ∷ read_clock ∷ cleaned stored c h))
          ≡ false
    pub not_forbidden : stored.spec.concurrency_policy ≡ forbid_concurrent → c.active ≡ []
    pub replaced :
        stored.spec.concurrency_policy ≡ replace_concurrent
        → All (λ p. Memᴰ (delete_pod p) earlier) c.active
    pub made : new_pod_for_cron_job env stored missed ≡ ok pod
    pub created_once : creates earlier ≡ creates h
    pub created_last : after ≡ create_pod pod ∷ earlier

  pub record IsJustified (req : Request) (h after : List Call) : Type 0 where
    pub fetched : CronJob
    pub pods : List Pod
    pub stored : CronJob
    pub was_fetched : env.get_answer h req ≡ ok fetched
    pub was_listed : env.list_answer (get_cron_job req ∷ h) req.namespace req.name ≡ ok pods
    pub was_stored :
        env.update_answer
          (list_pods req.namespace req.name ∷ get_cron_job req ∷ h)
          (with_status env fetched (children_of env fetched pods))
        ≡ ok stored
    pub run : IsDueRun stored (children_of env fetched pods) (observed req fetched pods h) after

  -- The rest of `run_missed`, one definition for each step.
  run_missed_created :
      (cron_job : CronJob) (active : List Pod) (missed upcoming : Instant) (h : List Call)
      → creates (run_missed env cron_job active missed upcoming h).1 ≢ creates h
      → (pod : Pod) × (earlier : List Call) × (is_zero missed ≡ false)
        × ((n : ℤ)
            → cron_job.spec.starting_deadline_seconds ≡ some n
            → before (add missed (seconds n)) (env.now (read_clock ∷ h)) ≡ false)
        × (cron_job.spec.concurrency_policy ≡ forbid_concurrent → active ≡ [])
        × (cron_job.spec.concurrency_policy ≡ replace_concurrent
            → All (λ p. Memᴰ (delete_pod p) earlier) active)
        × (new_pod_for_cron_job env cron_job missed ≡ ok pod)
        × (creates earlier ≡ creates h)
        × ((run_missed env cron_job active missed upcoming h).1 ≡ create_pod pod ∷ earlier)
  unfolding run_missed
  run_missed_created cron_job active missed upcoming h changed =
      let w = sub upcoming (env.now h) in
      let (_, run, same_one, changed_one) =
        bind_reached creates (check_missed env missed w) _ (read_clock ∷ h)
          (creates-check_missed env missed w (read_clock ∷ h)) changed in
      let (is_run, still) = check_missed_value env missed w (read_clock ∷ h) run in
      let h_two = (check_missed env missed w (read_clock ∷ h)).1 in
      let (_, timely, same_two, changed_two) =
        bind_reached creates (check_deadline env cron_job missed w) _ h_two
          (creates-check_deadline env cron_job missed w h_two) changed_one in
      let h_three = (check_deadline env cron_job missed w h_two).1 in
      let (_, allowed, same_three, changed_three) =
        bind_reached creates (check_policy env cron_job active w) _ h_three
          (creates-check_policy env cron_job active w h_three) changed_two in
      let (forbid, replace) = check_policy_value env cron_job active w h_three allowed in
      let h_four = (check_policy env cron_job active w h_three).1 in
      let ends = then_exit (Unit {0}) (requeue w) (start_pod env cron_job missed w) h_four in
      let (pod, made, last) =
        start_pod_created env cron_job missed w h_four (λ e. changed_three (ap creates ends ∙ e)) in
      (
        pod,
        h_four,
        is_run,
        λ n d. rw still at (check_deadline_value env cron_job missed w h_two timely n d),
        forbid,
        λ r. rw (replace r) (deleted-All env active h_three),
        made,
        creates-check_policy env cron_job active w h_three
            ∙ creates-check_deadline env cron_job missed w h_two
            ∙ creates-check_missed env missed w (read_clock ∷ h),
        ap (λ x. x.1) (same_one ∙ same_two ∙ same_three) ∙ ends ∙ last,
      )

  act-IsDueRun :
      (stored : CronJob) (c : Children) (h : List Call)
      → creates (act env stored c h).1 ≢ creates h
      → IsDueRun stored c h (act env stored c h).1
  unfolding act
  act-IsDueRun stored c h changed =
      let failed_limit = stored.spec.failed_jobs_history_limit in
      let successful_limit = stored.spec.successful_jobs_history_limit in
      let (_, _, same_one, changed_one) =
        bind_reached creates (clean_up env failed_limit c.failed) _ h
          (creates-clean_up env failed_limit c.failed h) changed in
      let h_one = (clean_up env failed_limit c.failed h).1 in
      let (_, _, same_two, changed_two) =
        bind_reached creates (clean_up env successful_limit c.successful) _ h_one
          (creates-clean_up env successful_limit c.successful h_one) changed_one in
      let h_two = cleaned stored c h in
      let (_, awake, same_three, changed_three) =
        bind_reached creates (check_suspended env stored) _ h_two
          (creates-check_suspended env stored h_two) changed_two in
      let (not_suspended, still) = check_suspended_value env stored h_two awake in
      let h_three = (check_suspended env stored h_two).1 in
      let ((missed, upcoming), found, same_four, changed_four) =
        bind_reached creates (find_runs env stored) _ h_three (creates-find_runs env stored h_three)
          changed_three in
      let (due, read) = find_runs_value env stored h_three found in
      let (pod, earlier, is_run, in_time, forbid, replace, made, once, last) =
        run_missed_created stored c.active missed upcoming (find_runs env stored h_three).1
          changed_four in
      record {
        missed = missed;
        upcoming = upcoming;
        pod = pod;
        earlier = earlier;
        not_suspended = not_suspended;
        due = rw still at due;
        is_run = is_run;
        in_time = λ n d. rw (read, still) at (in_time n d);
        not_forbidden = forbid;
        replaced = replace;
        made = made;
        created_once =
            once
            ∙ creates-find_runs env stored h_three
            ∙ creates-check_suspended env stored h_two
            ∙ creates-clean_up env successful_limit c.successful h_one
            ∙ creates-clean_up env failed_limit c.failed h;
        created_last = ap (λ x. x.1) (same_one ∙ same_two ∙ same_three ∙ same_four) ∙ last;
      }

  justified_from :
      (req : Request) (h : List Call) (fetched : CronJob) {h' after : List Call}
      → env.get_answer h req ≡ ok fetched
      → after ≡ ((observe env req fetched >>= λ (stored, c). act env stored c) h').1
      → h' ≡ get_cron_job req ∷ h
      → creates ((observe env req fetched >>= λ (stored, c). act env stored c) h').1 ≢ creates h'
      → IsJustified req h after
  justified_from req h fetched {h'} {after} was_fetched same before_list changed =
      let ((stored, c), seen, same_two, changed_two) =
        bind_reached creates (observe env req fetched) _ h' (creates-observe env req fetched h')
          changed in
      let (pods, listed, children, was_stored, h_two) = observe_value env req fetched h' seen in
      record {
        fetched = fetched;
        pods = pods;
        stored = stored;
        was_fetched = was_fetched;
        was_listed = rw before_list at listed;
        was_stored = rw before_list at was_stored;
        run =
            subst₃ (IsDueRun stored) children
              (h_two
                ∙ ap
                    (λ x.
                      update_status (with_status env fetched (children_of env fetched pods))
                      ∷ list_pods req.namespace req.name
                      ∷ x)
                    before_list)
              (sym (same ∙ ap (λ x. x.1) same_two))
              (act-IsDueRun stored c (observe env req fetched h').1 changed_two);
      }

  -- If `Reconcile` creates a pod, then the CronJob, its pods and the new status were read and
  -- written without an error; the CronJob that the server stored is not suspended; the pod is that
  -- of a run that was missed when the clock was read, and the run's starting deadline, if there is
  -- one, had not passed when the clock was read again; no pod was active under the policy
  -- "Forbid", and under "Replace" all active pods were deleted before; and this pod, the only
  -- one, is created by the last call.
  pub reconcile-IsJustified :
      (req : Request) (h : List Call)
      → creates (reconcile env req h).1 ≢ creates h
      → IsJustified req h (reconcile env req h).1
  unfolding reconcile
  reconcile-IsJustified req h changed =
      let (fetched, got, same_one, changed_one) =
        bind_reached creates (fetch env req) _ h (creates-fetch env req h) changed in
      let (was_fetched, h_one) = fetch_value env req h got in
      justified_from req h fetched was_fetched (ap (λ x. x.1) same_one) h_one changed_one
