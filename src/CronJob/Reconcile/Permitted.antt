-- ===== src/CronJob/Reconcile/Permitted.antt =====
-- When stages 6 and 7 of `Reconcile` create a pod
-- (circle/internal/controller/cronjob_controller.go).
use Prim.Native.Nat.{ℕ, suc}
use mathlib.Core.Path.{◌≡◌, refl, ap, ◌∙◌, sym, subst}
use mathlib.Core.Logic.{◌≢◌, ◌↔◌, ◌⊎◌, inl, inr}
use mathlib.Core.Bool.{false}
use mathlib.Core.Option.{Option, some, none}
use mathlib.Core.List.{List, [], ◌∷◌}
use native.Mathlib.Decide.{ℕ_discrete}
use native.Mathlib.Omega.{arith}
use text.Mathlib.Text.{◌==◌}
use text.Mathlib.TextEquality.{eq_iff}
use bad_pen.Base.{Option-cases, Bool-cases}
use bad_pen.Base.Int.{ℤ}
use bad_pen.Base.Exec.{value, bind_reached, then_exit, ◌>>=◌, ◌>>◌, exit, continue}
use bad_pen.Base.Result.{ok, ignore_not_found}
use bad_pen.Time.{Instant, Duration, is_zero, before, add, seconds, sub}
use bad_pen.Kube.{Pod}
use bad_pen.CronJob.{CronJob, forbid_concurrent, replace_concurrent}
use bad_pen.CronJob.Env.{Call, delete_pod, create_pod, read_clock, Env, Run}
use bad_pen.CronJob.Pods.{new_pod_for_cron_job}
use bad_pen.CronJob.Reconcile.{
  requeue, check_missed, check_deadline, delete_active, check_policy, start_pod, run_missed,
}
use bad_pen.CronJob.Reconcile.Created.{
  creates, creates-check_missed, creates-check_deadline, creates-check_policy,
}
use bad_pen.CronJob.Reconcile.Stages.{
  check_missed_value, check_deadline_value, check_policy_value, start_pod_created, replace_tests,
}

module _ (env : Env) where
  -- The pods are deleted one after the other, and no deletion fails; that a pod is gone already is
  -- no failure.
  abbrev pub AllDeleted : List Pod → List Call → Type 0
  AllDeleted [] h = Unit
  AllDeleted (pod ∷ pods) h =
      (ignore_not_found (env.delete_answer h pod) ≡ none) × AllDeleted pods (delete_pod pod ∷ h)

  -- The clock is read again where there is a deadline.
  abbrev pub deadline_checked : Option ℤ → List Call → List Call
  deadline_checked none h = h
  deadline_checked (some n) h = read_clock ∷ h

  -- What permits a run: there is one that was missed, its deadline has not passed, the policy
  -- allows it beside the active pods, and its pod can be made.
  pub record IsPermitted (cron_job : CronJob) (active : List Pod) (missed : Instant) (h : List Call)
      : Type 0 where
    pub is_run : is_zero missed ≡ false
    pub in_time :
        (n : ℤ)
        → cron_job.spec.starting_deadline_seconds ≡ some n
        → before (add missed (seconds n)) (env.now (read_clock ∷ h)) ≡ false
    pub not_forbidden : cron_job.spec.concurrency_policy ≡ forbid_concurrent → active ≡ []
    pub replaced :
        cron_job.spec.concurrency_policy ≡ replace_concurrent
        → AllDeleted active
            (deadline_checked cron_job.spec.starting_deadline_seconds (read_clock ∷ h))
    pub pod : Pod
    pub made : new_pod_for_cron_job env cron_job missed ≡ ok pod

  delete_active-AllDeleted :
      (pods : List Pod) (h : List Call)
      → (delete_active env pods h).0 ≡ value tt
      → AllDeleted pods h
  unfolding delete_active
  delete_active-AllDeleted [] h e = tt
  delete_active-AllDeleted (pod ∷ pods) h e =
      elim (Option-cases (ignore_not_found (env.delete_answer h pod))) [
        | inl fine ↦ (fine, delete_active-AllDeleted pods (delete_pod pod ∷ h) (ground arith))
        | inr (x, failed) ↦ absurd (ground arith)
      ]

  delete_active_value_of :
      (pods : List Pod) (h : List Call)
      → AllDeleted pods h
      → (delete_active env pods h).0 ≡ value tt
  unfolding delete_active
  delete_active_value_of [] h fine = refl
  delete_active_value_of (pod ∷ pods) h (fine, rest) =
      rw fine (delete_active_value_of pods (delete_pod pod ∷ h) rest)

  module _ (cron_job : CronJob) (active : List Pod) (missed : Instant) (w : Duration) where
    policy_deletes :
        (h : List Call)
        → (check_policy env cron_job active w h).0 ≡ value tt
        → cron_job.spec.concurrency_policy ≡ replace_concurrent
        → AllDeleted active h
    unfolding check_policy
    policy_deletes h e r =
        delete_active-AllDeleted active h
          (ground (arith, replace_tests env cron_job.spec.concurrency_policy r))

    policy_allows :
        (h : List Call)
        → (cron_job.spec.concurrency_policy ≡ forbid_concurrent → active ≡ [])
        → (cron_job.spec.concurrency_policy ≡ replace_concurrent → AllDeleted active h)
        → (check_policy env cron_job active w h).0 ≡ value tt
    unfolding check_policy
    policy_allows h forbid replace =
        let policy = cron_job.spec.concurrency_policy in
        elim (Bool-cases (policy == replace_concurrent)) [
          | inl r ↦
              let same = (eq_iff policy replace_concurrent).0 r in
              rw ((replace_tests env policy same).0, r)
                (delete_active_value_of active h (replace same))
          | inr other ↦ elim (Bool-cases (policy == forbid_concurrent)) [
            | inl f ↦ rw (f, other, forbid ((eq_iff policy forbid_concurrent).0 f)) refl
            | inr free ↦ rw (free, other) refl
          ]
        ]

    deadline_history :
        (h : List Call)
        → (check_deadline env cron_job missed w h).1
          ≡ deadline_checked cron_job.spec.starting_deadline_seconds h
    unfolding check_deadline
    deadline_history h = elim (Option-cases cron_job.spec.starting_deadline_seconds) [
      | inl free ↦ rw free refl
      | inr (n, bound) ↦ rw bound (ground arith)
    ]

    deadline_allows :
        (h : List Call)
        → ((n : ℤ)
            → cron_job.spec.starting_deadline_seconds ≡ some n
            → before (add missed (seconds n)) (env.now h) ≡ false)
        → (check_deadline env cron_job missed w h).0 ≡ value tt
    unfolding check_deadline
    deadline_allows h in_time = elim (Option-cases cron_job.spec.starting_deadline_seconds) [
      | inl free ↦ rw free refl
      | inr (n, bound) ↦ let timely = in_time n bound in rw bound (ground arith)
    ]

    missed_allows :
        (h : List Call) → is_zero missed ≡ false → check_missed env missed w h ≡ (value tt, h)
    unfolding check_missed
    missed_allows h run = rw run refl

    start_creates :
        (h : List Call) (pod : Pod)
        → new_pod_for_cron_job env cron_job missed ≡ ok pod
        → (start_pod env cron_job missed w h).1 ≡ create_pod pod ∷ h
    unfolding start_pod
    start_creates h pod made = rw made (ground arith)

  not_suc : {n : ℕ} → suc n ≢ n
  not_suc e = omega (arith, e)

  value_goes_on :
      {A B : Type 0} (m : Run A) (k : A → Run B) (h : List Call) {a : A}
      → (m h).0 ≡ value a
      → (m >>= k) h ≡ k a (m h).1
  value_goes_on m k h e = ap (λ o. continue o k (m h).1) e

  module _ (cron_job : CronJob) (active : List Pod) (missed upcoming : Instant)
      (h : List Call) where
    creates-IsPermitted :
        creates (run_missed env cron_job active missed upcoming h).1 ≢ creates h
        → IsPermitted cron_job active missed h
    unfolding run_missed
    creates-IsPermitted changed =
        let w = sub upcoming (env.now h) in
        let h_one = read_clock ∷ h in
        let (_, run, _, changed_one) =
          bind_reached creates (check_missed env missed w) _ h_one
            (creates-check_missed env missed w h_one) changed in
        let (is_run, still) = check_missed_value env missed w h_one run in
        let h_two = (check_missed env missed w h_one).1 in
        let (_, timely, _, changed_two) =
          bind_reached creates (check_deadline env cron_job missed w) _ h_two
            (creates-check_deadline env cron_job missed w h_two) changed_one in
        let h_three = (check_deadline env cron_job missed w h_two).1 in
        let (_, allowed, _, changed_three) =
          bind_reached creates (check_policy env cron_job active w) _ h_three
            (creates-check_policy env cron_job active w h_three) changed_two in
        let h_four = (check_policy env cron_job active w h_three).1 in
        let ends = then_exit (Unit {0}) (requeue w) (start_pod env cron_job missed w) h_four in
        let (pod, made, last) =
          start_pod_created env cron_job missed w h_four
            (λ e. changed_three (ap creates ends ∙ e)) in
        record {
          is_run = is_run;
          in_time =
              λ n d. rw still at (check_deadline_value env cron_job missed w h_two timely n d);
          not_forbidden = (check_policy_value env cron_job active w h_three allowed).0;
          replaced = λ r.
              subst (AllDeleted active)
                (deadline_history cron_job active missed w h_two
                  ∙ ap (deadline_checked cron_job.spec.starting_deadline_seconds) still)
                (policy_deletes cron_job active missed w h_three allowed r);
          pod = pod;
          made = made;
        }

    IsPermitted-creates :
        (p : IsPermitted cron_job active missed h)
        → creates (run_missed env cron_job active missed upcoming h).1 ≡ suc (creates h)
    unfolding run_missed
    IsPermitted-creates p =
        let w = sub upcoming (env.now h) in
        let h_one = read_clock ∷ h in
        let h_two = (check_deadline env cron_job missed w h_one).1 in
        let h_three = (check_policy env cron_job active w h_two).1 in
        let timely = deadline_allows cron_job active missed w h_one p.in_time in
        let allowed = policy_allows cron_job active missed w h_two p.not_forbidden (λ r.
          subst (AllDeleted active) (sym (deadline_history cron_job active missed w h_one))
            (p.replaced r)) in
        let start : Run (Unit {0}) = start_pod env cron_job missed w >> exit (requeue w) in
        let policed : Run (Unit {0}) = check_policy env cron_job active w >> start in
        let checked : Run (Unit {0}) = check_deadline env cron_job missed w >> policed in
        ap (λ x. creates x.1)
          (ap (λ x. continue x.0 (λ _. checked) x.1)
              (missed_allows cron_job active missed w h_one p.is_run)
            ∙ value_goes_on (check_deadline env cron_job missed w) (λ _. policed) h_one timely
            ∙ value_goes_on (check_policy env cron_job active w) (λ _. start) h_two allowed)
        ∙ ap creates (then_exit (Unit {0}) (requeue w) (start_pod env cron_job missed w) h_three)
        ∙ ap creates (start_creates cron_job active missed w h_three p.pod p.made)
        ∙ ap suc (
            creates-check_policy env cron_job active w h_two
            ∙ creates-check_deadline env cron_job missed w h_one)

    -- Stages 6 and 7 of `Reconcile` call for the creation of a pod exactly if a run was missed, its
    -- starting deadline, if there is one, has not passed when the clock is read again, no pod is
    -- active under the policy "Forbid", under "Replace" every active pod is deleted without a
    -- failure, and the run's pod can be made. They create one pod then, and otherwise none.
    pub run_missed-creates_iff :
        ((creates (run_missed env cron_job active missed upcoming h).1 ≡ suc (creates h))
          ↔ IsPermitted cron_job active missed h)
        × ((creates (run_missed env cron_job active missed upcoming h).1 ≡ suc (creates h))
            ⊎ (creates (run_missed env cron_job active missed upcoming h).1 ≡ creates h))
    run_missed-creates_iff = (
      (λ more. creates-IsPermitted (λ same. not_suc (sym more ∙ same)), IsPermitted-creates),
      elim (ℕ_discrete (creates (run_missed env cron_job active missed upcoming h).1) (creates h)) [
        | yes same ↦ inr same
        | no changed ↦ inl (IsPermitted-creates (creates-IsPermitted changed))
      ],
    )
