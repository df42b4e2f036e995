-- ===== src/CronJob/Children/Laws.antt =====
-- The loops of stage 2 as filters, and the last scheduled time as a maximum
-- (circle/internal/controller/cronjob_controller.go).
use mathlib.Core.Path.{◌≡◌, refl, sym, ap, ◌≡⟨◌⟩◌, ◌∎, ◌∙◌}
use mathlib.Core.Logic.{◌⊎◌, inl, inr}
use mathlib.Core.Bool.{Bool, true, false, ◌&&◌, not}
use mathlib.Core.List.{List, [], ◌∷◌, ◌++◌, append-nil, append_assoc, Memᴰ}
use native.Mathlib.Omega.{arith}
use text.Mathlib.Text.{◌==◌}
use text.Mathlib.TextEquality.{eq_iff}
use bad_pen.Base.{keep, All}
use bad_pen.Base.Int.{◌≤ℤ◌}
use bad_pen.Base.Result.{ok}
use bad_pen.Time.{Instant}
use bad_pen.Kube.{Pod, pod_succeeded, pod_failed}
use bad_pen.CronJob.{CronJob}
use bad_pen.CronJob.Env.{Env}
use bad_pen.CronJob.Pods.{schedule_time_for_pod}
use bad_pen.CronJob.Children.{Children, by_phase, note_schedule, add_children, children_of}

abbrev pub is_succeeded : Pod → Bool
is_succeeded pod = pod.phase == pod_succeeded

abbrev pub is_failed : Pod → Bool
is_failed pod = pod.phase == pod_failed

-- Neither phase that ends a pod.
abbrev pub is_active : Pod → Bool
is_active pod = not (is_succeeded pod) && not (is_failed pod)

failed-of_succeeded : (pod : Pod) → is_succeeded pod ≡ true → is_failed pod ≡ false
failed-of_succeeded pod h = rw ((eq_iff pod.phase pod_succeeded).0 h)

keep_cons :
    (test : Pod → Bool) (pod : Pod) (pods : List Pod)
    → keep test (pod ∷ []) ++ keep test pods ≡ keep test (pod ∷ pods)
unfolding keep
keep_cons test pod pods = ground arith

module _ (env : Env) where
  -- One round of the loop.
  abbrev round : Pod → Children → Children
  round pod c = note_schedule (schedule_time_for_pod env pod) (by_phase pod c)

  round-active :
      (pod : Pod) (c : Children) → (round pod c).active ≡ c.active ++ keep is_active (pod ∷ [])
  unfolding note_schedule by_phase keep
  round-active pod c = ground (arith, append-nil c.active)

  round-failed :
      (pod : Pod) (c : Children) → (round pod c).failed ≡ c.failed ++ keep is_failed (pod ∷ [])
  unfolding note_schedule by_phase keep
  round-failed pod c = ground (arith, append-nil c.failed, failed-of_succeeded pod)

  round-successful :
      (pod : Pod) (c : Children)
      → (round pod c).successful ≡ c.successful ++ keep is_succeeded (pod ∷ [])
  unfolding note_schedule by_phase keep
  round-successful pod c = ground (arith, append-nil c.successful)

  add_children_field :
      (field : Children → List Pod) (test : Pod → Bool)
      → ((pod : Pod) (c : Children) → field (round pod c) ≡ field c ++ keep test (pod ∷ []))
      → (c : Children) (pods : List Pod)
      → field (add_children env c pods) ≡ field c ++ keep test pods
  unfolding add_children keep
  add_children_field field test step c [] = sym (append-nil (field c))
  add_children_field field test step c (pod ∷ pods) =
      field (add_children env (round pod c) pods)
      ≡⟨ add_children_field field test step (round pod c) pods ⟩
        field (round pod c) ++ keep test pods
      ≡⟨ ap (λ l. l ++ keep test pods) (step pod c) ⟩
        (field c ++ keep test (pod ∷ [])) ++ keep test pods
      ≡⟨ append_assoc (field c) (keep test (pod ∷ [])) (keep test pods) ⟩
        field c ++ (keep test (pod ∷ []) ++ keep test pods)
      ≡⟨ ap (◌++◌ (field c)) (keep_cons test pod pods) ⟩ field c ++ keep test (pod ∷ pods) ∎

  -- The pods of a CronJob are divided by their phase, in their order: succeeded, failed, and
  -- active, which is every other phase.
  pub children_of_phases :
      (cron_job : CronJob) (pods : List Pod)
      → ((children_of env cron_job pods).active ≡ keep is_active pods)
        × ((children_of env cron_job pods).failed ≡ keep is_failed pods)
        × ((children_of env cron_job pods).successful ≡ keep is_succeeded pods)
  unfolding children_of
  children_of_phases cron_job pods = (
    add_children_field (λ c. c.active) is_active round-active _ pods,
    add_children_field (λ c. c.failed) is_failed round-failed _ pods,
    add_children_field (λ c. c.successful) is_succeeded round-successful _ pods,
  )

  -- A pod's scheduled time, if its annotation can be read, is not after `t`.
  abbrev pub ScheduledBy : Instant → Pod → Type 0
  ScheduledBy t pod = (s : Instant) → schedule_time_for_pod env pod ≡ ok s → s ≤ℤ t

  round-last :
      (pod : Pod) (c : Children)
      → (c.last_scheduled ≤ℤ (round pod c).last_scheduled)
        × ScheduledBy (round pod c).last_scheduled pod
        × (((round pod c).last_scheduled ≡ c.last_scheduled)
            ⊎ (schedule_time_for_pod env pod ≡ ok (round pod c).last_scheduled))
  unfolding note_schedule by_phase
  round-last pod c = (ground arith, λ s e. ground arith, ground arith)

  -- What the loop has done to the last scheduled time.
  pub record IsLatest (before after : Instant) (pods : List Pod) : Type 0 where
    pub grown : before ≤ℤ after
    pub bounds : All (ScheduledBy after) pods
    pub attained :
        (after ≡ before)
        ⊎ ((pod : Pod) × Memᴰ pod pods × (schedule_time_for_pod env pod ≡ ok after))

  attain :
      (pod : Pod) (c : Children) (pods : List Pod) {t : Instant}
      → ((round pod c).last_scheduled ≡ c.last_scheduled)
        ⊎ (schedule_time_for_pod env pod ≡ ok (round pod c).last_scheduled)
      → (t ≡ (round pod c).last_scheduled)
        ⊎ ((p : Pod) × Memᴰ p pods × (schedule_time_for_pod env p ≡ ok t))
      → (t ≡ c.last_scheduled)
        ⊎ ((p : Pod) × Memᴰ p (pod ∷ pods) × (schedule_time_for_pod env p ≡ ok t))
  attain pod c pods _ (inr (p, m, e)) = inr (p, Memᴰ.tail m, e)
  attain pod c pods (inl same) (inl e) = inl (e ∙ same)
  attain pod c pods (inr here) (inl e) = inr (pod, Memᴰ.head refl, here ∙ ap ok (sym e))

  add_children-IsLatest :
      (c : Children) (pods : List Pod)
      → IsLatest c.last_scheduled (add_children env c pods).last_scheduled pods
  unfolding add_children
  add_children-IsLatest c [] = record { grown = omega arith; bounds = tt; attained = inl refl }
  add_children-IsLatest c (pod ∷ pods) =
      let (grown, bound, attained) = round-last pod c in
      let later = add_children-IsLatest (round pod c) pods in
      record {
        grown = omega (arith, later.grown, grown);
        bounds = (λ s e. omega (arith, bound s e, later.grown), later.bounds);
        attained = attain pod c pods attained later.attained;
      }

  -- The last scheduled time is the latest of the creation time and the times that the pods'
  -- annotations give; a pod whose annotation is missing or cannot be read does not count.
  pub children_of-IsLatest :
      (cron_job : CronJob) (pods : List Pod)
      → IsLatest cron_job.meta.creation_timestamp
          (children_of env cron_job pods).last_scheduled
          pods
  unfolding children_of
  children_of-IsLatest cron_job pods = add_children-IsLatest _ pods
