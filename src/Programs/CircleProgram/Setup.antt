-- ===== src/Programs/CircleProgram/Setup.antt =====
-- The order of what the CronJob controller's program does (circle/cmd/main.go).
use Prim.Native.Nat.{ℕ}
use mathlib.Core.Path.{◌≡◌, refl, ap, sym, ◌∙◌, subst}
use mathlib.Core.Logic.{◌≢◌}
use mathlib.Core.Option.{Option, none, some}
use mathlib.Core.List.{List, [], ◌∷◌}
use bad_pen.Base.Exec.{Outcome, reply, panics, attempt, ◌>>=◌, ◌>>◌}
use bad_pen.Base.Result.{Error}
use bad_pen.CronJob.Pods.{job_owner_index}
use bad_pen.Programs.{Run, exit_on_error}
use bad_pen.Programs.Attempts.{
  ends, ends-fails, InOrder, exit_on_error-attempted, must-attempted, attempted, attempted-same,
  attempt_each, Follows, step-Follows, then-Attempts, exit-Attempts, Attempts, attempt_each-InOrder,
  Runs, attempt_each-Runs,
}
use bad_pen.Programs.CircleProgram.{
  Call, add_client_go_types, add_batch_types, new_manager, index_field, complete_controller,
  add_healthz_check, add_readyz_check, start_manager, Env, job_owner_key, try_call, must_call,
  complete, setup_with_manager, program,
}

module _ {K : Type 0} (env : Env K) where
  -- How the program ends after a call, if the call returns an error: `runtime.Must` panics with
  -- those of the scheme, and the others end the process with status 1.
  abbrev pub ended_by : List (Call K) → Call K → Option (Outcome ℕ ⊥)
  ended_by h add_client_go_types = ends panics (env.error_of h add_client_go_types)
  ended_by h add_batch_types = ends panics (env.error_of h add_batch_types)
  ended_by h c = ends (reply 1) (env.error_of h c)

  ended_by-fails : (h : List (Call K)) (c : Call K) → ended_by h c ≢ some (reply 0)
  ended_by-fails h add_client_go_types =
      ends-fails panics (env.error_of h add_client_go_types) (λ e. cc e)
  ended_by-fails h add_batch_types = ends-fails panics (env.error_of h add_batch_types) (λ e. cc e)
  ended_by-fails h new_manager = ends-fails (reply 1) (env.error_of h new_manager) (λ e. cc e)
  ended_by-fails h (index_field key index) =
      ends-fails (reply 1) (env.error_of h (index_field key index)) (λ e. cc e)
  ended_by-fails h (complete_controller clock) =
      ends-fails (reply 1) (env.error_of h (complete_controller clock)) (λ e. cc e)
  ended_by-fails h add_healthz_check =
      ends-fails (reply 1) (env.error_of h add_healthz_check) (λ e. cc e)
  ended_by-fails h add_readyz_check =
      ends-fails (reply 1) (env.error_of h add_readyz_check) (λ e. cc e)
  ended_by-fails h start_manager = ends-fails (reply 1) (env.error_of h start_manager) (λ e. cc e)

  try_call-Follows :
      (c : Call K)
      → ((h : List (Call K)) → ended_by h c ≡ ends (reply 1) (env.error_of h c))
      → Follows ended_by (try_call env c) (c ∷ []) tt
  unfolding try_call
  try_call-Follows c fails = step-Follows ended_by (try_call env c) c (λ k h.
      exit_on_error-attempted (env.error_of h c) k (c ∷ h)
      ∙ ap (λ o. attempted o (k tt) (c ∷ h)) (sym (fails h)))

  must_call-Follows :
      (c : Call K)
      → ((h : List (Call K)) → ended_by h c ≡ ends panics (env.error_of h c))
      → Follows ended_by (must_call env c) (c ∷ []) tt
  unfolding must_call
  must_call-Follows c fails = step-Follows ended_by (must_call env c) c (λ k h.
      must-attempted (env.error_of h c) k (c ∷ h)
      ∙ ap (λ o. attempted o (k tt) (c ∷ h)) (sym (fails h)))

  -- The pods' index by their CronJob, and the controller with the real clock.
  abbrev pub index : Call K
  unfolding job_owner_index
  index = index_field job_owner_key (job_owner_index env.ownership)

  abbrev pub completed : Call K
  completed = complete_controller (some env.real_clock)

  after_index :
      (rest : Run (Call K) ⊥) (ks : List (Call K)) (r : Option Error) (h : List (Call K))
      → Attempts ended_by rest ks
      → (attempt (complete env env.real_clock r) >>= (λ e. exit_on_error e >> rest)) h
        ≡ attempted (ends (reply 1) r) (attempt_each ended_by (completed ∷ ks)) h
  unfolding complete exit_on_error
  after_index rest ks (some e) h later = refl
  after_index rest ks none h later =
      let r = env.error_of h completed in
      exit_on_error-attempted r (λ x. rest) (completed ∷ h)
      ∙ attempted-same (ends (reply 1) r) rest (attempt_each ended_by ks) (completed ∷ h)
          (later.same (completed ∷ h))

  setup-Attempts :
      (rest : Run (Call K) ⊥) (ks : List (Call K))
      → Attempts ended_by rest ks
      → Attempts ended_by
          (attempt (setup_with_manager env none) >>= (λ e. exit_on_error e >> rest))
          (index ∷ completed ∷ ks)
  unfolding setup_with_manager
  setup-Attempts rest ks later = record {
    same = λ h. after_index rest ks (env.error_of h index) (index ∷ h) later;
  }

  -- The calls of the program, in the order of the source.
  abbrev pub plan : List (Call K)
  plan =
      add_client_go_types ∷ add_batch_types ∷ new_manager ∷ index ∷ completed ∷ add_healthz_check
      ∷ add_readyz_check ∷ start_manager ∷ []

  program-Attempts : Attempts ended_by (program env) plan
  unfolding program
  program-Attempts = then-Attempts ended_by (must_call-Follows add_client_go_types (λ h. refl)) (
      then-Attempts ended_by (must_call-Follows add_batch_types (λ h. refl)) (
        then-Attempts ended_by (try_call-Follows new_manager (λ h. refl)) (
          setup-Attempts _ (add_healthz_check ∷ add_readyz_check ∷ start_manager ∷ []) (
            then-Attempts ended_by (try_call-Follows add_healthz_check (λ h. refl)) (
              then-Attempts ended_by (try_call-Follows add_readyz_check (λ h. refl)) (
                then-Attempts ended_by (try_call-Follows start_manager (λ h. refl))
                  (exit-Attempts ended_by)))))))

  -- The program of the CronJob controller makes the calls of its plan in their order, and ends at
  -- the first that fails: every earlier call had no error, no later call is made, and the program
  -- ends as that call makes it, a panic for the schemes' and the status 1 for the others. So the
  -- manager is started only after pods are indexed by the CronJob that controls them, and the
  -- reconciler was given the real clock. The process ends with status 0 only after the manager has
  -- run.
  pub program-Runs :
      (h : List (Call K)) → Runs ended_by plan h (program env h) × InOrder plan h (program env h)
  program-Runs h = (
    subst (Runs ended_by plan h) (sym (program-Attempts.same h))
        (attempt_each-Runs ended_by plan h),
    subst (InOrder plan h) (sym (program-Attempts.same h))
        (attempt_each-InOrder ended_by ended_by-fails plan h),
  )
