-- ===== src/Programs/GreeterProgram/Ends.antt =====
-- How `main` of the Greeter controller ends when a call fails (greeter/main.go).
use Prim.Native.Nat.{ℕ}
use mathlib.Core.Path.{◌≡◌, ap, sym, ◌∙◌}
use mathlib.Core.Logic.{◌≢◌}
use mathlib.Core.Option.{Option, none, some}
use mathlib.Core.List.{List, [], ◌∷◌}
use bad_pen.Base.Exec.{Outcome, reply, panics}
use bad_pen.Programs.Attempts.{
  ends, ends-fails, exit_on_error-attempted, must-attempted, attempted, Follows, step-Follows,
}
use bad_pen.Programs.GreeterProgram.{
  Call, build_config, new_kube_clientset, new_greeter_clientset, add_to_scheme, start_recording,
  add_pod_handlers, add_greeter_handlers, start_kube_factory, start_greeter_factory, run_controller,
  Env, try_call, must_call,
}

module _ {Watch I : Type 0} (env : Env Watch I) where
  -- How the program ends after a call, if the call returns an error: `runtime.Must` panics with that
  -- of the scheme, and the others end the process with status 1. The calls that make the recorder
  -- and start the factories return no error.
  abbrev pub ended_by : List (Call I) → Call I → Option (Outcome ℕ ⊥)
  ended_by h start_recording = none
  ended_by h start_kube_factory = none
  ended_by h (start_greeter_factory launched) = none
  ended_by h add_to_scheme = ends panics (env.error_of h add_to_scheme)
  ended_by h c = ends (reply 1) (env.error_of h c)

  pub ended_by-fails : (h : List (Call I)) (c : Call I) → ended_by h c ≢ some (reply 0)
  ended_by-fails h start_recording = λ e. cc e
  ended_by-fails h start_kube_factory = λ e. cc e
  ended_by-fails h (start_greeter_factory launched) = λ e. cc e
  ended_by-fails h add_to_scheme = ends-fails panics (env.error_of h add_to_scheme) (λ e. cc e)
  ended_by-fails h build_config = ends-fails (reply 1) (env.error_of h build_config) (λ e. cc e)
  ended_by-fails h new_kube_clientset =
      ends-fails (reply 1) (env.error_of h new_kube_clientset) (λ e. cc e)
  ended_by-fails h new_greeter_clientset =
      ends-fails (reply 1) (env.error_of h new_greeter_clientset) (λ e. cc e)
  ended_by-fails h add_pod_handlers =
      ends-fails (reply 1) (env.error_of h add_pod_handlers) (λ e. cc e)
  ended_by-fails h (add_greeter_handlers i) =
      ends-fails (reply 1) (env.error_of h (add_greeter_handlers i)) (λ e. cc e)
  ended_by-fails h (run_controller c workers) =
      ends-fails (reply 1) (env.error_of h (run_controller c workers)) (λ e. cc e)

  pub try_call-Follows :
      (c : Call I)
      → ((h : List (Call I)) → ended_by h c ≡ ends (reply 1) (env.error_of h c))
      → Follows ended_by (try_call env c) (c ∷ []) tt
  unfolding try_call
  try_call-Follows c fails = step-Follows ended_by (try_call env c) c (λ k h.
      exit_on_error-attempted (env.error_of h c) k (c ∷ h)
      ∙ ap (λ o. attempted o (k tt) (c ∷ h)) (sym (fails h)))

  pub must_call-Follows :
      (c : Call I)
      → ((h : List (Call I)) → ended_by h c ≡ ends panics (env.error_of h c))
      → Follows ended_by (must_call env c) (c ∷ []) tt
  unfolding must_call
  must_call-Follows c fails = step-Follows ended_by (must_call env c) c (λ k h.
      must-attempted (env.error_of h c) k (c ∷ h)
      ∙ ap (λ o. attempted o (k tt) (c ∷ h)) (sym (fails h)))
