-- ===== src/Programs/GreeterProgram/Startup.antt =====
-- The order of what `main` of the Greeter controller does (greeter/main.go), and the informer that
-- its controller and its factory share.
use mathlib.Core.Path.{◌≡◌, refl, sym, subst}
use mathlib.Core.List.{List, [], ◌∷◌}
use bad_pen.Base.{lookup, insert}
use bad_pen.Base.Int.{pos}
use bad_pen.Factory.{
  Factory, new_shared_informer_factory, new_shared_informer_factory_with_options, apply_options,
  informer_for, found_or_new, resync_period, start, start_each, launch, marked,
}
use bad_pen.Factory.Greeters.{greeters, informer, lister, default_informer}
use bad_pen.Lister.{new_greeter_lister}
use bad_pen.Programs.Attempts.{
  Follows, InOrder, call-Follows, pure-Follows, then-Follows, then-Attempts, bind-Attempts,
  exit-Attempts, Attempts, attempt_each-InOrder, Runs, attempt_each-Runs,
}
use bad_pen.Programs.GreeterProgram.Ends.{
  ended_by, ended_by-fails, try_call-Follows, must_call-Follows,
}
use bad_pen.Programs.GreeterProgram.{
  Controller, Call, build_config, new_kube_clientset, new_greeter_clientset, add_to_scheme,
  start_recording, add_pod_handlers, add_greeter_handlers, start_kube_factory,
  start_greeter_factory, run_controller, Env, SharedFactory, controller_of, register_handlers,
  new_controller, start_and_run, main,
}

module _ {Watch I : Type 0} (env : Env Watch I) where
  abbrev new_factory : SharedFactory Watch I
  unfolding new_shared_informer_factory new_shared_informer_factory_with_options apply_options
  new_factory = new_shared_informer_factory env.client (pos 30000000000)

  -- The informer of Greeters that a new factory makes.
  abbrev pub greeter_informer : I
  unfolding default_informer greeters new_shared_informer_factory
      new_shared_informer_factory_with_options apply_options
  greeter_informer =
      default_informer env.cache (greeters env.cache new_factory) env.client (pos 30000000000)

  -- A controller that reads, waits for and is told by that informer.
  abbrev pub wired : Controller I
  unfolding new_greeter_lister
  wired = record {
    greeter_lister = new_greeter_lister (env.cache.get_indexer greeter_informer);
    greeter_synced = greeter_informer;
    greeter_events = greeter_informer;
  }

  controller-wired : (controller_of env (greeters env.cache new_factory) new_factory).0 ≡ wired
  unfolding controller_of lister informer informer_for found_or_new resync_period lookup insert
      new_shared_informer_factory new_shared_informer_factory_with_options apply_options greeters
      new_greeter_lister
  controller-wired = refl

  controller-launched :
      Factory.launched (start (controller_of env (greeters env.cache new_factory) new_factory).1)
      ≡ ("v1alpha1.Greeter", greeter_informer) ∷ []
  unfolding controller_of lister informer informer_for found_or_new resync_period lookup insert
      new_shared_informer_factory new_shared_informer_factory_with_options apply_options greeters
      start start_each launch marked
  controller-launched = refl

  -- The calls of `main`, in the order of the source.
  abbrev pub plan : List (Call I)
  plan =
      build_config
      ∷ new_kube_clientset
      ∷ new_greeter_clientset
      ∷ add_to_scheme
      ∷ start_recording
      ∷ add_greeter_handlers greeter_informer
      ∷ add_pod_handlers
      ∷ start_kube_factory
      ∷ start_greeter_factory (("v1alpha1.Greeter", greeter_informer) ∷ [])
      ∷ run_controller wired (pos 2)
      ∷ []

  register_handlers-Follows :
      (c : Controller I)
      → Follows
          (ended_by env)
          (register_handlers env c)
          (add_to_scheme
            ∷ start_recording
            ∷ add_greeter_handlers c.greeter_events
            ∷ add_pod_handlers
            ∷ [])
          tt
  unfolding register_handlers
  register_handlers-Follows c =
      then-Follows (ended_by env) (must_call-Follows env add_to_scheme (λ h. refl)) (
        then-Follows (ended_by env) (call-Follows (ended_by env) start_recording (λ h. refl)) (
          then-Follows (ended_by env)
            (try_call-Follows env (add_greeter_handlers c.greeter_events) (λ h. refl))
            (try_call-Follows env add_pod_handlers (λ h. refl))))

  -- `NewController` for a new factory.
  abbrev made_controller : Controller I × SharedFactory Watch I
  unfolding controller_of
  made_controller = controller_of env (greeters env.cache new_factory) new_factory

  new_controller-Follows :
      Follows
        (ended_by env)
        (new_controller env (greeters env.cache new_factory) new_factory)
        (add_to_scheme
          ∷ start_recording
          ∷ add_greeter_handlers made_controller.0.greeter_events
          ∷ add_pod_handlers
          ∷ [])
        made_controller
  unfolding new_controller
  new_controller-Follows =
      then-Follows (ended_by env) (register_handlers-Follows made_controller.0)
        (pure-Follows (ended_by env) made_controller)

  start_and_run-Attempts :
      (c : Controller I) (factory : SharedFactory Watch I)
      → Attempts (ended_by env) (start_and_run env (c, factory)) (
          start_kube_factory
          ∷ start_greeter_factory (Factory.launched (start factory))
          ∷ run_controller c (pos 2)
          ∷ [])
  unfolding start_and_run
  start_and_run-Attempts c factory =
      let launched = Factory.launched (start factory) in
      then-Attempts (ended_by env) (call-Follows (ended_by env) start_kube_factory (λ h. refl)) (
        then-Attempts (ended_by env)
          (call-Follows (ended_by env) (start_greeter_factory launched) (λ h. refl))
          (then-Attempts (ended_by env)
            (try_call-Follows env (run_controller c (pos 2)) (λ h. refl))
            (exit-Attempts (ended_by env))))

  main-Attempts : Attempts (ended_by env) (main env) plan
  unfolding main
  main-Attempts = then-Attempts (ended_by env) (try_call-Follows env build_config (λ h. refl)) (
      then-Attempts (ended_by env) (try_call-Follows env new_kube_clientset (λ h. refl)) (
        then-Attempts (ended_by env) (try_call-Follows env new_greeter_clientset (λ h. refl)) (
          bind-Attempts (ended_by env) (start_and_run env) new_controller-Follows
            (start_and_run-Attempts made_controller.0 made_controller.1))))

  -- `main` makes the calls of its plan in their order, and ends at the first that fails: every
  -- earlier call had no error, no later call is made, and the program ends as that call makes it, a
  -- panic for the scheme's and the status 1 for the others. So, whatever fails, the handlers of both
  -- informers are added before a factory is started, and the controller runs only once everything
  -- before it was done. The process ends with status 0 only after the controller has run. The
  -- controller reads the cache of one informer, waits for its sync and is told its events, and that
  -- informer is the one, and the only one, that the Greeter factory launches.
  pub main-Runs :
      (h : List (Call I)) → Runs (ended_by env) plan h (main env h) × InOrder plan h (main env h)
  main-Runs h = (
    subst (Runs (ended_by env) plan h) (sym (main-Attempts.same h))
        (attempt_each-Runs (ended_by env) plan h),
    subst (InOrder plan h) (sym (main-Attempts.same h))
        (attempt_each-InOrder (ended_by env) (ended_by-fails env) plan h),
  )
