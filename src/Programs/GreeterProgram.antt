-- ===== src/Programs/GreeterProgram.antt =====
-- `main` of the Greeter controller (greeter/main.go), and what it makes of the informer factory: the
-- controller of `NewController` (greeter/internal/greeter/controller.go).
mod Ends
mod Tests
pub mod Startup
use Prim.Native.Nat.{ℕ}
use Prim.Native.String.{String}
use mathlib.Core.Option.{Option, none, some}
use mathlib.Core.List.{List, [], ◌∷◌}
use bad_pen.Base.Int.{ℤ, pos}
use bad_pen.Base.Exec.{pure, exit, panic, call, ◌>>=◌, ◌>>◌}
use bad_pen.Base.Result.{Error}
use bad_pen.Client.Rest.{Server}
use bad_pen.Factory.{Factory, new_shared_informer_factory, start}
use bad_pen.Factory.Greeters.{Tweak, Cache, GreeterInformer, greeters, informer, lister}
use bad_pen.Lister.{GreeterLister}
use bad_pen.Programs.{Run, exit_on_error, must}

-- The fields of a controller that come from the informer of Greeters, and the informer that its
-- handlers of Greeters were added to.
pub record Controller (I : Type 0) : Type 0 where
  pub greeter_lister : GreeterLister
  pub greeter_synced : I  -- the informer whose HasSynced it is
  pub greeter_events : I

pub data Call (I : Type 0) : Type 0 where
  -- clientcmd.BuildConfigFromFlags, kubernetes.NewForConfig and clientset.NewForConfig
  build_config new_kube_clientset new_greeter_clientset : Call I
  -- `NewController`: AddToScheme, the event broadcaster, and AddEventHandler of each informer
  add_to_scheme start_recording add_pod_handlers : Call I
  add_greeter_handlers : I → Call I
  -- `Start` of the factories, with the informers that the second one has launched, the latest
  -- first
  start_kube_factory : Call I
  start_greeter_factory : List (String × I) → Call I
  -- `Run` of the controller, with its number of workers
  run_controller : Controller I → ℤ → Call I

pub record Env (Watch I : Type 0) : Type 0 where
  -- The error that a call returns after those before it.
  pub error_of : List (Call I) → Call I → Option Error
  pub cache : Cache Watch I
  -- The clientset that NewForConfig gives.
  pub client : Server Watch

abbrev pub SharedFactory : Type 0 → Type 0 → Type 0
SharedFactory Watch I = Factory (Server Watch) I Tweak

module _ {Watch I : Type 0} (env : Env Watch I) where
  -- What `NewController` asks of the informer of Greeters.
  unfoldable pub controller_of :
      GreeterInformer → SharedFactory Watch I → Controller I × SharedFactory Watch I
  unfolding lister informer
  controller_of f factory =
      let (l, factory1) = lister env.cache f factory in
      let (synced, factory2) = informer env.cache f factory1 in
      let (events, factory3) = informer env.cache f factory2 in
      (record { greeter_lister = l; greeter_synced = synced; greeter_events = events }, factory3)

  -- A call that may fail.
  unfoldable pub try_call : Call I → Run (Call I) (Unit {0})
  unfolding exit_on_error
  try_call c = call c (λ h. env.error_of h c) >>= exit_on_error

  unfoldable pub must_call : Call I → Run (Call I) (Unit {0})
  unfolding must
  must_call c = call c (λ h. env.error_of h c) >>= must

  unfoldable pub register_handlers : Controller I → Run (Call I) (Unit {0})
  unfolding must_call try_call
  register_handlers c = do
    must_call add_to_scheme
    call start_recording (λ h. tt)
    try_call (add_greeter_handlers c.greeter_events)
    try_call add_pod_handlers

  -- `NewController`
  unfoldable pub new_controller :
      GreeterInformer → SharedFactory Watch I → Run (Call I) (Controller I × SharedFactory Watch I)
  unfolding controller_of register_handlers
  new_controller f factory =
      let (c, factory') = controller_of f factory in register_handlers c >> pure (c, factory')

  unfoldable pub start_and_run : Controller I × SharedFactory Watch I → Run (Call I) ⊥
  unfolding start try_call
  start_and_run (c, factory) = do
    call start_kube_factory (λ h. tt)
    call (start_greeter_factory (Factory.launched (start factory))) (λ h. tt)
    try_call (run_controller c (pos 2))
    exit 0

  -- `main`, whose reply is the status that the process ends with.
  unfoldable pub main : Run (Call I) ⊥
  unfolding try_call new_controller greeters new_shared_informer_factory start_and_run
  main = do
    try_call build_config
    try_call new_kube_clientset
    try_call new_greeter_clientset
    let factory = new_shared_informer_factory env.client (pos 30000000000)
    made ← new_controller (greeters env.cache factory) factory
    start_and_run made
