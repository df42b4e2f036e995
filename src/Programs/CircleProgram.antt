-- ===== src/Programs/CircleProgram.antt =====
-- `main` and `init` of the CronJob controller (circle/cmd/main.go), with `SetupWithManager` of its
-- reconciler (circle/internal/controller/cronjob_controller.go). The manager is controller-runtime's.
pub mod Setup
use Prim.Native.String.{String}
use mathlib.Core.Option.{Option, none, some}
use mathlib.Core.List.{List}
use bad_pen.Base.Exec.{call, exit, attempt, ◌>>=◌, ◌>>◌}
use bad_pen.Base.Exec
use bad_pen.Base.Result.{Error}
use bad_pen.Kube.{Ownership}
use bad_pen.CronJob.Pods.{Object, job_owner_index}
use bad_pen.Programs.{Run, exit_on_error, must}

-- The type of clocks is a parameter.
pub data Call (K : Type 0) : Type 0 where
  -- AddToScheme of the libraries' types and of the CronJob's
  add_client_go_types add_batch_types : Call K
  new_manager : Call K
  -- GetFieldIndexer().IndexField for pods, with its key and function
  index_field : String → (Object → List String) → Call K
  -- NewControllerManagedBy(mgr).For(...).Complete(r), for a reconciler with that clock
  complete_controller : Option K → Call K
  add_healthz_check add_readyz_check start_manager : Call K

pub record Env (K : Type 0) : Type 0 where
  -- The error that a call returns after those before it.
  pub error_of : List (Call K) → Call K → Option Error
  pub real_clock : K
  pub ownership : Ownership

abbrev pub job_owner_key : String
job_owner_key = ".metadata.controlled-by"

module _ {K : Type 0} (env : Env K) where
  unfoldable pub try_call : Call K → Run (Call K) (Unit {0})
  unfolding exit_on_error
  try_call c = call c (λ h. env.error_of h c) >>= exit_on_error

  unfoldable pub must_call : Call K → Run (Call K) (Unit {0})
  unfolding must
  must_call c = call c (λ h. env.error_of h c) >>= must

  -- `if r.Clock == nil { r.Clock = realClock{} }`
  abbrev pub clock_of : Option K → K
  clock_of none = env.real_clock
  clock_of (some clock) = clock

  unfoldable pub complete : K → Option Error → Exec.Exec (Call K) (Option Error) ⊥
  complete clock (some e) = exit (some e)
  complete clock none =
      call (complete_controller (some clock))
        (λ h. env.error_of h (complete_controller (some clock)))
      >>= exit

  -- `SetupWithManager` of a reconciler with that clock, or none.
  unfoldable pub setup_with_manager : Option K → Exec.Exec (Call K) (Option Error) ⊥
  unfolding complete job_owner_index
  setup_with_manager clock =
      let index = index_field job_owner_key (job_owner_index env.ownership) in
      call index (λ h. env.error_of h index) >>= complete (clock_of clock)

  -- `init` and then `main`, which makes a reconciler with no clock.
  unfoldable pub program : Run (Call K) ⊥
  unfolding must_call try_call setup_with_manager exit_on_error
  program = do
    must_call add_client_go_types
    must_call add_batch_types
    try_call new_manager
    setup_error ← attempt (setup_with_manager none)
    exit_on_error setup_error
    try_call add_healthz_check
    try_call add_readyz_check
    try_call start_manager
    exit 0
