-- ===== src/CronJob/Env.antt =====
-- What the CronJob controller calls: the API server through controller-runtime's client, the
-- clock, the cron parser, and library functions on times and objects. An answer may depend on all
-- calls made before, so that a theorem about every environment covers concurrent changes.
use Prim.Native.String.{String}
use mathlib.Core.Bool.{Bool}
use mathlib.Core.Option.{Option}
use mathlib.Core.List.{List}
use bad_pen.Base.Exec
use bad_pen.Base.Result.{Error, Result}
use bad_pen.Time.{Instant, Duration}
use bad_pen.Kube.{Pod}
use bad_pen.CronJob.{CronJob, ObjectReference}
use bad_pen.CronJob.Schedule.{Next}

-- ctrl.Request's NamespacedName
pub record Request : Type 0 where
  pub namespace : String
  pub name : String

pub data Call : Type 0 where
  get_cron_job : Request → Call
  list_pods : String → String → Call  -- the namespace, and the name of the owner
  update_status : CronJob → Call
  delete_pod : Pod → Call
  create_pod : Pod → Call
  read_clock : Call

-- `Reconcile`'s two results: ctrl.Result, which the program sets to a requeue delay or leaves
-- empty, and the error.
pub record Reply : Type 0 where
  pub requeue_after : Duration
  pub error : Option Error

pub record Env : Type 0 where
  pub get_answer : List Call → Request → Result CronJob
  pub list_answer : List Call → String → String → Result (List Pod)
  -- The server answers an update with the object that it has stored, and the client decodes that
  -- into the caller's variable.
  pub update_answer : List Call → CronJob → Result CronJob
  pub delete_answer : List Call → Pod → Option Error
  pub create_answer : List Call → Pod → Option Error
  pub now : List Call → Instant
  pub get_reference : Pod → Result ObjectReference
  pub set_controller_reference : CronJob → Pod → Result Pod
  pub parse_standard : String → Result Next
  pub parse_rfc3339 : String → Result Instant
  pub format_rfc3339 : Instant → String
  -- sort.Slice, whose order among equal elements is not specified
  pub sort_slice : (Pod → Pod → Bool) → List Pod → List Pod

abbrev pub Run : Type 0 → Type 0
Run A = Exec.Exec Call Reply A
