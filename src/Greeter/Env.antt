-- ===== src/Greeter/Env.antt =====
-- What the Greeter controller calls: its work queue, the caches, the API server, the event recorder
-- and the clock. An answer may depend on all calls made before.
use Prim.Native.String.{String}
use mathlib.Core.Bool.{Bool}
use mathlib.Core.Option.{Option}
use mathlib.Core.List.{List}
use bad_pen.Base.Exec
use bad_pen.Base.Result.{Result}
use bad_pen.Time.{Instant, Duration}
use bad_pen.Kube.{Pod, Ownership}
use bad_pen.Greeter.{Greeter, Object}
use bad_pen.Lister.{Indexer}

-- The type of a recorded event (corev1.EventTypeNormal, corev1.EventTypeWarning).
pub data EventType : Type 0 where
  normal warning : EventType

pub data Call : Type 0 where
  -- workqueue.RateLimitingInterface
  get_item : Call
  done forget : Object → Call
  add add_rate_limited : String → Call
  add_after : String → Duration → Call
  -- the caches of Greeters and pods, by namespace and name
  read_greeter read_pod : String → String → Call
  -- the API server
  create_pod : Pod → Call
  update_status : Greeter → Call
  -- the recorder, the clock, and utilruntime.HandleError
  record_event : Greeter → EventType → String → String → Call
  read_clock : Call
  handle_error : String → Call
  -- `Run`: cache.WaitForCacheSync, a worker's goroutine, the end of the context, and ShutDown
  wait_for_cache_sync start_worker await_cancel shut_down : Call

pub record Env : Type 0 where
  -- `none` says that the queue is shut down.
  pub queue_get : List Call → Option Object
  pub greeter_cache : List Call → Indexer
  pub pod_get : List Call → String → String → Result Pod
  pub create_answer : List Call → Pod → Result Pod
  pub update_answer : List Call → Greeter → Result Greeter
  pub caches_synced : List Call → Bool
  pub now : List Call → Instant
  -- `time.ParseInLocation` in the machine's time zone
  pub parse_local : String → Result Instant
  -- `cache.MetaNamespaceKeyFunc` and `cache.SplitMetaNamespaceKey`
  pub key_of : Object → Result String
  pub split_key : String → Result (String × String)
  pub ownership : Ownership
  -- `fmt`'s verb %#v
  pub go_syntax : Object → String

-- A function of the controller that returns early with an `R`.
abbrev pub Run : Type 0 → Type 0 → Type 0
Run R A = Exec.Exec Call R A
