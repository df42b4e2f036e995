-- ===== src/Programs/PodPrograms.antt =====
-- Three small programs that show the pods of a cluster: quickstart (quickstart/cmd/quickstart/
-- main.go), watcher (watcher/cmd/watcher/main.go) and informer (informer/cmd/informer/main.go). The
-- two that loop for ever run for a number of rounds here. The Object is that of the Greeter's queue.
pub mod Shown
mod Tests
use Prim.Native.Nat.{ℕ, zero, suc}
use Prim.Native.String.{String}
use mathlib.Core.Bool.{Bool, true, false}
use mathlib.Core.Option.{Option, none, some}
use mathlib.Core.List.{List, [], ◌∷◌}
use bad_pen.Base.{length}
use bad_pen.Base.Exec
use bad_pen.Base.Exec.{pure, exit, panic, call, ◌>>=◌, ◌>>◌, deferred}
use bad_pen.Base.Result.{Error, message, Result, ok, err}
use bad_pen.Kube.{Pod}
use bad_pen.Greeter.{Object, pod_object}

pub data Call : Type 0 where
  -- `List`, `Get` and `Watch` of the clientset's pods, and the end of a watch
  list_pods : Call
  get_pod : String → String → Call
  start_watch stop_watch : Call
  -- of an informer: the factory's `Start`, the wait for the caches, AddEventHandler, and its lister
  start_factory wait_for_cache_sync add_event_handler list_cached : Call
  -- lines of output: a number of pods, a pod, an event of a pod
  print_count : ℕ → Call
  print_pod : Pod → Call
  print_event : String → Pod → Call
  handle_error : String → Call
  sleep : Call

-- watch.Event
pub record Event : Type 0 where
  pub type : String
  pub object : Object

pub record Env : Type 0 where
  -- Whether machinery.NewClientset, or its text in quickstart, gives an error.
  pub clientset_error : Option Error
  pub listed : List Call → Result (List Pod)
  pub got : List Call → String → String → Result Pod
  -- `rand.Intn(n)`, for a positive `n`
  pub intn : List Call → ℕ → ℕ
  pub watch_error : List Call → Option Error
  -- The events on the watch's channel until it is closed.
  pub events : List Event
  pub caches_synced : List Call → Bool
  pub handler_error : List Call → Option Error
  pub cached : List Call → Result (List Pod)

abbrev pub Run : Type 0 → Type 0
Run A = Exec.Exec Call (Unit {0}) A

unfoldable pub panic_on : Option Error → Run (Unit {0})
panic_on none = pure tt
panic_on (some e) = panic

-- `if err != nil { panic(err) }`, and else the value.
unfoldable pub must : {A : Type 0} → Result A → Run A
must (ok a) = pure a
must (err e) = panic

-- `runtime.HandleError(err); return`
unfoldable pub return_on : Option Error → Run (Unit {0})
return_on none = pure tt
return_on (some e) = call (handle_error (message e)) (λ h. tt) >> exit tt

unfoldable pub or_return : {A : Type 0} → Result A → Run A
or_return (ok a) = pure a
or_return (err e) = call (handle_error (message e)) (λ h. tt) >> exit tt

-- `xs[i]`
unfoldable pub at_index : {A : Type 0} → List A → ℕ → Run A
at_index [] i = panic
at_index (x ∷ xs) zero = pure x
at_index (x ∷ xs) (suc i) = at_index xs i

-- `obj.(*corev1.Pod)`
unfoldable pub as_pod : Object → Run Pod
as_pod (pod_object pod) = pure pod
as_pod object = panic

-- The handlers of the informer program: each prints the pod of its event, by what happened to it.
unfoldable pub on_add : Object → Run (Unit {0})
unfolding as_pod
on_add object = do pod ← as_pod object; call (print_event "add" pod) (λ h. tt)

unfoldable pub on_update : Object → Object → Run (Unit {0})
unfolding as_pod
on_update old_object new_object = do
  pod ← as_pod new_object
  call (print_event "modified" pod) (λ h. tt)

unfoldable pub on_delete : Object → Run (Unit {0})
unfolding as_pod
on_delete object = do pod ← as_pod object; call (print_event "deleted" pod) (λ h. tt)

-- The loop of the watcher.
unfoldable pub watch_each : List Event → Run (Unit {0})
unfolding as_pod
watch_each [] = pure tt
watch_each (e ∷ events) = do
  pod ← as_pod e.object
  call (print_event e.type pod) (λ h. tt)
  watch_each events

module _ (env : Env) where
  -- `rand.Intn`, which panics unless its argument is positive.
  unfoldable pub random_below : ℕ → Run ℕ
  random_below zero h = panic h
  random_below (suc n) h = pure (env.intn h (suc n)) h

  -- A round of quickstart: the number of pods, and one of them in full.
  unfoldable pub show_some : Run (Unit {0})
  unfolding must random_below at_index
  show_some = do
    answer ← call list_pods env.listed
    pods ← must answer
    call (print_count (length pods)) (λ h. tt)
    i ← random_below (length pods)
    chosen ← at_index pods i
    found ←
        call (get_pod chosen.meta.namespace chosen.meta.name)
          (λ h. env.got h chosen.meta.namespace chosen.meta.name)
    pod ← must found
    call (print_pod pod) (λ h. tt)
    call sleep (λ h. tt)

  unfoldable pub rounds : Run (Unit {0}) → ℕ → Run (Unit {0})
  rounds round zero = pure tt
  rounds round (suc n) = round >> rounds round n

  -- `main` of quickstart
  unfoldable pub quickstart : ℕ → Run (Unit {0})
  unfolding panic_on show_some rounds
  quickstart n = panic_on env.clientset_error >> rounds show_some n

  -- `main` of watcher
  unfoldable pub watcher : Run (Unit {0})
  unfolding panic_on watch_each
  watcher = do
    panic_on env.clientset_error
    failed_watch ← call start_watch env.watch_error
    panic_on failed_watch
    deferred stop_watch (watch_each env.events)

  -- A round of informer.
  unfoldable pub show_cached : Run (Unit {0})
  unfolding or_return
  show_cached = do
    answer ← call list_cached env.cached
    pods ← or_return answer
    call (print_count (length pods)) (λ h. tt)
    call sleep (λ h. tt)

  unfoldable pub after_sync : ℕ → Bool → Run (Unit {0})
  unfolding return_on rounds show_cached
  after_sync n false =
      call (handle_error "timed out waiting for caches to sync") (λ h. tt) >> exit tt
  after_sync n true = do
    failed_handler ← call add_event_handler env.handler_error
    return_on failed_handler
    rounds show_cached n

  -- `main` of informer
  unfoldable pub informer : ℕ → Run (Unit {0})
  unfolding panic_on after_sync
  informer n = do
    panic_on env.clientset_error
    call start_factory (λ h. tt)
    synced ← call wait_for_cache_sync env.caches_synced
    after_sync n synced
