-- ===== src/Greeter/Queue.antt =====
-- The work queue of greeter/internal/greeter/controller.go: the workers that empty it
-- (`Run`, `runWorker`, `processNextWorkItem`) and the handlers that fill it (`enqueueGreeter`,
-- `enqueuePod`, and those that `NewController` registers). Logging is left out.
pub mod Protocol
pub mod Worker
pub mod Enqueue
use Prim.Native.Nat.{ℕ, zero, suc}
use Prim.Native.String
use Prim.Native.String.{String}
use mathlib.Core.Bool.{Bool, true, false}
use mathlib.Core.Option.{Option, none, some}
use mathlib.Core.List.{List, [], ◌∷◌}
use package.text.Mathlib.Text.{◌==◌}
use bad_pen.Base.{if◌then◌else◌}
use bad_pen.Base.Int.{ℤ, pos, negsuc, pos_part}
use bad_pen.Base.Exec.{pure, exit, panic, call, ◌>>=◌, ◌>>◌, attempt, deferred}
use bad_pen.Base.Result.{Error, failed, message, Result, ok, err, Checked, returned, panicked}
use bad_pen.Time.{Duration}
use bad_pen.Kube.{Pod, OwnerReference, Ownership}
use bad_pen.Greeter.{Greeter, Object, greeter_object, pod_object, tombstone, text, other_object}
use bad_pen.Greeter.Env.{
  get_item, done, forget, add, add_rate_limited, add_after, read_greeter, handle_error,
  wait_for_cache_sync, start_worker, await_cancel, shut_down, Env, Run,
}
use bad_pen.Greeter.Sync.{Synced, greeter_kind, sync_handler}
use bad_pen.Lister

-- `when != 0`
unfoldable pub is_set : Duration → Bool
is_set (pos zero) = false
is_set (pos (suc n)) = true
is_set (negsuc n) = true

-- What is done with a key after `syncHandler` returned.
unfoldable pub settle_key : String → Synced → Run (Option Error) ⊥
unfolding is_set
settle_key key (when, some e) =
    call (add_rate_limited key) (λ h. tt)
    >> exit (
        some (
          failed (
            String.◌++◌ "error syncing '"
              (String.◌++◌ key (String.◌++◌ "': " (String.◌++◌ (message e) ", requeuing"))))))
settle_key key (when, none) =
    if is_set when
    then (call (add_after key when) (λ h. tt) >> exit none)
    else (call (forget (text key)) (λ h. tt) >> exit none)

-- An item that is no text is dropped.
drop_item : String → Object → Run (Option Error) ⊥
drop_item shown object =
    call (forget object) (λ h. tt)
    >> call (handle_error (String.◌++◌ "expected string in workqueue but got " shown)) (λ h. tt)
    >> exit none

report : Option Error → Run Bool (Unit {0})
report none = pure tt
report (some e) = call (handle_error (message e)) (λ h. tt)

-- The loop of `Run` that starts the workers.
unfoldable pub start_workers : ℕ → Run (Option Error) (Unit {0})
start_workers zero = pure tt
start_workers (suc n) = call start_worker (λ h. tt) >> start_workers n

module _ (env : Env) where
  -- The block in `processNextWorkItem`, without its `defer`.
  unfoldable pub process_object : Object → Run (Option Error) ⊥
  unfolding drop_item settle_key
  process_object (text key) = do synced ← attempt (sync_handler env key); settle_key key synced
  process_object (greeter_object greeter) =
      drop_item (env.go_syntax (greeter_object greeter)) (greeter_object greeter)
  process_object (pod_object pod) = drop_item (env.go_syntax (pod_object pod)) (pod_object pod)
  process_object (tombstone object) =
      drop_item (env.go_syntax (tombstone object)) (tombstone object)
  process_object other_object = drop_item (env.go_syntax other_object) other_object

  unfoldable pub process_got : Option Object → Run Bool ⊥
  unfolding report
  process_got none = exit false
  process_got (some object) = do
    e ← attempt (deferred (done object) (process_object object))
    report e
    exit true

  -- `processNextWorkItem`
  unfoldable pub process_next_work_item : Run Bool ⊥
  unfolding process_got
  process_next_work_item = call get_item env.queue_get >>= process_got

  -- `runWorker`, for at most that many items: a reply says that it returned, a value that it has
  -- processed them all and would go on.
  unfoldable pub run_worker : ℕ → Run (Unit {0}) (Unit {0})
  run_worker zero = pure tt
  run_worker (suc n) =
      let rest = run_worker n in
      attempt process_next_work_item >>= (λ more. if more then rest else exit tt)

  unfoldable pub run_synced : ℤ → Bool → Run (Option Error) ⊥
  unfolding start_workers
  run_synced workers false = exit (some (failed "failed to wait for caches to sync"))
  run_synced workers true =
      start_workers (pos_part workers) >> call await_cancel (λ h. tt) >> exit none

  -- `Run`
  unfoldable pub run : ℤ → Run (Option Error) ⊥
  unfolding run_synced
  run workers =
      deferred shut_down (call wait_for_cache_sync env.caches_synced >>= run_synced workers)

  unfoldable pub add_key : Result String → Run (Unit {0}) ⊥
  add_key (err e) = call (handle_error (message e)) (λ h. tt) >> exit tt
  add_key (ok key) = call (add key) (λ h. tt) >> exit tt

  -- `enqueueGreeter`
  unfoldable pub enqueue_greeter : Object → Run (Unit {0}) ⊥
  unfolding add_key
  enqueue_greeter object = add_key (env.key_of object)

  unfoldable pub enqueue_controlling : Pod → Checked (Result Greeter) → Run (Unit {0}) ⊥
  enqueue_controlling pod panicked = panic
  enqueue_controlling pod (returned (err e)) = exit tt
  enqueue_controlling pod (returned (ok greeter)) =
      if Ownership.is_controlled_by env.ownership pod.meta greeter.meta
      then enqueue_greeter (greeter_object greeter)
      else exit tt

  unfoldable pub enqueue_owner : Pod → Option OwnerReference → Run (Unit {0}) ⊥
  unfolding enqueue_controlling
  enqueue_owner pod none = exit tt
  enqueue_owner pod (some owner) =
      if owner.kind == greeter_kind
      then (call (read_greeter pod.meta.namespace owner.name) (λ h.
            Lister.get
              (Lister.greeters (Lister.new_greeter_lister (env.greeter_cache h)) pod.meta.namespace)
              owner.name)
          >>= enqueue_controlling pod)
      else exit tt

  unfoldable pub enqueue_found : Pod → Run (Unit {0}) ⊥
  unfolding enqueue_owner
  enqueue_found pod = enqueue_owner pod (Ownership.get_controller_of env.ownership pod.meta)

  invalid_pod : String → Run (Unit {0}) ⊥
  invalid_pod complaint = call (handle_error complaint) (λ h. tt) >> exit tt

  -- `enqueuePod`
  unfoldable pub enqueue_pod : Object → Run (Unit {0}) ⊥
  unfolding enqueue_found invalid_pod
  enqueue_pod (pod_object pod) = enqueue_found pod
  enqueue_pod (tombstone (pod_object pod)) = enqueue_found pod
  enqueue_pod (tombstone (greeter_object greeter)) =
      invalid_pod "error decoding pod tombstone, invalid type"
  enqueue_pod (tombstone (tombstone object)) =
      invalid_pod "error decoding pod tombstone, invalid type"
  enqueue_pod (tombstone (text s)) = invalid_pod "error decoding pod tombstone, invalid type"
  enqueue_pod (tombstone other_object) = invalid_pod "error decoding pod tombstone, invalid type"
  enqueue_pod (greeter_object greeter) = invalid_pod "error decoding pod, invalid type"
  enqueue_pod (text s) = invalid_pod "error decoding pod, invalid type"
  enqueue_pod other_object = invalid_pod "error decoding pod, invalid type"

-- cache.ResourceEventHandlerFuncs: a function that is not set handles its event by doing nothing.
pub record HandlerFuncs : Type 0 where
  pub add_func : Option (Object → Run (Unit {0}) ⊥)
  pub update_func : Option (Object → Object → Run (Unit {0}) ⊥)
  pub delete_func : Option (Object → Run (Unit {0}) ⊥)

-- The handlers of `NewController` for Greeters and for pods.
unfoldable pub greeter_handlers : Env → HandlerFuncs
greeter_handlers env = record {
  add_func = some (enqueue_greeter env);
  update_func = some (λ old_object new_object. enqueue_greeter env new_object);
  delete_func = none;
}

unfoldable pub pod_handlers : Env → HandlerFuncs
pod_handlers env = record {
  add_func = some (enqueue_pod env);
  update_func = some (λ old_object new_object. enqueue_pod env new_object);
  delete_func = none;
}
