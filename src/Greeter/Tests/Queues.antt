-- ===== src/Greeter/Tests/Queues.antt =====
-- The theorems on the work queue, for a queue of one item.
use Prim.Native.Nat.{◌≤◌}
use mathlib.Core.Path.{◌≡◌, refl}
use mathlib.Core.Logic.{◌⊎◌}
use mathlib.Core.Option.{none, some}
use mathlib.Core.List.{List, [], ◌∷◌, ◌++◌}
use native.Mathlib.Omega.{arith}
use bad_pen.Base.Exec.{reply}
use bad_pen.Kube.{Pod, OwnerReference}
use bad_pen.Greeter.{Greeter, pod_object, text}
use bad_pen.Greeter.Env.{Call, get_item, done, add, read_greeter, Env}
use bad_pen.Greeter.Sync.{sync_handler}
use bad_pen.Greeter.Sync.Effects.{queue_calls}
use bad_pen.Greeter.Queue.{process_next_work_item, run_worker, enqueue_pod}
use bad_pen.Greeter.Queue.Protocol.{verdict, process_next_work_item-queue}
use bad_pen.Greeter.Queue.Worker.{gets, run_worker_returns}
use bad_pen.Greeter.Queue.Enqueue.{pod_of, Adds, IsOwnerOf, enqueue_pod_adds, enqueue_pod_only}
use bad_pen.Greeter.Tests.{
  meta_named, ref_to, greeter_in, own_pod, no_pod, cluster, cache-IsTyped, ten_oclock,
  ownership_laws,
}
use bad_pen.Lister

abbrev env : Env
env = cluster (greeter_in "Running") no_pod ten_oclock

process_next_work_item-queue_example :
    queue_calls (process_next_work_item env []).1
    ≡ done (text "default/hello")
        ∷ verdict "default/hello" (sync_handler env "default/hello" (get_item ∷ [])).0
      ++ get_item ∷ []
process_next_work_item-queue_example = process_next_work_item-queue env [] "default/hello" refl

closes : (h : List Call) → 1 ≤ gets h → env.queue_get h ≡ none
closes h taken = ground arith

run_worker_returns_example : (run_worker env 2 []).0 ≡ reply tt
run_worker_returns_example =
    run_worker_returns env (λ h. cache-IsTyped (greeter_in "Running")) 1 1 [] closes (omega arith)

abbrev owner : OwnerReference
owner = ref_to (meta_named "hello" []) "example.org/v1alpha1" "Greeter"

enqueue_pod_adds_example :
    enqueue_pod env (pod_object (own_pod "Succeeded")) []
    ≡ (reply tt, add "default/hello" ∷ read_greeter "default" "hello" ∷ [])
unfolding Lister.get Lister.greeters Lister.new_greeter_lister
enqueue_pod_adds_example =
    enqueue_pod_adds env ownership_laws (own_pod "Succeeded") [] owner (greeter_in "Running")
      "default/hello" refl refl refl refl refl

enqueue_pod_only_example :
    (queue_calls (enqueue_pod env (pod_object (own_pod "Succeeded")) []).1 ≡ [])
    ⊎ ((pod : Pod) × (g : Greeter) × (pod_of (pod_object (own_pod "Succeeded")) ≡ some pod)
        × IsOwnerOf env g pod []
        × Adds env g [] (enqueue_pod env (pod_object (own_pod "Succeeded")) []).1)
enqueue_pod_only_example = enqueue_pod_only env ownership_laws (pod_object (own_pod "Succeeded")) []
