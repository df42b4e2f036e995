-- ===== src/Programs/SampleProgram.antt =====
-- `main` of sample-controller (sample-controller/cmd/sample_controller/main.go) with `LoadConfig` of
-- machinery/clientset.go: it counts the resources in the caches of two informers of one factory.
pub mod Counts
mod Tests
use Prim.Native.Nat.{ℕ}
use Prim.Native.String.{String}
use mathlib.Core.Bool.{Bool, true, false}
use mathlib.Core.Option.{Option, none, some}
use mathlib.Core.List.{List}
use bad_pen.Base.{length}
use bad_pen.Base.Int.{pos}
use bad_pen.Base.Exec
use bad_pen.Base.Exec.{pure, exit, panic, call, ◌>>=◌, ◌>>◌}
use bad_pen.Base.Result.{Error, message, Checked, returned, panicked}
use bad_pen.Factory.{Factory, new_shared_informer_factory, start}
use bad_pen.Lister.{Selector}
use bad_pen.Sample.{v1alpha1, v1alpha2, namespaced, cluster_wide}
use bad_pen.Sample.Lister.{ClusterLister, NamespacedLister, list_cluster, list_all}
use bad_pen.Sample.Informers.{
  Client, Cache, SampleFactory, resource_informer, informer, cluster_lister, namespaced_lister,
}

pub data Call (I : Type 0) : Type 0 where
  -- rest.InClusterConfig, clientcmd.BuildConfigFromFlags and versioned.NewForConfig
  in_cluster_config build_config_from_flags new_clientset : Call I
  -- `Start` of the factory, with the informers that it has launched, the latest first
  start_factory : List (String × I) → Call I
  -- cache.WaitForCacheSync on the two informers
  wait_for_cache_sync : I → I → Call I
  -- the line with a number of resources of a kind
  print_count : String → ℕ → Call I
  -- runtime.HandleError
  handle_error : String → Call I

pub record Env (Watch I : Type 0) : Type 0 where
  pub in_cluster_error : List (Call I) → Option Error
  pub flags_error : List (Call I) → Option Error
  pub clientset_error : List (Call I) → Option Error
  pub caches_synced : List (Call I) → Bool
  -- The clientset that NewForConfig gives, the informers' caches, and labels.Everything().
  pub client : Client Watch
  pub cache : Cache Watch I
  pub everything : Selector

abbrev pub Run : Type 0 → Type 0 → Type 0
Run I A = Exec.Exec (Call I) (Unit {0}) A

-- What `main` asks of its factory before it starts it.
pub record Wiring (Watch I : Type 0) : Type 0 where
  pub cluster_resources : ClusterLister v1alpha1
  pub cluster_informer : I
  pub namespaced_resources : NamespacedLister v1alpha2
  pub namespaced_informer : I
  pub factory : SampleFactory Watch I

-- `if err != nil { panic(err) }`
unfoldable pub panic_on : {I : Type 0} → Option Error → Run I (Unit {0})
panic_on none = pure tt
panic_on (some e) = panic

-- A list is counted; an error is handled, and `main` returns.
unfoldable pub count : {I A : Type 0} → String → Checked (List A × Option Error) → Run I (Unit {0})
count kind panicked = panic
count kind (returned (rs, some e)) = call (handle_error (message e)) (λ h. tt) >> exit tt
count kind (returned (rs, none)) = call (print_count kind (length rs)) (λ h. tt)

module _ {Watch I : Type 0} (env : Env Watch I) where
  unfoldable pub configured : Option Error → Run I (Option Error)
  configured none = pure none
  configured (some e) = call build_config_from_flags env.flags_error

  -- `LoadConfig`: outside a cluster, the configuration is built from the flags.
  unfoldable pub load_config : Run I (Option Error)
  unfolding configured
  load_config = call in_cluster_config env.in_cluster_error >>= configured

  unfoldable pub wire : SampleFactory Watch I → Wiring Watch I
  unfolding cluster_lister namespaced_lister informer resource_informer
  wire factory =
      let clusters = resource_informer v1alpha1 cluster_wide factory in
      let (cl, f1) = cluster_lister env.cache v1alpha1 clusters factory in
      let (ci, f2) = informer env.cache v1alpha1 cluster_wide clusters f1 in
      let (nl, f3) =
        namespaced_lister env.cache v1alpha2 (resource_informer v1alpha2 namespaced f2) f2 in
      let (ni, f4) =
        informer env.cache v1alpha2 namespaced (resource_informer v1alpha2 namespaced f3) f3 in
      record {
        cluster_resources = cl;
        cluster_informer = ci;
        namespaced_resources = nl;
        namespaced_informer = ni;
        factory = f4;
      }

  unfoldable pub report : Wiring Watch I → Bool → Run I (Unit {0})
  unfolding count list_cluster list_all
  report w false = call (handle_error "timed out waiting for caches to sync") (λ h. tt) >> exit tt
  report w true = do
    count "ClusterResource" (list_cluster w.cluster_resources env.everything)
    count "NamespacedResource" (list_all w.namespaced_resources env.everything)

  unfoldable pub start_and_report : Wiring Watch I → Run I (Unit {0})
  unfolding start report
  start_and_report w = do
    call (start_factory (Factory.launched (start w.factory))) (λ h. tt)
    synced ← call (wait_for_cache_sync w.cluster_informer w.namespaced_informer) env.caches_synced
    report w synced

  -- `main`
  unfoldable pub main : Run I (Unit {0})
  unfolding load_config panic_on wire start_and_report new_shared_informer_factory
  main = do
    config_error ← load_config
    panic_on config_error
    clientset_error ← call new_clientset env.clientset_error
    panic_on clientset_error
    start_and_report (wire (new_shared_informer_factory env.client (pos 60000000000)))
