-- ===== src/Programs/SampleProgram/Counts.antt =====
-- What `main` of sample-controller prints (sample-controller/cmd/sample_controller/main.go).
use Prim.Native.String.{String}
use mathlib.Core.Path.{◌≡◌, refl}
use mathlib.Core.Bool.{true, false}
use mathlib.Core.Option.{none}
use mathlib.Core.List.{List, [], ◌∷◌}
use bad_pen.Base.{length, lookup, insert}
use bad_pen.Base.Int.{pos}
use bad_pen.Base.Exec.{value, reply}
use bad_pen.Base.Result.{returned}
use bad_pen.Factory.{
  Factory, new_shared_informer_factory, new_shared_informer_factory_with_options, apply_options,
  informer_for, found_or_new, resync_period, start, start_each, launch, marked,
}
use bad_pen.Sample.{v1alpha1, v1alpha2, namespaced, cluster_wide, Resource}
use bad_pen.Sample.Lister.{ClusterLister, NamespacedLister, list_cluster, list_all}
use bad_pen.Sample.Informers.{
  SampleFactory, resource_informer, informer, cluster_lister, namespaced_lister, default_informer,
  place_of,
}
use bad_pen.Programs.SampleProgram.{
  Call, start_factory, wait_for_cache_sync, print_count, handle_error, new_clientset, Env, Wiring,
  panic_on, count, load_config, wire, report, start_and_report, main,
}

module _ {Watch I : Type 0} (env : Env Watch I) where
  abbrev new_factory : SampleFactory Watch I
  unfolding new_shared_informer_factory new_shared_informer_factory_with_options apply_options
  new_factory = new_shared_informer_factory env.client (pos 60000000000)

  -- The informers of ClusterResources and of NamespacedResources that a new factory makes.
  unfoldable pub clusters : I
  unfolding default_informer resource_informer new_shared_informer_factory
      new_shared_informer_factory_with_options apply_options place_of
  clusters =
      default_informer env.cache v1alpha1 cluster_wide
        (resource_informer v1alpha1 cluster_wide new_factory) env.client (pos 60000000000)

  unfoldable pub in_namespaces : I
  unfolding default_informer resource_informer new_shared_informer_factory
      new_shared_informer_factory_with_options apply_options place_of
  in_namespaces =
      default_informer env.cache v1alpha2 namespaced
        (resource_informer v1alpha2 namespaced new_factory) env.client (pos 60000000000)

  -- Its two informers, launched.
  abbrev pub launched : List (String × I)
  launched =
      ("v1alpha2.NamespacedResource", in_namespaces) ∷ ("v1alpha1.ClusterResource", clusters) ∷ []

  wire-launched : Factory.launched (start (Wiring.factory (wire env new_factory))) ≡ launched
  unfolding clusters in_namespaces wire cluster_lister namespaced_lister informer informer_for
      found_or_new resync_period resource_informer place_of lookup insert start start_each launch
      marked new_shared_informer_factory new_shared_informer_factory_with_options apply_options
  wire-launched = refl

  -- The listers read the caches of these two informers, for whose sync `main` waits.
  abbrev pub cluster_reader : ClusterLister v1alpha1
  cluster_reader = record { indexer = env.cache.get_indexer clusters }

  abbrev pub namespaced_reader : NamespacedLister v1alpha2
  namespaced_reader = record { indexer = env.cache.get_indexer in_namespaces }

  wire-readers :
      (Wiring.cluster_resources (wire env new_factory) ≡ cluster_reader)
      × (Wiring.namespaced_resources (wire env new_factory) ≡ namespaced_reader)
      × (Wiring.cluster_informer (wire env new_factory) ≡ clusters)
      × (Wiring.namespaced_informer (wire env new_factory) ≡ in_namespaces)
  unfolding clusters in_namespaces wire cluster_lister namespaced_lister informer informer_for
      found_or_new resync_period resource_informer place_of lookup insert
      new_shared_informer_factory new_shared_informer_factory_with_options apply_options
  wire-readers = (refl, refl, refl, refl)

  module _ (h h1 : List (Call I)) (loaded : load_config env h ≡ (value none, h1))
      (made : env.clientset_error h1 ≡ none) where
    -- What `main` has done when it waits for the caches.
    abbrev pub waiting : List (Call I)
    waiting =
        wait_for_cache_sync clusters in_namespaces ∷ start_factory launched ∷ new_clientset ∷ h1

    main-report :
        main env h
        ≡ report env
            (wire env new_factory)
            (env.caches_synced (start_factory launched ∷ new_clientset ∷ h1))
            waiting
    unfolding main start_and_report panic_on
    main-report =
        let (clusters_read, namespaced_read, ci, ni) = wire-readers in
        rw (loaded, made, wire-launched, ci, ni) refl

    -- With a configuration and a clientset `main` starts the informers of the ClusterResources of
    -- v1alpha1 and of the NamespacedResources of v1alpha2, and no other. Once they have synced, it
    -- prints how many resources the cache of each of them lists.
    pub main_counts :
        (crs : List (Resource v1alpha1 cluster_wide)) (nrs : List (Resource v1alpha2 namespaced))
        → env.caches_synced (start_factory launched ∷ new_clientset ∷ h1) ≡ true
        → list_cluster cluster_reader env.everything ≡ returned (crs, none)
        → list_all namespaced_reader env.everything ≡ returned (nrs, none)
        → main env h ≡ (
          value tt,
          print_count "NamespacedResource" (length nrs)
              ∷ print_count "ClusterResource" (length crs)
              ∷ waiting,
        )
    unfolding report count
    main_counts crs nrs synced clusters_listed in_namespaces_listed =
        let (clusters_read, namespaced_read, ci, ni) = wire-readers in
        rw
          (
            main-report, synced, clusters_read, clusters_listed, namespaced_read,
            in_namespaces_listed,
          )
          refl

    -- If they do not sync, it complains and prints no number.
    pub main_unsynced :
        env.caches_synced (start_factory launched ∷ new_clientset ∷ h1) ≡ false
        → main env h ≡ (reply tt, handle_error "timed out waiting for caches to sync" ∷ waiting)
    unfolding report
    main_unsynced unsynced = rw (main-report, unsynced) refl
