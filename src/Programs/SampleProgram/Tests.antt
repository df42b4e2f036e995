-- ===== src/Programs/SampleProgram/Tests.antt =====
-- What `main` prints, for a cluster with one resource of each kind
-- (sample-controller/cmd/sample_controller/main.go).
use mathlib.Core.Path.{◌≡◌, refl}
use mathlib.Core.Bool.{true}
use mathlib.Core.Option.{none, some}
use mathlib.Core.List.{[], ◌∷◌}
use bad_pen.Base.Exec.{value}
use bad_pen.Base.Int.{pos}
use bad_pen.Base.Result.{failed, ok}
use bad_pen.Factory.{
  new_shared_informer_factory, new_shared_informer_factory_with_options, apply_options,
}
use bad_pen.Sample.{
  Version, v1alpha1, v1alpha2, Scope, namespaced, cluster_wide, Resource, kind_name, group_version,
}
use bad_pen.Sample.Typed.{Server}
use bad_pen.Sample.Lister.{
  Indexer, cluster_v1, namespaced_v2, list_cluster, list_all, append_resources, as_resource,
}
use bad_pen.Sample.Informers.{Cache, default_informer, new_filtered_informer, resource_informer}
use bad_pen.Programs.SampleProgram.{
  in_cluster_config, build_config_from_flags, print_count, Env, load_config, configured, main,
}
use bad_pen.Programs.SampleProgram.Counts.{clusters, in_namespaces, waiting, main_counts}

abbrev disk_of : (v : Version) (s : Scope) → Resource v s
disk_of v s = record {
  type_meta = record { kind = kind_name s; api_version = group_version v };
  meta = record {
    name = "disk";
    generate_name = "";
    namespace = "";
    uid = "3";
    creation_timestamp = pos 0;
    labels = [];
    annotations = [];
    owner_references = [];
  };
  spec = record { name = "disk"; replicas = pos 2 };
  status = record { available_replicas = pos 0 };
}

abbrev server_of : (v : Version) (s : Scope) → Server Unit v s
server_of v s = record {
  into_resource = λ r. (disk_of v s, none);
  into_list = λ r. (
    record {
      type_meta = record { kind = "List"; api_version = group_version v };
      resource_version = "1";
      items = [];
    },
    none,
  );
  watching = λ r. (tt, none);
  error = λ r. none;
}

-- A cache of disks, of the version and scope that an informer is for.
abbrev disks : Version → Scope → Indexer
disks v1alpha1 cluster_wide = record {
  get_by_key = λ key. ok none;
  list_all = λ selector. (cluster_v1 (disk_of v1alpha1 cluster_wide) ∷ [], none);
  list_all_by_namespace = λ namespace selector. ([], none);
}
disks v s = record {
  get_by_key = λ key. ok none;
  list_all = λ selector. (namespaced_v2 (disk_of v1alpha2 namespaced) ∷ [], none);
  list_all_by_namespace = λ namespace selector. ([], none);
}

-- An informer is its version and scope here.
abbrev cache : Cache Unit (Version × Scope)
cache = record {
  new_shared_index_informer = λ v s list_watch resync_period indexers. (v, s);
  get_indexer = λ i. disks i.0 i.1;
}

-- A program that runs outside of the cluster.
abbrev env : Env Unit (Version × Scope)
env = record {
  in_cluster_error = λ h. some (failed "not in a cluster");
  flags_error = λ h. none;
  clientset_error = λ h. none;
  caches_synced = λ h. true;
  client = record { server = server_of };
  cache = cache;
  everything = λ labels. true;
}

loaded : load_config env [] ≡ (value none, build_config_from_flags ∷ in_cluster_config ∷ [])
unfolding load_config configured
loaded = refl

main_counts_example : main env [] ≡ (
  value tt,
  print_count "NamespacedResource" 1
      ∷ print_count "ClusterResource" 1
      ∷ waiting env [] (build_config_from_flags ∷ in_cluster_config ∷ []) loaded refl,
)
unfolding list_cluster list_all append_resources as_resource clusters in_namespaces default_informer
    new_filtered_informer resource_informer new_shared_informer_factory
    new_shared_informer_factory_with_options apply_options
main_counts_example =
    main_counts env [] (build_config_from_flags ∷ in_cluster_config ∷ []) loaded refl
      (disk_of v1alpha1 cluster_wide ∷ []) (disk_of v1alpha2 namespaced ∷ []) refl refl refl
