-- ===== src/Sample/Tests/Clients.antt =====
-- The theorems on the clients, for a namespace of a small cluster.
use Prim.Native.String.{String}
use mathlib.Core.Path.{◌≡◌, refl, ap}
use mathlib.Core.Bool.{Bool, true}
use mathlib.Core.Logic.{◌↔◌}
use mathlib.Core.Option.{Option, none, some}
use mathlib.Core.List.{List, [], ◌∷◌}
use text.Mathlib.Text.{◌==◌}
use bad_pen.Base.{if◌then◌else◌}
use bad_pen.Base.Int.{pos}
use bad_pen.Base.Result.{Error, Result, not_found, ok, err, returned}
use bad_pen.Client.Clientset.{Config, ClientGo}
use bad_pen.Sample.{v1alpha2, Resource, namespaced, cluster_wide}
use bad_pen.Lister.{Selector}
use bad_pen.Sample.Lister.{Object, cluster_v2, namespaced_v2, Indexer, list_namespace, list_cluster}
use bad_pen.Sample.Lister.Laws.{list_exactly}
use bad_pen.Sample.Apply.{ResourceApply, configuration, with_labels, with_name}
use bad_pen.Sample.Apply.Built.{constructed, renamed, labelled, applied_as, Built-apply_resource}
use bad_pen.Sample.Typed.{Server, apply_resource}
use bad_pen.Sample.Fake.{Answer, Tracker, a_resource}
use bad_pen.Sample.Requests.{Call, operate, operate_scoped}
use bad_pen.Sample.Agreement.{
  Target, Operation, request_target, action_target, typed_run, tracked_run, nil_on_error,
  tracked_run-typed_run,
}
use bad_pen.Sample.Clientset.{
  set_config_defaults, limit_rate, new_for_config_and_client, group_client_for_config_and_client,
}
use bad_pen.Sample.Tests.{disk, disk_of, encoding, opts, server, strict, strict-Agrees}

operate_scoped_example :
    operate encoding
      (record { client = server; place = "team" })
      (Call.apply_status (some (configuration "disk" "team")) opts)
    ≡ operate encoding
        (record { client = strict; place = "team" })
        (Call.apply_status (some (configuration "disk" "team")) opts)
operate_scoped_example =
    operate_scoped encoding "team" server strict strict-Agrees
      (Call.apply_status (some (configuration "disk" "team")) opts)

abbrev tape : Resource v1alpha2 namespaced
tape = record disk { meta = record disk.meta { name = "tape" } }

-- A store that knows one resource.
abbrev store : Target v1alpha2 namespaced → Result (Resource v1alpha2 namespaced)
store t = if t.name == "disk" then ok disk else err (not_found "none")

-- What the server leaves in the result of a request that fails.
abbrev partly_read :
    Result (Resource v1alpha2 namespaced) → Resource v1alpha2 namespaced × Option Error
partly_read (ok x) = (x, none)
partly_read (err e) = (record disk { meta = record disk.meta { name = "partly read" } }, some e)

abbrev tracked :
    Result (Resource v1alpha2 namespaced) → Option (Answer v1alpha2 namespaced) × Option Error
tracked (ok x) = (some (a_resource x), none)
tracked (err e) = (none, some e)

abbrev stored : Server Unit v1alpha2 namespaced
stored = record server { into_resource = λ r. partly_read (store (request_target r)) }

abbrev tracker : Tracker Unit v1alpha2 namespaced
tracker = record {
  invokes = λ a d. tracked (store (action_target a));
  invokes_watch = λ a. (tt, none);
  extract_label = λ list_opts. none;
}

-- Both clients fail to update the status of a resource that is not there.
tracked_run-typed_run_example :
    tracked_run encoding
      (record { fake = tracker; place = "team" })
      (Operation.update_status tape (record { dry_run = []; field_manager = "tests" }))
    ≡ nil_on_error (
        typed_run encoding
          (record { client = stored; place = "team" })
          (Operation.update_status tape (record { dry_run = []; field_manager = "tests" })))
tracked_run-typed_run_example =
    tracked_run-typed_run encoding store stored tracker
      (record {
        server_succeeds = λ r x found. ap partly_read found;
        server_fails = λ r e failed. ap (λ x. (partly_read x).1) failed;
        tracker_succeeds = λ a x found. ap tracked found;
        tracker_fails = λ a e failed. ap tracked failed;
      })
      "team" (Operation.update_status tape (record { dry_run = []; field_manager = "tests" }))

abbrev built : ResourceApply v1alpha2 namespaced
built = with_labels (("app", "a") ∷ []) (with_name "tape" (configuration "disk" "team"))

Built-apply_resource_example :
    apply_resource encoding (record { client = strict; place = "team" }) (some built) opts
    ≡ applied_as encoding (record { client = strict; place = "team" }) opts "tape" (ok "{}")
Built-apply_resource_example =
    Built-apply_resource encoding (record { client = strict; place = "team" }) opts
      (labelled (("app", "a") ∷ []) (renamed "tape" (constructed "disk" "team")))

-- client-go with names for its clients.
abbrev go : ClientGo String Bool String String String
go = record {
  default_user_agent = "bad-pen";
  is_positive = λ qps. qps;
  new_token_bucket = λ qps burst. "bucket";
  http_client_for = λ c. ok "http";
  rest_client_for = λ c h. ok c.group_version;
  new_discovery_for = λ c h. ok c.user_agent;
  new_discovery = λ c. c;
}

abbrev config : Config String Bool
config = record {
  user_agent = "tests";
  rate_limiter = none;
  qps = true;
  burst = pos 10;
  group_version = "";
  api_path = "";
}

-- A configuration that makes a client for each version.
made_of_config :
    new_for_config_and_client go config "http"
    ≡ ok (record {
      discovery = "tests";
      sample_v1alpha1 = "sample.example.org/v1alpha1";
      sample_v1alpha2 = "sample.example.org/v1alpha2";
    })
unfolding new_for_config_and_client limit_rate group_client_for_config_and_client
    set_config_defaults
made_of_config = refl

-- A cache that holds a disk, and a cluster-wide resource.
abbrev mixed : Indexer
mixed = record {
  get_by_key = λ key. ok none;
  list_all = λ selector. (cluster_v2 (disk_of v1alpha2 cluster_wide) ∷ [], none);
  list_all_by_namespace = λ ns selector. (namespaced_v2 disk ∷ [], none);
}

abbrev all : Selector
all labels = true

list_exactly_example :
    ((list_namespace (record { indexer = mixed; namespace = "team" }) all
        ≡ returned (disk ∷ [], none))
      ↔ (◌≡◌ {A = List Object × Option Error}
          (namespaced_v2 disk ∷ [], none)
          (namespaced_v2 disk ∷ [], none)))
    × ((list_cluster (record { indexer = mixed }) all
          ≡ returned (disk_of v1alpha2 cluster_wide ∷ [], none))
        ↔ (◌≡◌ {A = List Object × Option Error}
            (cluster_v2 (disk_of v1alpha2 cluster_wide) ∷ [], none)
            (cluster_v2 (disk_of v1alpha2 cluster_wide) ∷ [], none)))
list_exactly_example =
    list_exactly v1alpha2 (record { indexer = mixed; namespace = "team" })
      (record { indexer = mixed }) all (disk ∷ []) (disk_of v1alpha2 cluster_wide ∷ []) none
