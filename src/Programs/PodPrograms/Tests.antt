-- ===== src/Programs/PodPrograms/Tests.antt =====
-- The watcher on an event of a pod and an error event, and a round of quickstart, in a cluster with
-- one pod (watcher/cmd/watcher/main.go and quickstart/cmd/quickstart/main.go).
use mathlib.Core.Path.{◌≡◌, refl}
use mathlib.Core.Bool.{true}
use mathlib.Core.Option.{none}
use mathlib.Core.List.{[], ◌∷◌, Memᴰ}
use native.Mathlib.Omega.{arith}
use bad_pen.Base.Exec.{panics}
use bad_pen.Base.Int.{pos}
use bad_pen.Base.Result.{ok}
use bad_pen.Kube.{Pod}
use bad_pen.Greeter.{other_object}
use bad_pen.Programs.PodPrograms.{
  list_pods, get_pod, start_watch, stop_watch, print_count, print_event, Event, Env, show_some,
  watcher,
}
use bad_pen.Programs.PodPrograms.Shown.{pod_event, no_pod, watcher_lem, shown, show_some_gets}

abbrev web : Pod
web = record {
  meta = record {
    name = "web";
    generate_name = "";
    namespace = "team";
    uid = "5";
    creation_timestamp = pos 0;
    labels = [];
    annotations = [];
    owner_references = [];
  };
  spec = record { containers = []; restart_policy = "Always" };
  phase = "Running";
  start_time = none;
}

-- An error event, whose object is a status.
abbrev expired : Event
expired = record { type = "ERROR"; object = other_object }

abbrev env : Env
env = record {
  clientset_error = none;
  listed = λ h. ok (web ∷ []);
  got = λ h namespace name. ok web;
  intn = λ h n. 0;
  watch_error = λ h. none;
  events = pod_event ("ADDED", web) ∷ expired ∷ [];
  caches_synced = λ h. true;
  handler_error = λ h. none;
  cached = λ h. ok (web ∷ []);
}

watcher_lem_example :
    watcher env [] ≡ (panics, stop_watch ∷ print_event "ADDED" web ∷ start_watch ∷ [])
watcher_lem_example =
    watcher_lem env (("ADDED", web) ∷ []) (expired ∷ []) panics [] refl refl refl
      (no_pod expired [] (λ pod e. cc e))

show_some_gets_example :
    (chosen : Pod) × Memᴰ chosen (web ∷ [])
    × (show_some env []
        ≡ shown
            (ok web)
            (get_pod chosen.meta.namespace chosen.meta.name ∷ print_count 1 ∷ list_pods ∷ []))
show_some_gets_example = show_some_gets env [] web [] refl (λ h' n. omega arith)
