-- ===== src/CronJob/Tests.antt =====
-- A CronJob in a small cluster, and the theorems on `Reconcile` there
-- (circle/internal/controller/cronjob_controller.go).
mod Runs
mod Ends
mod Copies
use Prim.Native.String.{String}
use mathlib.Core.Path.{◌≡◌, refl}
use mathlib.Core.Bool.{Bool, true, false}
use mathlib.Core.Option.{Option, none, some}
use mathlib.Core.List.{List, [], ◌∷◌, ◌++◌}
use text.Mathlib.Text.{◌==◌}
use bad_pen.Base.{if◌then◌else◌}
use bad_pen.Base.Int.{pos, ◌+ℤ◌, int_laws}
use bad_pen.Base.Result.{failed, ok, err, Result}
use bad_pen.Time.{Instant}
use bad_pen.Kube.{ObjectMeta, OwnerReference, Pod, PodSpec, pod_failed, pod_succeeded}
use bad_pen.CronJob.{CronJob, ObjectReference, allow_concurrent}
use bad_pen.CronJob.Env.{Request, Env}
use bad_pen.CronJob.Schedule.{Next}
use bad_pen.CronJob.Schedule.Missed.{IsLater}
use bad_pen.CronJob.Pods.{scheduled_time_annotation}

abbrev pub hour : Instant
hour = pos 3600000000000

-- "@every 1h"
abbrev pub hourly : Next
hourly t = t +ℤ hour

pub hourly-IsLater : IsLater hourly
hourly-IsLater t = omega int_laws

abbrev pub eight_oclock : Instant
eight_oclock = pos 28800000000000

abbrev pub ten_oclock : Instant
ten_oclock = pos 36000000000000

abbrev pub no_spec : PodSpec
no_spec = record { containers = []; restart_policy = "OnFailure" }

abbrev pub meta_named : String → ObjectMeta
meta_named name = record {
  name = name;
  generate_name = "";
  namespace = "default";
  uid = "1";
  creation_timestamp = eight_oclock;
  labels = [];
  annotations = [];
  owner_references = [];
}

abbrev pub cron_job : CronJob
cron_job = record {
  type_meta = record { kind = "CronJob"; api_version = "batch.example.org/v1" };
  meta = meta_named "backup";
  spec = record {
    schedule = "@every 1h";
    starting_deadline_seconds = none;
    concurrency_policy = allow_concurrent;
    suspend = none;
    job_template = record { labels = []; annotations = []; spec = no_spec };
    successful_jobs_history_limit = none;
    failed_jobs_history_limit = none;
  };
  status = record { active = []; last_schedule_time = none };
}

-- A pod of the run at eight, in a phase.
abbrev pub pod_in : String → Pod
pod_in phase = record {
  meta = record (meta_named "backup-1") { annotations = (scheduled_time_annotation, "08:00") ∷ [] };
  spec = no_spec;
  phase = phase;
  start_time = some eight_oclock;
}

abbrev place : (Pod → Pod → Bool) → Pod → List Pod → List Pod
place less pod [] = pod ∷ []
place less pod (q ∷ pods) =
    let rest = place less pod pods in if less q pod then q ∷ rest else pod ∷ q ∷ pods

abbrev pub insertion_sort : (Pod → Pod → Bool) → List Pod → List Pod
insertion_sort less [] = []
insertion_sort less (pod ∷ pods) = place less pod (insertion_sort less pods)

abbrev pub parse_time : String → Result Instant
parse_time s =
    if s == "08:00"
    then ok eight_oclock
    else if s == "10:00"
    then ok ten_oclock
    else err (failed "cannot parse the time")

abbrev pub owned_by : ObjectMeta → Pod → Pod
owned_by owner pod = record pod {
  meta = record pod.meta {
    owner_references =
        record {
          api_version = "batch.example.org/v1";
          kind = "CronJob";
          name = owner.name;
          uid = owner.uid;
          controller = some true;
        }
        ∷ pod.meta.owner_references;
  };
}

-- A server that stores what it is sent, and a clock that stands at ten.
abbrev pub cluster : CronJob → List Pod → Env
cluster stored pods = record {
  get_answer = λ h req. ok stored;
  list_answer = λ h namespace name. ok pods;
  update_answer = λ h updated. ok updated;
  delete_answer = λ h pod. none;
  create_answer = λ h pod. none;
  now = λ h. ten_oclock;
  get_reference = λ pod. ok (record {
    kind = "Pod";
    namespace = pod.meta.namespace;
    name = pod.meta.name;
    uid = pod.meta.uid;
  });
  set_controller_reference = λ owner pod. ok (owned_by owner.meta pod);
  parse_standard =
      λ schedule. if schedule == "@every 1h" then ok hourly else err (failed "no schedule");
  parse_rfc3339 = parse_time;
  format_rfc3339 = λ t. "10:00";
  sort_slice = insertion_sort;
}

abbrev pub req : Request
req = record { namespace = "default"; name = "backup" }
