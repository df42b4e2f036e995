-- ===== src/CronJob/Pods.antt =====
-- The pods of a CronJob: their scheduled time, their owner index, and the pod of a new run
-- (circle/internal/controller/cronjob_controller.go).
use Prim.Native.String
use Prim.Native.String.{String}
use mathlib.Core.Bool.{Bool, true, false, ◌&&◌}
use mathlib.Core.Option.{Option, none, some}
use mathlib.Core.List.{List, [], ◌∷◌}
use text.Mathlib.Text.{◌==◌}
use bad_pen.Base.{if◌then◌else◌, lookup, insert, insert_all}
use bad_pen.Base.Result.{Error, failed, Result, err}
use bad_pen.Time.{Instant, zero_time, before}
use bad_pen.Kube.{OwnerReference, Pod, Ownership}
use bad_pen.CronJob.{CronJob}
use bad_pen.CronJob.Env.{Env}

abbrev pub scheduled_time_annotation : String
scheduled_time_annotation = "batch.example.org/scheduled-at"

abbrev pub err_schedule_time_not_found : Error
err_schedule_time_not_found = failed "scheduled time not found in the pod"

-- `pod.Annotations[scheduledTimeAnnotation]`, where a missing key reads as "".
annotation_or_empty : Option String → String
annotation_or_empty none = ""
annotation_or_empty (some s) = s

module _ (env : Env) where
  -- `getScheduleTimeForPod`
  unfoldable pub schedule_time_for_pod : Pod → Result Instant
  unfolding annotation_or_empty
  schedule_time_for_pod pod =
      let scheduled_time =
        annotation_or_empty (lookup scheduled_time_annotation pod.meta.annotations) in
      if scheduled_time == ""
      then err err_schedule_time_not_found
      else env.parse_rfc3339 scheduled_time

  -- The pod before its owner is set.
  unfoldable pub pod_from_template : CronJob → Instant → Pod
  pod_from_template cron_job scheduled_time = record {
    meta = record {
      name = "";
      generate_name = String.◌++◌ cron_job.meta.name "-";
      namespace = cron_job.meta.namespace;
      uid = "";
      creation_timestamp = zero_time;
      labels = insert_all cron_job.spec.job_template.labels [];
      annotations =
          insert scheduled_time_annotation (env.format_rfc3339 scheduled_time)
            (insert_all cron_job.spec.job_template.annotations []);
      owner_references = [];
    };
    spec = cron_job.spec.job_template.spec;
    phase = "";
    start_time = none;
  }

  -- `newPodForCronJob`
  unfoldable pub new_pod_for_cron_job : CronJob → Instant → Result Pod
  unfolding pod_from_template
  new_pod_for_cron_job cron_job scheduled_time =
      env.set_controller_reference cron_job (pod_from_template cron_job scheduled_time)

-- The `less` function of both calls of `sort.Slice`: a pod with no start time comes first.
unfoldable pub starts_before : Pod → Pod → Bool
starts_before a b = elim a.start_time [
  | none ↦ elim b.start_time [ none ↦ false | some u ↦ true ]
  | some t ↦ elim b.start_time [ none ↦ false | some u ↦ before t u ]
]

-- `batchv1.GroupVersion.String()`
abbrev pub group_version : String
group_version = "batch.example.org/v1"

-- What the indexer is given: a pod, or an object of another type.
pub data Object : Type 0 where
  pod_object : Pod → Object
  other_object : Object

owner_name : Option OwnerReference → List String
owner_name none = []
owner_name (some ref) =
    if ref.api_version == group_version && ref.kind == "CronJob" then ref.name ∷ [] else []

-- The index function that `SetupWithManager` registers under ".metadata.controlled-by".
unfoldable pub job_owner_index : Ownership → Object → List String
unfolding owner_name
job_owner_index o (pod_object pod) = owner_name (Ownership.get_controller_of o pod.meta)
job_owner_index o other_object = []
