-- ===== src/CronJob.antt =====
-- The CronJob API type (circle/api/v1/cronjob_types.go). The controller stands in the children.
pub mod Schedule
pub mod Env
pub mod Pods
pub mod Children
pub mod Reconcile
pub mod DeepCopy
mod Tests
use Prim.Native.String.{String}
use mathlib.Core.Bool.{Bool}
use mathlib.Core.Option.{Option}
use mathlib.Core.List.{List}
use bad_pen.Base.Int.{ℤ}
use bad_pen.Time.{Instant}
use bad_pen.Kube.{TypeMeta, ObjectMeta, PodSpec}

-- The string type `ConcurrencyPolicy` and its three constants.
abbrev pub ConcurrencyPolicy : Type 0
ConcurrencyPolicy = String

abbrev pub allow_concurrent : ConcurrencyPolicy
allow_concurrent = "Allow"

abbrev pub forbid_concurrent : ConcurrencyPolicy
forbid_concurrent = "Forbid"

abbrev pub replace_concurrent : ConcurrencyPolicy
replace_concurrent = "Replace"

-- corev1.PodTemplateSpec
pub record PodTemplateSpec : Type 0 where
  pub labels : List (String × String)
  pub annotations : List (String × String)
  pub spec : PodSpec

-- corev1.ObjectReference
pub record ObjectReference : Type 0 where
  pub kind : String
  pub namespace : String
  pub name : String
  pub uid : String

-- A pointer field is an `Option`; int64 and int32 are integers.
pub record CronJobSpec : Type 0 where
  pub schedule : String
  pub starting_deadline_seconds : Option ℤ
  pub concurrency_policy : ConcurrencyPolicy
  pub suspend : Option Bool
  pub job_template : PodTemplateSpec
  pub successful_jobs_history_limit : Option ℤ
  pub failed_jobs_history_limit : Option ℤ

pub record CronJobStatus : Type 0 where
  pub active : List ObjectReference
  pub last_schedule_time : Option Instant

pub record CronJob : Type 0 where
  pub type_meta : TypeMeta
  pub meta : ObjectMeta
  pub spec : CronJobSpec
  pub status : CronJobStatus
