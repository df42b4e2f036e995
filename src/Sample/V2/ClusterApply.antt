-- ===== src/Sample/V2/ClusterApply.antt =====
-- The builders of apply configurations for ClusterResources in the version v1alpha2
-- (sample-controller/pkg/applyconfiguration/sample/v1alpha2: clusterresource.go and those of its spec
-- and its status).
use bad_pen.Sample.Apply
use Prim.Native.String.{String}
use mathlib.Core.Option.{Option}
use mathlib.Core.List.{List}
use bad_pen.Base.Int.{ℤ}
use bad_pen.Base.Result.{Checked}
use bad_pen.Time.{Instant}
use bad_pen.Kube.{OwnerReference}
use bad_pen.ApplyConfig.{ObjectMetaApply}
use bad_pen.Sample.{v1alpha2, cluster_wide}
use bad_pen.Sample.Apply.{
  ResourceApply, SpecApply, StatusApply, configuration, new_spec, new_status,
}

abbrev pub ClusterResourceApply : Type 0
ClusterResourceApply = ResourceApply v1alpha2 cluster_wide

abbrev pub ClusterResourceSpecApply : Type 0
ClusterResourceSpecApply = SpecApply v1alpha2 cluster_wide

abbrev pub ClusterResourceStatusApply : Type 0
ClusterResourceStatusApply = StatusApply v1alpha2 cluster_wide

-- `ClusterResource(name)`
abbrev pub cluster_resource : String → ClusterResourceApply
cluster_resource name = configuration name tt

abbrev pub with_kind : String → ClusterResourceApply → ClusterResourceApply
with_kind value b = Apply.with_kind value b

abbrev pub with_api_version : String → ClusterResourceApply → ClusterResourceApply
with_api_version value b = Apply.with_api_version value b

abbrev pub with_name : String → ClusterResourceApply → ClusterResourceApply
with_name value b = Apply.with_name value b

abbrev pub with_generate_name : String → ClusterResourceApply → ClusterResourceApply
with_generate_name value b = Apply.with_generate_name value b

abbrev pub with_namespace : String → ClusterResourceApply → ClusterResourceApply
with_namespace value b = Apply.with_namespace value b

abbrev pub with_uid : String → ClusterResourceApply → ClusterResourceApply
with_uid value b = Apply.with_uid value b

abbrev pub with_resource_version : String → ClusterResourceApply → ClusterResourceApply
with_resource_version value b = Apply.with_resource_version value b

abbrev pub with_generation : ℤ → ClusterResourceApply → ClusterResourceApply
with_generation value b = Apply.with_generation value b

abbrev pub with_creation_timestamp : Instant → ClusterResourceApply → ClusterResourceApply
with_creation_timestamp value b = Apply.with_creation_timestamp value b

abbrev pub with_deletion_timestamp : Instant → ClusterResourceApply → ClusterResourceApply
with_deletion_timestamp value b = Apply.with_deletion_timestamp value b

abbrev pub with_deletion_grace_period_seconds : ℤ → ClusterResourceApply → ClusterResourceApply
with_deletion_grace_period_seconds value b = Apply.with_deletion_grace_period_seconds value b

abbrev pub with_labels : List (String × String) → ClusterResourceApply → ClusterResourceApply
with_labels value b = Apply.with_labels value b

abbrev pub with_annotations : List (String × String) → ClusterResourceApply → ClusterResourceApply
with_annotations value b = Apply.with_annotations value b

abbrev pub with_owner_references :
    List (Option OwnerReference) → ClusterResourceApply → Checked ClusterResourceApply
with_owner_references value b = Apply.with_owner_references value b

abbrev pub with_finalizers : List String → ClusterResourceApply → ClusterResourceApply
with_finalizers value b = Apply.with_finalizers value b

abbrev pub with_spec : Option ClusterResourceSpecApply → ClusterResourceApply → ClusterResourceApply
with_spec value b = Apply.with_spec value b

abbrev pub with_status :
    Option ClusterResourceStatusApply → ClusterResourceApply → ClusterResourceApply
with_status value b = Apply.with_status value b

-- The metadata once `ensureObjectMetaApplyConfigurationExists` has run.
abbrev pub cluster_resource_metadata : ClusterResourceApply → ObjectMetaApply
cluster_resource_metadata b = Apply.ensure_meta b

abbrev pub cluster_resource_spec : ClusterResourceSpecApply
cluster_resource_spec = new_spec

abbrev pub with_spec_name : String → ClusterResourceSpecApply → ClusterResourceSpecApply
with_spec_name value b = Apply.with_spec_name value b

abbrev pub with_replicas : ℤ → ClusterResourceSpecApply → ClusterResourceSpecApply
with_replicas value b = Apply.with_replicas value b

abbrev pub cluster_resource_status : ClusterResourceStatusApply
cluster_resource_status = new_status

abbrev pub with_available_replicas : ℤ → ClusterResourceStatusApply → ClusterResourceStatusApply
with_available_replicas value b = Apply.with_available_replicas value b
