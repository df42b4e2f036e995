-- ===== src/Sample/V1/NamespacedApply.antt =====
-- The builders of apply configurations for NamespacedResources in the version v1alpha1
-- (sample-controller/pkg/applyconfiguration/sample/v1alpha1: namespacedresource.go and those of its spec
-- and its status).
use bad_pen.Sample.Apply
use Prim.Native.String.{String}
use mathlib.Core.Option.{Option}
use mathlib.Core.List.{List}
use bad_pen.Base.Int.{ℤ}
use bad_pen.Base.Result.{Checked}
use bad_pen.Time.{Instant}
use bad_pen.Kube.{OwnerReference}
use bad_pen.ApplyConfig.{ObjectMetaApply}
use bad_pen.Sample.{v1alpha1, namespaced}
use bad_pen.Sample.Apply.{
  ResourceApply, SpecApply, StatusApply, configuration, new_spec, new_status,
}

abbrev pub NamespacedResourceApply : Type 0
NamespacedResourceApply = ResourceApply v1alpha1 namespaced

abbrev pub NamespacedResourceSpecApply : Type 0
NamespacedResourceSpecApply = SpecApply v1alpha1 namespaced

abbrev pub NamespacedResourceStatusApply : Type 0
NamespacedResourceStatusApply = StatusApply v1alpha1 namespaced

-- `NamespacedResource(name, namespace)`
abbrev pub namespaced_resource : String → String → NamespacedResourceApply
namespaced_resource name namespace = configuration name namespace

abbrev pub with_kind : String → NamespacedResourceApply → NamespacedResourceApply
with_kind value b = Apply.with_kind value b

abbrev pub with_api_version : String → NamespacedResourceApply → NamespacedResourceApply
with_api_version value b = Apply.with_api_version value b

abbrev pub with_name : String → NamespacedResourceApply → NamespacedResourceApply
with_name value b = Apply.with_name value b

abbrev pub with_generate_name : String → NamespacedResourceApply → NamespacedResourceApply
with_generate_name value b = Apply.with_generate_name value b

abbrev pub with_namespace : String → NamespacedResourceApply → NamespacedResourceApply
with_namespace value b = Apply.with_namespace value b

abbrev pub with_uid : String → NamespacedResourceApply → NamespacedResourceApply
with_uid value b = Apply.with_uid value b

abbrev pub with_resource_version : String → NamespacedResourceApply → NamespacedResourceApply
with_resource_version value b = Apply.with_resource_version value b

abbrev pub with_generation : ℤ → NamespacedResourceApply → NamespacedResourceApply
with_generation value b = Apply.with_generation value b

abbrev pub with_creation_timestamp : Instant → NamespacedResourceApply → NamespacedResourceApply
with_creation_timestamp value b = Apply.with_creation_timestamp value b

abbrev pub with_deletion_timestamp : Instant → NamespacedResourceApply → NamespacedResourceApply
with_deletion_timestamp value b = Apply.with_deletion_timestamp value b

abbrev pub with_deletion_grace_period_seconds :
    ℤ → NamespacedResourceApply → NamespacedResourceApply
with_deletion_grace_period_seconds value b = Apply.with_deletion_grace_period_seconds value b

abbrev pub with_labels : List (String × String) → NamespacedResourceApply → NamespacedResourceApply
with_labels value b = Apply.with_labels value b

abbrev pub with_annotations :
    List (String × String) → NamespacedResourceApply → NamespacedResourceApply
with_annotations value b = Apply.with_annotations value b

abbrev pub with_owner_references :
    List (Option OwnerReference) → NamespacedResourceApply → Checked NamespacedResourceApply
with_owner_references value b = Apply.with_owner_references value b

abbrev pub with_finalizers : List String → NamespacedResourceApply → NamespacedResourceApply
with_finalizers value b = Apply.with_finalizers value b

abbrev pub with_spec :
    Option NamespacedResourceSpecApply → NamespacedResourceApply → NamespacedResourceApply
with_spec value b = Apply.with_spec value b

abbrev pub with_status :
    Option NamespacedResourceStatusApply → NamespacedResourceApply → NamespacedResourceApply
with_status value b = Apply.with_status value b

-- The metadata once `ensureObjectMetaApplyConfigurationExists` has run.
abbrev pub namespaced_resource_metadata : NamespacedResourceApply → ObjectMetaApply
namespaced_resource_metadata b = Apply.ensure_meta b

abbrev pub namespaced_resource_spec : NamespacedResourceSpecApply
namespaced_resource_spec = new_spec

abbrev pub with_spec_name : String → NamespacedResourceSpecApply → NamespacedResourceSpecApply
with_spec_name value b = Apply.with_spec_name value b

abbrev pub with_replicas : ℤ → NamespacedResourceSpecApply → NamespacedResourceSpecApply
with_replicas value b = Apply.with_replicas value b

abbrev pub namespaced_resource_status : NamespacedResourceStatusApply
namespaced_resource_status = new_status

abbrev pub with_available_replicas :
    ℤ → NamespacedResourceStatusApply → NamespacedResourceStatusApply
with_available_replicas value b = Apply.with_available_replicas value b
