-- ===== src/Sample/Apply.antt =====
-- The builders of apply configurations (sample-controller/pkg/applyconfiguration), for any version
-- and scope. A builder returns its receiver, which it has changed; here it returns the new value.
pub mod Built
use Prim.Native.String.{String}
use mathlib.Core.Option.{Option, none, some}
use mathlib.Core.List.{List}
use text.Mathlib.Text.{◌==◌}
use bad_pen.Base.{if◌then◌else◌}
use bad_pen.Base.Int.{ℤ}
use bad_pen.Base.Result.{Checked, returned, panicked}
use bad_pen.Time.{Instant}
use bad_pen.Kube.{OwnerReference}
use bad_pen.ApplyConfig.{
  ObjectMetaApply, no_meta, put_entries, append_references, append_finalizers, GroupVersionKind,
}
use bad_pen.Sample.{
  Version, v1alpha1, v1alpha2, Scope, namespaced, cluster_wide, Within, group_name, group_version,
  kind_name,
}

pub record SpecApply (v : Version) (s : Scope) : Type 0 where
  pub name : Option String
  pub replicas : Option ℤ

pub record StatusApply (v : Version) (s : Scope) : Type 0 where
  pub available_replicas : Option ℤ

pub record ResourceApply (v : Version) (s : Scope) : Type 0 where
  pub kind : Option String
  pub api_version : Option String
  pub meta : Option ObjectMetaApply
  pub spec : Option (SpecApply v s)
  pub status : Option (StatusApply v s)

abbrev pub empty : {v : Version} {s : Scope} → ResourceApply v s
empty = record { kind = none; api_version = none; meta = none; spec = none; status = none }

abbrev pub new_spec : {v : Version} {s : Scope} → SpecApply v s
new_spec = record { name = none; replicas = none }

abbrev pub new_status : {v : Version} {s : Scope} → StatusApply v s
new_status = record { available_replicas = none }

module _ {v : Version} {s : Scope} where
  -- The metadata once `ensureObjectMetaApplyConfigurationExists` has run.
  unfoldable pub ensure_meta : ResourceApply v s → ObjectMetaApply
  ensure_meta b = elim b.meta [ none ↦ no_meta | some meta ↦ meta ]

  abbrev set_meta : ResourceApply v s → ObjectMetaApply → ResourceApply v s
  set_meta b meta = record b { meta = some meta }

  unfoldable pub with_kind : String → ResourceApply v s → ResourceApply v s
  with_kind value b = record b { kind = some value }

  unfoldable pub with_api_version : String → ResourceApply v s → ResourceApply v s
  with_api_version value b = record b { api_version = some value }

  unfoldable pub with_name : String → ResourceApply v s → ResourceApply v s
  unfolding ensure_meta
  with_name value b = set_meta b (record (ensure_meta b) { name = some value })

  unfoldable pub with_generate_name : String → ResourceApply v s → ResourceApply v s
  unfolding ensure_meta
  with_generate_name value b = set_meta b (record (ensure_meta b) { generate_name = some value })

  unfoldable pub with_namespace : String → ResourceApply v s → ResourceApply v s
  unfolding ensure_meta
  with_namespace value b = set_meta b (record (ensure_meta b) { namespace = some value })

  unfoldable pub with_uid : String → ResourceApply v s → ResourceApply v s
  unfolding ensure_meta
  with_uid value b = set_meta b (record (ensure_meta b) { uid = some value })

  unfoldable pub with_resource_version : String → ResourceApply v s → ResourceApply v s
  unfolding ensure_meta
  with_resource_version value b =
      set_meta b (record (ensure_meta b) { resource_version = some value })

  unfoldable pub with_generation : ℤ → ResourceApply v s → ResourceApply v s
  unfolding ensure_meta
  with_generation value b = set_meta b (record (ensure_meta b) { generation = some value })

  unfoldable pub with_creation_timestamp : Instant → ResourceApply v s → ResourceApply v s
  unfolding ensure_meta
  with_creation_timestamp value b =
      set_meta b (record (ensure_meta b) { creation_timestamp = some value })

  unfoldable pub with_deletion_timestamp : Instant → ResourceApply v s → ResourceApply v s
  unfolding ensure_meta
  with_deletion_timestamp value b =
      set_meta b (record (ensure_meta b) { deletion_timestamp = some value })

  unfoldable pub with_deletion_grace_period_seconds : ℤ → ResourceApply v s → ResourceApply v s
  unfolding ensure_meta
  with_deletion_grace_period_seconds value b =
      set_meta b (record (ensure_meta b) { deletion_grace_period_seconds = some value })

  unfoldable pub with_labels : List (String × String) → ResourceApply v s → ResourceApply v s
  unfolding ensure_meta put_entries
  with_labels entries b =
      let meta = ensure_meta b in
      set_meta b (record meta { labels = put_entries entries meta.labels })

  unfoldable pub with_annotations : List (String × String) → ResourceApply v s → ResourceApply v s
  unfolding ensure_meta put_entries
  with_annotations entries b =
      let meta = ensure_meta b in
      set_meta b (record meta { annotations = put_entries entries meta.annotations })

  unfoldable pub set_references :
      ResourceApply v s → Checked (List OwnerReference) → Checked (ResourceApply v s)
  unfolding ensure_meta
  set_references b (returned refs) =
      returned (set_meta b (record (ensure_meta b) { owner_references = refs }))
  set_references b panicked = panicked

  unfoldable pub with_owner_references :
      List (Option OwnerReference) → ResourceApply v s → Checked (ResourceApply v s)
  unfolding ensure_meta set_references append_references
  with_owner_references values b =
      set_references b (append_references values (ObjectMetaApply.owner_references (ensure_meta b)))

  unfoldable pub with_finalizers : List String → ResourceApply v s → ResourceApply v s
  unfolding ensure_meta append_finalizers
  with_finalizers values b =
      let meta = ensure_meta b in
      set_meta b (record meta { finalizers = append_finalizers values meta.finalizers })

  unfoldable pub with_spec : Option (SpecApply v s) → ResourceApply v s → ResourceApply v s
  with_spec value b = record b { spec = value }

  unfoldable pub with_status : Option (StatusApply v s) → ResourceApply v s → ResourceApply v s
  with_status value b = record b { status = value }

  unfoldable pub with_spec_name : String → SpecApply v s → SpecApply v s
  with_spec_name value b = record b { name = some value }

  unfoldable pub with_replicas : ℤ → SpecApply v s → SpecApply v s
  with_replicas value b = record b { replicas = some value }

  unfoldable pub with_available_replicas : ℤ → StatusApply v s → StatusApply v s
  with_available_replicas value b = record b { available_replicas = some value }

-- `WithNamespace`, where the constructor has a namespace.
unfoldable pub with_place :
    {v : Version} (s : Scope) → Within s → ResourceApply v s → ResourceApply v s
unfolding with_namespace
with_place namespaced namespace b = with_namespace namespace b
with_place cluster_wide place b = b

-- The constructor: `NamespacedResource(name, namespace)` or `ClusterResource(name)`.
unfoldable pub configuration : {v : Version} {s : Scope} → String → Within s → ResourceApply v s
unfolding with_name with_place with_kind with_api_version
configuration {v} {s} name place =
    with_api_version (group_version v)
      (with_kind (kind_name s) (with_place s place (with_name name empty)))

-- What `ForKind` returns.
pub data Configuration : Type 0 where
  resource_configuration : (v : Version) (s : Scope) → ResourceApply v s → Configuration
  spec_configuration : (v : Version) (s : Scope) → SpecApply v s → Configuration
  status_configuration : (v : Version) (s : Scope) → StatusApply v s → Configuration

of_kind : Version → String → Option Configuration
of_kind v kind =
    if kind == "ClusterResource"
    then some (resource_configuration v cluster_wide empty)
    else if kind == "ClusterResourceSpec"
    then some (spec_configuration v cluster_wide new_spec)
    else if kind == "ClusterResourceStatus"
    then some (status_configuration v cluster_wide new_status)
    else if kind == "NamespacedResource"
    then some (resource_configuration v namespaced empty)
    else if kind == "NamespacedResourceSpec"
    then some (spec_configuration v namespaced new_spec)
    else if kind == "NamespacedResourceStatus"
    then some (status_configuration v namespaced new_status)
    else none

-- `ForKind`
unfoldable pub for_kind : GroupVersionKind → Option Configuration
unfolding of_kind
for_kind k =
    if k.group == group_name
    then (if k.version == "v1alpha1"
        then of_kind v1alpha1 k.kind
        else if k.version == "v1alpha2"
        then of_kind v1alpha2 k.kind
        else none)
    else none
