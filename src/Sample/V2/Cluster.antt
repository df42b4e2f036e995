-- ===== src/Sample/V2/Cluster.antt =====
-- The type ClusterResource and its typed client in the version v1alpha2
-- (sample-controller/pkg/apis/sample/v1alpha2/types.go, and clientset/versioned/typed/sample/
-- v1alpha2/clusterresource.go).
use Prim.Native.String.{String}
use mathlib.Core.Option.{Option}
use mathlib.Core.List.{List}
use bad_pen.Base.Result.{Error, Checked}
use bad_pen.Client.{
  GetOptions, ListOptions, CreateOptions, UpdateOptions, DeleteOptions, PatchOptions, ApplyOptions,
}
use bad_pen.Client.Rest.{Pointed}
use bad_pen.Sample.{v1alpha2, cluster_wide, Resource, ResourceList, ResourceSpec, ResourceStatus}
use bad_pen.Sample.Apply.{ResourceApply}
use bad_pen.Sample.Typed.{
  Encoding, Server, Resources, new_resources, get_resource, list_resources, watch_resources,
  create_resource, update_resource, update_resource_status, delete_resource, delete_resources,
  patch_resource, apply_resource, apply_resource_status,
}

abbrev pub ClusterResourceSpec : Type 0
ClusterResourceSpec = ResourceSpec v1alpha2 cluster_wide

abbrev pub ClusterResourceStatus : Type 0
ClusterResourceStatus = ResourceStatus v1alpha2 cluster_wide

abbrev pub ClusterResource : Type 0
ClusterResource = Resource v1alpha2 cluster_wide

abbrev pub ClusterResourceList : Type 0
ClusterResourceList = ResourceList v1alpha2 cluster_wide

abbrev pub ClusterResources : Type 0 → Type 0
ClusterResources Watch = Resources Watch v1alpha2 cluster_wide

abbrev pub new_cluster_resources :
    {Watch : Type 0} → Server Watch v1alpha2 cluster_wide → ClusterResources Watch
new_cluster_resources client = new_resources client tt

abbrev pub get :
    {Watch : Type 0} → ClusterResources Watch → String → GetOptions → Pointed ClusterResource
get c = get_resource c

abbrev pub list :
    {Watch : Type 0} → ClusterResources Watch → ListOptions → Pointed ClusterResourceList
list c = list_resources c

abbrev pub watch : {Watch : Type 0} → ClusterResources Watch → ListOptions → Watch × Option Error
watch c = watch_resources c

abbrev pub create :
    {Watch : Type 0}
    → ClusterResources Watch
    → ClusterResource
    → CreateOptions
    → Pointed ClusterResource
create c = create_resource c

abbrev pub update :
    {Watch : Type 0}
    → ClusterResources Watch
    → ClusterResource
    → UpdateOptions
    → Pointed ClusterResource
update c = update_resource c

abbrev pub update_status :
    {Watch : Type 0}
    → ClusterResources Watch
    → ClusterResource
    → UpdateOptions
    → Pointed ClusterResource
update_status c = update_resource_status c

abbrev pub delete :
    {Watch : Type 0} → ClusterResources Watch → String → DeleteOptions → Option Error
delete c = delete_resource c

abbrev pub delete_collection :
    {Watch : Type 0} → ClusterResources Watch → DeleteOptions → ListOptions → Option Error
delete_collection c = delete_resources c

abbrev pub patch :
    {Watch : Type 0}
    → ClusterResources Watch
    → String
    → String
    → String
    → PatchOptions
    → List String
    → Pointed ClusterResource
patch c = patch_resource c

abbrev pub apply :
    {Watch : Type 0}
    → Encoding v1alpha2 cluster_wide
    → ClusterResources Watch
    → Option (ResourceApply v1alpha2 cluster_wide)
    → ApplyOptions
    → Checked (Pointed ClusterResource)
apply encoding c = apply_resource encoding c

abbrev pub apply_status :
    {Watch : Type 0}
    → Encoding v1alpha2 cluster_wide
    → ClusterResources Watch
    → Option (ResourceApply v1alpha2 cluster_wide)
    → ApplyOptions
    → Checked (Pointed ClusterResource)
apply_status encoding c = apply_resource_status encoding c
