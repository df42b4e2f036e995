-- ===== src/Sample/V2/Namespaced.antt =====
-- The type NamespacedResource and its typed client in the version v1alpha2
-- (sample-controller/pkg/apis/sample/v1alpha2/types.go, and clientset/versioned/typed/sample/
-- v1alpha2/namespacedresource.go).
use Prim.Native.String.{String}
use mathlib.Core.Option.{Option}
use mathlib.Core.List.{List}
use bad_pen.Base.Result.{Error, Checked}
use bad_pen.Client.{
  GetOptions, ListOptions, CreateOptions, UpdateOptions, DeleteOptions, PatchOptions, ApplyOptions,
}
use bad_pen.Client.Rest.{Pointed}
use bad_pen.Sample.{v1alpha2, namespaced, Resource, ResourceList, ResourceSpec, ResourceStatus}
use bad_pen.Sample.Apply.{ResourceApply}
use bad_pen.Sample.Typed.{
  Encoding, Server, Resources, new_resources, get_resource, list_resources, watch_resources,
  create_resource, update_resource, update_resource_status, delete_resource, delete_resources,
  patch_resource, apply_resource, apply_resource_status,
}

abbrev pub NamespacedResourceSpec : Type 0
NamespacedResourceSpec = ResourceSpec v1alpha2 namespaced

abbrev pub NamespacedResourceStatus : Type 0
NamespacedResourceStatus = ResourceStatus v1alpha2 namespaced

abbrev pub NamespacedResource : Type 0
NamespacedResource = Resource v1alpha2 namespaced

abbrev pub NamespacedResourceList : Type 0
NamespacedResourceList = ResourceList v1alpha2 namespaced

abbrev pub NamespacedResources : Type 0 → Type 0
NamespacedResources Watch = Resources Watch v1alpha2 namespaced

abbrev pub new_namespaced_resources :
    {Watch : Type 0} → Server Watch v1alpha2 namespaced → String → NamespacedResources Watch
new_namespaced_resources client namespace = new_resources client namespace

abbrev pub get :
    {Watch : Type 0} → NamespacedResources Watch → String → GetOptions → Pointed NamespacedResource
get c = get_resource c

abbrev pub list :
    {Watch : Type 0} → NamespacedResources Watch → ListOptions → Pointed NamespacedResourceList
list c = list_resources c

abbrev pub watch : {Watch : Type 0} → NamespacedResources Watch → ListOptions → Watch × Option Error
watch c = watch_resources c

abbrev pub create :
    {Watch : Type 0}
    → NamespacedResources Watch
    → NamespacedResource
    → CreateOptions
    → Pointed NamespacedResource
create c = create_resource c

abbrev pub update :
    {Watch : Type 0}
    → NamespacedResources Watch
    → NamespacedResource
    → UpdateOptions
    → Pointed NamespacedResource
update c = update_resource c

abbrev pub update_status :
    {Watch : Type 0}
    → NamespacedResources Watch
    → NamespacedResource
    → UpdateOptions
    → Pointed NamespacedResource
update_status c = update_resource_status c

abbrev pub delete :
    {Watch : Type 0} → NamespacedResources Watch → String → DeleteOptions → Option Error
delete c = delete_resource c

abbrev pub delete_collection :
    {Watch : Type 0} → NamespacedResources Watch → DeleteOptions → ListOptions → Option Error
delete_collection c = delete_resources c

abbrev pub patch :
    {Watch : Type 0}
    → NamespacedResources Watch
    → String
    → String
    → String
    → PatchOptions
    → List String
    → Pointed NamespacedResource
patch c = patch_resource c

abbrev pub apply :
    {Watch : Type 0}
    → Encoding v1alpha2 namespaced
    → NamespacedResources Watch
    → Option (ResourceApply v1alpha2 namespaced)
    → ApplyOptions
    → Checked (Pointed NamespacedResource)
apply encoding c = apply_resource encoding c

abbrev pub apply_status :
    {Watch : Type 0}
    → Encoding v1alpha2 namespaced
    → NamespacedResources Watch
    → Option (ResourceApply v1alpha2 namespaced)
    → ApplyOptions
    → Checked (Pointed NamespacedResource)
apply_status encoding c = apply_resource_status encoding c
