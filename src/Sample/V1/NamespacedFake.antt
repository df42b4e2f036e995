-- ===== src/Sample/V1/NamespacedFake.antt =====
-- The fake client of NamespacedResources in the version v1alpha1 (sample-controller/pkg/clientset/
-- versioned/typed/sample/v1alpha1/fake/fake_namespacedresource.go).
use Prim.Native.String.{String}
use mathlib.Core.Option.{Option}
use mathlib.Core.List.{List}
use bad_pen.Base.Result.{Error, Checked}
use bad_pen.Client.{
  GetOptions, ListOptions, CreateOptions, UpdateOptions, DeleteOptions, PatchOptions, ApplyOptions,
}
use bad_pen.Client.Rest.{Pointed}
use bad_pen.Sample.{v1alpha1, namespaced}
use bad_pen.Sample.Apply.{ResourceApply}
use bad_pen.Sample.Typed.{Encoding}
use bad_pen.Sample.Fake.{
  FakeResources, fake_get, fake_list, fake_watch, fake_create, fake_update, fake_update_status,
  fake_delete, fake_delete_collection, fake_patch, fake_apply, fake_apply_status,
}
use bad_pen.Sample.V1.Namespaced.{NamespacedResource, NamespacedResourceList}

abbrev pub FakeNamespacedResources : Type 0 → Type 0
FakeNamespacedResources Watch = FakeResources Watch v1alpha1 namespaced

abbrev pub get :
    {Watch : Type 0}
    → FakeNamespacedResources Watch
    → String
    → GetOptions
    → Checked (Pointed NamespacedResource)
get c = fake_get c

abbrev pub list :
    {Watch : Type 0}
    → FakeNamespacedResources Watch
    → ListOptions
    → Checked (Pointed NamespacedResourceList)
list c = fake_list c

abbrev pub watch :
    {Watch : Type 0} → FakeNamespacedResources Watch → ListOptions → Watch × Option Error
watch c = fake_watch c

abbrev pub create :
    {Watch : Type 0}
    → FakeNamespacedResources Watch
    → NamespacedResource
    → CreateOptions
    → Checked (Pointed NamespacedResource)
create c = fake_create c

abbrev pub update :
    {Watch : Type 0}
    → FakeNamespacedResources Watch
    → NamespacedResource
    → UpdateOptions
    → Checked (Pointed NamespacedResource)
update c = fake_update c

abbrev pub update_status :
    {Watch : Type 0}
    → FakeNamespacedResources Watch
    → NamespacedResource
    → UpdateOptions
    → Checked (Pointed NamespacedResource)
update_status c = fake_update_status c

abbrev pub delete :
    {Watch : Type 0} → FakeNamespacedResources Watch → String → DeleteOptions → Option Error
delete c = fake_delete c

abbrev pub delete_collection :
    {Watch : Type 0} → FakeNamespacedResources Watch → DeleteOptions → ListOptions → Option Error
delete_collection c = fake_delete_collection c

abbrev pub patch :
    {Watch : Type 0}
    → FakeNamespacedResources Watch
    → String
    → String
    → String
    → PatchOptions
    → List String
    → Checked (Pointed NamespacedResource)
patch c = fake_patch c

abbrev pub apply :
    {Watch : Type 0}
    → Encoding v1alpha1 namespaced
    → FakeNamespacedResources Watch
    → Option (ResourceApply v1alpha1 namespaced)
    → ApplyOptions
    → Checked (Pointed NamespacedResource)
apply encoding c = fake_apply encoding c

abbrev pub apply_status :
    {Watch : Type 0}
    → Encoding v1alpha1 namespaced
    → FakeNamespacedResources Watch
    → Option (ResourceApply v1alpha1 namespaced)
    → ApplyOptions
    → Checked (Pointed NamespacedResource)
apply_status encoding c = fake_apply_status encoding c
