-- ===== src/Sample/V2/ClusterFake.antt =====
-- The fake client of ClusterResources in the version v1alpha2 (sample-controller/pkg/clientset/
-- versioned/typed/sample/v1alpha2/fake/fake_clusterresource.go).
use Prim.Native.String.{String}
use mathlib.Core.Option.{Option}
use mathlib.Core.List.{List}
use bad_pen.Base.Result.{Error, Checked}
use bad_pen.Client.{
  GetOptions, ListOptions, CreateOptions, UpdateOptions, DeleteOptions, PatchOptions, ApplyOptions,
}
use bad_pen.Client.Rest.{Pointed}
use bad_pen.Sample.{v1alpha2, cluster_wide}
use bad_pen.Sample.Apply.{ResourceApply}
use bad_pen.Sample.Typed.{Encoding}
use bad_pen.Sample.Fake.{
  FakeResources, fake_get, fake_list, fake_watch, fake_create, fake_update, fake_update_status,
  fake_delete, fake_delete_collection, fake_patch, fake_apply, fake_apply_status,
}
use bad_pen.Sample.V2.Cluster.{ClusterResource, ClusterResourceList}

abbrev pub FakeClusterResources : Type 0 → Type 0
FakeClusterResources Watch = FakeResources Watch v1alpha2 cluster_wide

abbrev pub get :
    {Watch : Type 0}
    → FakeClusterResources Watch
    → String
    → GetOptions
    → Checked (Pointed ClusterResource)
get c = fake_get c

abbrev pub list :
    {Watch : Type 0}
    → FakeClusterResources Watch
    → ListOptions
    → Checked (Pointed ClusterResourceList)
list c = fake_list c

abbrev pub watch :
    {Watch : Type 0} → FakeClusterResources Watch → ListOptions → Watch × Option Error
watch c = fake_watch c

abbrev pub create :
    {Watch : Type 0}
    → FakeClusterResources Watch
    → ClusterResource
    → CreateOptions
    → Checked (Pointed ClusterResource)
create c = fake_create c

abbrev pub update :
    {Watch : Type 0}
    → FakeClusterResources Watch
    → ClusterResource
    → UpdateOptions
    → Checked (Pointed ClusterResource)
update c = fake_update c

abbrev pub update_status :
    {Watch : Type 0}
    → FakeClusterResources Watch
    → ClusterResource
    → UpdateOptions
    → Checked (Pointed ClusterResource)
update_status c = fake_update_status c

abbrev pub delete :
    {Watch : Type 0} → FakeClusterResources Watch → String → DeleteOptions → Option Error
delete c = fake_delete c

abbrev pub delete_collection :
    {Watch : Type 0} → FakeClusterResources Watch → DeleteOptions → ListOptions → Option Error
delete_collection c = fake_delete_collection c

abbrev pub patch :
    {Watch : Type 0}
    → FakeClusterResources Watch
    → String
    → String
    → String
    → PatchOptions
    → List String
    → Checked (Pointed ClusterResource)
patch c = fake_patch c

abbrev pub apply :
    {Watch : Type 0}
    → Encoding v1alpha2 cluster_wide
    → FakeClusterResources Watch
    → Option (ResourceApply v1alpha2 cluster_wide)
    → ApplyOptions
    → Checked (Pointed ClusterResource)
apply encoding c = fake_apply encoding c

abbrev pub apply_status :
    {Watch : Type 0}
    → Encoding v1alpha2 cluster_wide
    → FakeClusterResources Watch
    → Option (ResourceApply v1alpha2 cluster_wide)
    → ApplyOptions
    → Checked (Pointed ClusterResource)
apply_status encoding c = fake_apply_status encoding c
