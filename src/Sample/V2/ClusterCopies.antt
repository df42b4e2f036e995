-- ===== src/Sample/V2/ClusterCopies.antt =====
-- The deep copies of ClusterResources, their lists and their parts in the version v1alpha2
-- (sample-controller/pkg/apis/sample/v1alpha2/zz_generated.deepcopy.go).
use Prim.Native.Nat.{ℕ}
use bad_pen.Base.Heap.{Pointer}
use bad_pen.Copies.{Interface, MetaCopies, Plain, plain_copy_into, plain_copy}
use bad_pen.Sample.{v1alpha2, cluster_wide}
use bad_pen.Sample.Copies.{
  Memory, resource_copy_into, resource_copy, resource_copy_object, list_copy_into, list_copy,
  list_copy_object,
}
use bad_pen.Sample.V2.Cluster.{ClusterResourceSpec, ClusterResourceStatus}

module _ (c : MetaCopies) where
  abbrev pub resource_deep_copy_into :
      ℕ → ℕ → Memory v1alpha2 cluster_wide → Memory v1alpha2 cluster_wide
  resource_deep_copy_into a out h = resource_copy_into c a out h

  abbrev pub resource_deep_copy :
      Pointer → Memory v1alpha2 cluster_wide → Pointer × Memory v1alpha2 cluster_wide
  resource_deep_copy p h = resource_copy c p h

  abbrev pub resource_deep_copy_object :
      Pointer → Memory v1alpha2 cluster_wide → Interface × Memory v1alpha2 cluster_wide
  resource_deep_copy_object p h = resource_copy_object c p h

  abbrev pub list_deep_copy_into :
      ℕ → ℕ → Memory v1alpha2 cluster_wide → Memory v1alpha2 cluster_wide
  list_deep_copy_into a out h = list_copy_into c a out h

  abbrev pub list_deep_copy :
      Pointer → Memory v1alpha2 cluster_wide → Pointer × Memory v1alpha2 cluster_wide
  list_deep_copy p h = list_copy c p h

  abbrev pub list_deep_copy_object :
      Pointer → Memory v1alpha2 cluster_wide → Interface × Memory v1alpha2 cluster_wide
  list_deep_copy_object p h = list_copy_object c p h

abbrev pub spec_deep_copy_into : ℕ → ℕ → Plain ClusterResourceSpec → Plain ClusterResourceSpec
spec_deep_copy_into a out h = plain_copy_into a out h

abbrev pub spec_deep_copy :
    Pointer → Plain ClusterResourceSpec → Pointer × Plain ClusterResourceSpec
spec_deep_copy p h = plain_copy p h

abbrev pub status_deep_copy_into : ℕ → ℕ → Plain ClusterResourceStatus → Plain ClusterResourceStatus
status_deep_copy_into a out h = plain_copy_into a out h

abbrev pub status_deep_copy :
    Pointer → Plain ClusterResourceStatus → Pointer × Plain ClusterResourceStatus
status_deep_copy p h = plain_copy p h
