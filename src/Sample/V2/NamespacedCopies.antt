-- ===== src/Sample/V2/NamespacedCopies.antt =====
-- The deep copies of NamespacedResources, their lists and their parts in the version v1alpha2
-- (sample-controller/pkg/apis/sample/v1alpha2/zz_generated.deepcopy.go).
use Prim.Native.Nat.{ℕ}
use bad_pen.Base.Heap.{Pointer}
use bad_pen.Copies.{Interface, MetaCopies, Plain, plain_copy_into, plain_copy}
use bad_pen.Sample.{v1alpha2, namespaced}
use bad_pen.Sample.Copies.{
  Memory, resource_copy_into, resource_copy, resource_copy_object, list_copy_into, list_copy,
  list_copy_object,
}
use bad_pen.Sample.V2.Namespaced.{NamespacedResourceSpec, NamespacedResourceStatus}

module _ (c : MetaCopies) where
  abbrev pub resource_deep_copy_into :
      ℕ → ℕ → Memory v1alpha2 namespaced → Memory v1alpha2 namespaced
  resource_deep_copy_into a out h = resource_copy_into c a out h

  abbrev pub resource_deep_copy :
      Pointer → Memory v1alpha2 namespaced → Pointer × Memory v1alpha2 namespaced
  resource_deep_copy p h = resource_copy c p h

  abbrev pub resource_deep_copy_object :
      Pointer → Memory v1alpha2 namespaced → Interface × Memory v1alpha2 namespaced
  resource_deep_copy_object p h = resource_copy_object c p h

  abbrev pub list_deep_copy_into : ℕ → ℕ → Memory v1alpha2 namespaced → Memory v1alpha2 namespaced
  list_deep_copy_into a out h = list_copy_into c a out h

  abbrev pub list_deep_copy :
      Pointer → Memory v1alpha2 namespaced → Pointer × Memory v1alpha2 namespaced
  list_deep_copy p h = list_copy c p h

  abbrev pub list_deep_copy_object :
      Pointer → Memory v1alpha2 namespaced → Interface × Memory v1alpha2 namespaced
  list_deep_copy_object p h = list_copy_object c p h

abbrev pub spec_deep_copy_into : ℕ → ℕ → Plain NamespacedResourceSpec → Plain NamespacedResourceSpec
spec_deep_copy_into a out h = plain_copy_into a out h

abbrev pub spec_deep_copy :
    Pointer → Plain NamespacedResourceSpec → Pointer × Plain NamespacedResourceSpec
spec_deep_copy p h = plain_copy p h

abbrev pub status_deep_copy_into :
    ℕ → ℕ → Plain NamespacedResourceStatus → Plain NamespacedResourceStatus
status_deep_copy_into a out h = plain_copy_into a out h

abbrev pub status_deep_copy :
    Pointer → Plain NamespacedResourceStatus → Pointer × Plain NamespacedResourceStatus
status_deep_copy p h = plain_copy p h
