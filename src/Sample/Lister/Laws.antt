-- ===== src/Sample/Lister/Laws.antt =====
-- What the listers of the resources answer (sample-controller/pkg/listers/sample, of both versions).
use mathlib.Core.Path.{◌≡◌, refl, ap, ◌∙◌}
use mathlib.Core.Logic.{◌↔◌}
use mathlib.Core.Option.{Option}
use mathlib.Core.List.{List, [], ◌∷◌, map}
use native.Mathlib.Omega.{arith}
use bad_pen.Base.Result.{Error, Checked, returned, panicked}
use bad_pen.Lister.{Selector}
use bad_pen.Sample.{Version, v1alpha1, v1alpha2, Scope, namespaced, cluster_wide, Resource}
use bad_pen.Sample.Lister.{
  Object, cluster_v1, namespaced_v1, cluster_v2, namespaced_v2, as_resource, add_resource,
  append_resources, with_error, Indexer, ClusterLister, NamespaceLister, list_cluster,
  list_namespace,
}

-- A resource, as an object of a cache.
abbrev pub object_of : (v : Version) (s : Scope) → Resource v s → Object
object_of v1alpha1 cluster_wide r = cluster_v1 r
object_of v1alpha1 namespaced r = namespaced_v1 r
object_of v1alpha2 cluster_wide r = cluster_v2 r
object_of v1alpha2 namespaced r = namespaced_v2 r

as_resource-object_of :
    (v : Version) (s : Scope) (r : Resource v s) → as_resource v s (object_of v s r) ≡ returned r
unfolding as_resource
as_resource-object_of v1alpha1 cluster_wide r = refl
as_resource-object_of v1alpha1 namespaced r = refl
as_resource-object_of v1alpha2 cluster_wide r = refl
as_resource-object_of v1alpha2 namespaced r = refl

object_of-as_resource :
    (v : Version) (s : Scope) (object : Object) (r : Resource v s)
    → as_resource v s object ≡ returned r
    → object ≡ object_of v s r
unfolding as_resource
object_of-as_resource v1alpha1 cluster_wide object r e = ground arith
object_of-as_resource v1alpha1 namespaced object r e = ground arith
object_of-as_resource v1alpha2 cluster_wide object r e = ground arith
object_of-as_resource v1alpha2 namespaced object r e = ground arith

module _ (v : Version) (s : Scope) where
  -- Reading back what a cache of resources holds.
  append_resources-map :
      (rs : List (Resource v s)) → append_resources v s (map (object_of v s) rs) ≡ returned rs
  unfolding append_resources add_resource
  append_resources-map [] = refl
  append_resources-map (r ∷ rs) = rw (as_resource-object_of v s r, append_resources-map rs) refl

  add_resource-eq :
      (object : Object) (objects : List Object) (a : Checked (Resource v s))
      (more : Checked (List (Resource v s))) (rs : List (Resource v s))
      → add_resource a more ≡ returned rs
      → (as_resource v s object ≡ a)
      → ((rs' : List (Resource v s)) → more ≡ returned rs' → objects ≡ map (object_of v s) rs')
      → object ∷ objects ≡ map (object_of v s) rs
  unfolding add_resource
  add_resource-eq object objects (returned r) (returned rs') rs e same rest =
      cc (object_of-as_resource v s object r same, rest rs' refl)
  add_resource-eq object objects (returned r) panicked rs e same rest = cc
  add_resource-eq object objects panicked more rs e same rest = cc

  append_resources-returned :
      (objects : List Object) (rs : List (Resource v s))
      → append_resources v s objects ≡ returned rs
      → objects ≡ map (object_of v s) rs
  unfolding append_resources
  append_resources-returned [] rs e = cc
  append_resources-returned (object ∷ objects) rs e =
      add_resource-eq object objects _ _ rs e refl (append_resources-returned objects)

  with_error-returned :
      (e' : Option Error) (found : Checked (List (Resource v s))) (rs : List (Resource v s))
      (e : Option Error)
      → with_error e' found ≡ returned (rs, e)
      → (found ≡ returned rs) × (e' ≡ e)
  unfolding with_error
  with_error-returned e' (returned rs') rs e h = (cc, cc)
  with_error-returned e' panicked rs e h = absurd (cc)

  with_error-eq :
      (answer : List Object × Option Error) (rs : List (Resource v s)) (e : Option Error)
      → (with_error answer.1 (append_resources v s answer.0) ≡ returned (rs, e))
        ↔ (answer ≡ (map (object_of v s) rs, e))
  unfolding with_error
  with_error-eq (objects, e') rs e = (
    λ h.
        let (listed, same) = with_error-returned e' (append_resources v s objects) rs e h in
        λ i. (append_resources-returned objects rs listed i, same i),
    λ h.
        ap (λ x. with_error x.1 (append_resources v s x.0)) h
        ∙ ap (with_error e) (append_resources-map rs),
  )

-- A lister returns a list of resources exactly if its cache answers with these as objects, in this
-- order, and with the same error: nothing is dropped, changed or taken for a resource of another
-- type. So for the resources of one namespace and for the cluster-wide ones, in both versions.
pub list_exactly :
    (v : Version) (l : NamespaceLister v) (c : ClusterLister v) (selector : Selector)
    (rs : List (Resource v namespaced)) (cs : List (Resource v cluster_wide)) (e : Option Error)
    → ((list_namespace l selector ≡ returned (rs, e)) ↔ (
        Indexer.list_all_by_namespace l.indexer l.namespace selector
        ≡ (map (object_of v namespaced) rs, e)))
      × ((list_cluster c selector ≡ returned (cs, e))
          ↔ (Indexer.list_all c.indexer selector ≡ (map (object_of v cluster_wide) cs, e)))
unfolding list_namespace list_cluster
list_exactly v l c selector rs cs e = (
  with_error-eq v namespaced (Indexer.list_all_by_namespace l.indexer l.namespace selector) rs e,
  with_error-eq v cluster_wide (Indexer.list_all c.indexer selector) cs e,
)
