-- ===== src/Sample/Lister.antt =====
-- The listers of the resources (sample-controller/pkg/listers/sample, of both versions), over an
-- indexer that is a parameter.
pub mod Laws
use Prim.Native.String
use Prim.Native.String.{String}
use mathlib.Core.Option.{Option, none, some}
use mathlib.Core.List.{List, [], ◌∷◌}
use bad_pen.Base.Result.{Error, Result, ok, err, Checked, returned, panicked}
use bad_pen.Kube.{new_not_found}
use bad_pen.Lister.{Selector}
use bad_pen.Sample.{Version, v1alpha1, v1alpha2, Scope, namespaced, cluster_wide, Resource}

-- What a cache may hold.
pub data Object : Type 0 where
  cluster_v1 : Resource v1alpha1 cluster_wide → Object
  namespaced_v1 : Resource v1alpha1 namespaced → Object
  cluster_v2 : Resource v1alpha2 cluster_wide → Object
  namespaced_v2 : Resource v1alpha2 namespaced → Object
  other_object : Object

-- The type assertion on an object.
unfoldable pub as_resource : (v : Version) (s : Scope) → Object → Checked (Resource v s)
as_resource v1alpha1 cluster_wide (cluster_v1 r) = returned r
as_resource v1alpha1 namespaced (namespaced_v1 r) = returned r
as_resource v1alpha2 cluster_wide (cluster_v2 r) = returned r
as_resource v1alpha2 namespaced (namespaced_v2 r) = returned r
as_resource v s object = panicked

-- cache.Indexer: the object under a key, and what `ListAll` and `ListAllByNamespace` hand to their
-- callback, with the error that they return.
pub record Indexer : Type 0 where
  pub get_by_key : String → Result (Option Object)
  pub list_all : Selector → List Object × Option Error
  pub list_all_by_namespace : String → Selector → List Object × Option Error

module _ {v : Version} {s : Scope} where
  add_resource :
      Checked (Resource v s) → Checked (List (Resource v s)) → Checked (List (Resource v s))
  add_resource (returned r) (returned rs) = returned (r ∷ rs)
  add_resource (returned r) panicked = panicked
  add_resource panicked rest = panicked

  with_error :
      Option Error → Checked (List (Resource v s)) → Checked (List (Resource v s) × Option Error)
  with_error e (returned rs) = returned (rs, e)
  with_error e panicked = panicked

-- The callback of `List`, for each object: the resource is appended to what is returned.
unfoldable pub append_resources :
    (v : Version) (s : Scope) → List Object → Checked (List (Resource v s))
unfolding as_resource add_resource
append_resources v s [] = returned []
append_resources v s (object ∷ objects) =
    add_resource (as_resource v s object) (append_resources v s objects)

found : (v : Version) (s : Scope) → Error → Result (Option Object) → Checked (Result (Resource v s))
unfolding as_resource
found v s missing (err e) = returned (err e)
found v s missing (ok none) = returned (err missing)
found v s missing (ok (some object)) = elim (as_resource v s object) [
  | returned r ↦ returned (ok r)
  | panicked ↦ panicked
]

pub record ClusterLister (v : Version) : Type 0 where
  pub indexer : Indexer

pub record NamespacedLister (v : Version) : Type 0 where
  pub indexer : Indexer

pub record NamespaceLister (v : Version) : Type 0 where
  pub indexer : Indexer
  pub namespace : String

module _ {v : Version} where
  -- `List` of a cluster-wide lister
  unfoldable pub list_cluster :
      ClusterLister v → Selector → Checked (List (Resource v cluster_wide) × Option Error)
  unfolding append_resources with_error
  list_cluster l selector =
      let (objects, e) = l.indexer.list_all selector in
      with_error e (append_resources v cluster_wide objects)

  -- `Get` of a cluster-wide lister: the name is the key.
  unfoldable pub get_cluster : ClusterLister v → String → Checked (Result (Resource v cluster_wide))
  unfolding found
  get_cluster l name =
      found v cluster_wide (new_not_found "clusterresource.sample.example.org" name)
        (l.indexer.get_by_key name)

  -- `List` of a lister of all namespaces
  unfoldable pub list_all :
      NamespacedLister v → Selector → Checked (List (Resource v namespaced) × Option Error)
  unfolding append_resources with_error
  list_all l selector =
      let (objects, e) = l.indexer.list_all selector in
      with_error e (append_resources v namespaced objects)

  -- `NamespacedResources`
  unfoldable pub in_namespace : NamespacedLister v → String → NamespaceLister v
  in_namespace l namespace = record { indexer = l.indexer; namespace = namespace }

  -- `List` of a lister of one namespace
  unfoldable pub list_namespace :
      NamespaceLister v → Selector → Checked (List (Resource v namespaced) × Option Error)
  unfolding append_resources with_error
  list_namespace l selector =
      let (objects, e) = l.indexer.list_all_by_namespace l.namespace selector in
      with_error e (append_resources v namespaced objects)

  -- `Get` of a lister of one namespace
  unfoldable pub get_namespaced :
      NamespaceLister v → String → Checked (Result (Resource v namespaced))
  unfolding found
  get_namespaced l name =
      found v namespaced (new_not_found "namespacedresource.sample.example.org" name)
        (l.indexer.get_by_key (String.◌++◌ l.namespace (String.◌++◌ "/" name)))
