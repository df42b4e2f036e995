-- ===== src/Sample/V1/NamespacedCache.antt =====
-- The lister and the informer of NamespacedResources in the version v1alpha1 (sample-controller/pkg:
-- listers/sample/v1alpha1/namespacedresource.go, and namespacedresource.go and interface.go of informers/
-- externalversions/sample/v1alpha1).
use Prim.Native.String.{String}
use mathlib.Core.Option.{Option}
use mathlib.Core.List.{List}
use bad_pen.Base.Result.{Error, Result, Checked}
use bad_pen.Time.{Duration}
use bad_pen.Lister.{Selector}
use bad_pen.Factory.Greeters.{Tweak}
use bad_pen.Sample.{v1alpha1, namespaced}
use bad_pen.Sample.Lister.{
  Indexer, NamespacedLister, NamespaceLister, list_all, in_namespace, list_namespace,
  get_namespaced,
}
use bad_pen.Sample.Informers.{
  Client, Cache, SampleFactory, ResourceInformer, resource_informer, new_filtered_informer,
  new_informer, default_informer, informer, namespaced_lister,
}
use bad_pen.Sample.V1.Namespaced.{NamespacedResource}

abbrev pub NamespacedResourceLister : Type 0
NamespacedResourceLister = NamespacedLister v1alpha1

abbrev pub new_namespaced_resource_lister : Indexer → NamespacedResourceLister
new_namespaced_resource_lister indexer = record { indexer = indexer }

abbrev pub list :
    NamespacedResourceLister → Selector → Checked (List NamespacedResource × Option Error)
list l selector = list_all l selector

abbrev pub NamespacedResourceNamespaceLister : Type 0
NamespacedResourceNamespaceLister = NamespaceLister v1alpha1

abbrev pub namespaced_resources :
    NamespacedResourceLister → String → NamespacedResourceNamespaceLister
namespaced_resources l namespace = in_namespace l namespace

abbrev pub list_in :
    NamespacedResourceNamespaceLister → Selector → Checked (List NamespacedResource × Option Error)
list_in l selector = list_namespace l selector

abbrev pub get : NamespacedResourceNamespaceLister → String → Checked (Result NamespacedResource)
get l name = get_namespaced l name

abbrev pub NamespacedResourceInformer : Type 0
NamespacedResourceInformer = ResourceInformer v1alpha1 namespaced

-- `NamespacedResources` of the version's informers
abbrev pub namespaced_resources_informer :
    {Watch I : Type 0} → SampleFactory Watch I → NamespacedResourceInformer
namespaced_resources_informer factory = resource_informer v1alpha1 namespaced factory

module _ {Watch I : Type 0} (cache : Cache Watch I) where
  abbrev pub new_filtered_namespaced_resource_informer :
      Client Watch → String → Duration → List String → Option Tweak → I
  new_filtered_namespaced_resource_informer client namespace resync_period indexers tweak =
      new_filtered_informer cache v1alpha1 namespaced client namespace resync_period indexers tweak

  abbrev pub new_namespaced_resource_informer : Client Watch → String → Duration → List String → I
  new_namespaced_resource_informer client namespace resync_period indexers =
      new_informer cache v1alpha1 namespaced client namespace resync_period indexers

  abbrev pub default_namespaced_resource_informer :
      NamespacedResourceInformer → Client Watch → Duration → I
  default_namespaced_resource_informer f client resync_period =
      default_informer cache v1alpha1 namespaced f client resync_period

  abbrev pub namespaced_resource_informer :
      NamespacedResourceInformer → SampleFactory Watch I → I × SampleFactory Watch I
  namespaced_resource_informer f factory = informer cache v1alpha1 namespaced f factory

  abbrev pub namespaced_resource_lister :
      NamespacedResourceInformer
      → SampleFactory Watch I
      → NamespacedResourceLister × SampleFactory Watch I
  namespaced_resource_lister f factory = namespaced_lister cache v1alpha1 f factory
