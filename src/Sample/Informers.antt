-- ===== src/Sample/Informers.antt =====
-- The informers of the resources (sample-controller/pkg/informers/externalversions: factory.go,
-- generic.go, and sample with its two versions). The factory's own methods are those of the Greeter
-- factory, whose text is the same; see `bad_pen.Factory`.
pub mod Laws
use Prim.Native.String
use Prim.Native.String.{String}
use mathlib.Core.Option.{Option, none, some}
use mathlib.Core.List.{List, [], ◌∷◌}
use text.Mathlib.Text.{◌==◌}
use bad_pen.Base.{if◌then◌else◌}
use bad_pen.Base.Result.{Error, failed, Result, ok, err}
use bad_pen.Time.{Duration}
use bad_pen.Client.{ListOptions}
use bad_pen.Client.Rest.{Pointed}
use bad_pen.Client.Fake.{GroupVersionResource}
use bad_pen.Factory.{Factory, informer_for}
use bad_pen.Factory.Greeters.{Tweak, tweaked}
use bad_pen.Sample.{
  Version, v1alpha1, v1alpha2, Scope, namespaced, cluster_wide, ResourceList, Within, group_name,
}
use bad_pen.Sample.Typed.{Server, new_resources, list_resources, watch_resources}
use bad_pen.Sample.Lister.{Indexer, ClusterLister, NamespacedLister}

-- versioned.Interface, with a server for each of the resources.
pub record Client (Watch : Type 0) : Type 0 where
  pub server : (v : Version) (s : Scope) → Server Watch v s

-- cache.ListWatch, for resources of a version and scope.
pub record ListWatch (Watch : Type 0) (v : Version) (s : Scope) : Type 0 where
  pub list_func : ListOptions → Pointed (ResourceList v s)
  pub watch_func : ListOptions → Watch × Option Error

-- cache.NewSharedIndexInformer with its indexers, and an informer's `GetIndexer`.
pub record Cache (Watch I : Type 0) : Type 0 where
  pub new_shared_index_informer :
      (v : Version) (s : Scope) → ListWatch Watch v s → Duration → List String → I
  pub get_indexer : I → Indexer

-- `reflect.TypeOf` of the object that an informer is for.
abbrev pub type_name : Version → Scope → String
type_name v1alpha1 namespaced = "v1alpha1.NamespacedResource"
type_name v1alpha1 cluster_wide = "v1alpha1.ClusterResource"
type_name v1alpha2 namespaced = "v1alpha2.NamespacedResource"
type_name v1alpha2 cluster_wide = "v1alpha2.ClusterResource"

-- The informer of a resource without its factory, which its methods are given.
pub record ResourceInformer (v : Version) (s : Scope) : Type 0 where
  pub place : Within s
  pub tweak_list_options : Option Tweak

abbrev pub SampleFactory : Type 0 → Type 0 → Type 0
SampleFactory Watch I = Factory (Client Watch) I Tweak

-- `schema.GroupVersionResource` with each resource, in the order of the cases of `ForResource`.
unfoldable pub matched : GroupVersionResource → Option (Version × Scope)
matched r =
    if r.group == group_name
    then (if r.version == "v1alpha1"
        then (if r.resource == "clusterresources"
            then some (v1alpha1, cluster_wide)
            else if r.resource == "namespacedresources"
            then some (v1alpha1, namespaced)
            else none)
        else if r.version == "v1alpha2"
        then (if r.resource == "clusterresources"
            then some (v1alpha2, cluster_wide)
            else if r.resource == "namespacedresources"
            then some (v1alpha2, namespaced)
            else none)
        else none)
    else none

abbrev pub no_informer : GroupVersionResource → Error
no_informer r = failed (
    String.◌++◌ "no informer found for " (
      String.◌++◌ r.group
        (String.◌++◌ "/" (String.◌++◌ r.version (String.◌++◌ ", Resource=" r.resource)))))

-- genericInformer
pub record GenericInformer (I : Type 0) : Type 0 where
  pub informer : I
  pub group : String
  pub resource : String

-- What an informer of a scope keeps of the factory's namespace.
unfoldable pub place_of : (s : Scope) → String → Within s
place_of namespaced namespace = namespace
place_of cluster_wide namespace = tt

module _ {Watch I : Type 0} where
  -- `factory.Sample().V1alpha1().ClusterResources()` and the like
  unfoldable pub resource_informer :
      (v : Version) (s : Scope) → SampleFactory Watch I → ResourceInformer v s
  unfolding place_of
  resource_informer v s factory = record {
    place = place_of s factory.namespace;
    tweak_list_options = factory.tweak_list_options;
  }

module _ {Watch : Type 0} (v : Version) (s : Scope) where
  unfoldable pub list_watch : Client Watch → Within s → Option Tweak → ListWatch Watch v s
  unfolding tweaked new_resources list_resources watch_resources
  list_watch client place tweak = record {
    list_func =
        λ options. list_resources (new_resources (client.server v s) place) (tweaked tweak options);
    watch_func = λ options.
        watch_resources (new_resources (client.server v s) place) (tweaked tweak options);
  }

module _ {Watch I : Type 0} (cache : Cache Watch I) (v : Version) (s : Scope) where
  unfoldable pub new_filtered_informer :
      Client Watch → Within s → Duration → List String → Option Tweak → I
  unfolding list_watch
  new_filtered_informer client place resync_period indexers tweak =
      cache.new_shared_index_informer v s (list_watch v s client place tweak) resync_period indexers

  unfoldable pub new_informer : Client Watch → Within s → Duration → List String → I
  unfolding new_filtered_informer
  new_informer client place resync_period indexers =
      new_filtered_informer client place resync_period indexers none

  unfoldable pub default_informer : ResourceInformer v s → Client Watch → Duration → I
  unfolding new_filtered_informer
  default_informer f client resync_period =
      new_filtered_informer client f.place resync_period ("namespace" ∷ []) f.tweak_list_options

  -- `Informer`
  unfoldable pub informer : ResourceInformer v s → SampleFactory Watch I → I × SampleFactory Watch I
  unfolding informer_for default_informer
  informer f factory = informer_for (type_name v s) (default_informer f) factory

module _ {Watch I : Type 0} (cache : Cache Watch I) where
  -- `Lister`
  unfoldable pub cluster_lister :
      (v : Version)
      → ResourceInformer v cluster_wide
      → SampleFactory Watch I
      → ClusterLister v × SampleFactory Watch I
  unfolding informer
  cluster_lister v f factory =
      let (i, factory') = informer cache v cluster_wide f factory in
      (record { indexer = cache.get_indexer i }, factory')

  unfoldable pub namespaced_lister :
      (v : Version)
      → ResourceInformer v namespaced
      → SampleFactory Watch I
      → NamespacedLister v × SampleFactory Watch I
  unfolding informer
  namespaced_lister v f factory =
      let (i, factory') = informer cache v namespaced f factory in
      (record { indexer = cache.get_indexer i }, factory')

  unfoldable pub informer_of :
      GroupVersionResource
      → SampleFactory Watch I
      → Option (Version × Scope)
      → Result (GenericInformer I) × SampleFactory Watch I
  unfolding informer resource_informer
  informer_of r factory none = (err (no_informer r), factory)
  informer_of r factory (some (v, s)) =
      let (i, factory') = informer cache v s (resource_informer v s factory) factory in
      (ok (record { informer = i; group = r.group; resource = r.resource }), factory')

  -- `ForResource`
  unfoldable pub for_resource :
      GroupVersionResource
      → SampleFactory Watch I
      → Result (GenericInformer I) × SampleFactory Watch I
  unfolding informer_of matched
  for_resource r factory = informer_of r factory (matched r)
