-- ===== src/Sample/V2/ClusterCache.antt =====
-- The lister and the informer of ClusterResources in the version v1alpha2 (sample-controller/pkg:
-- listers/sample/v1alpha2/clusterresource.go, and clusterresource.go and interface.go of informers/
-- externalversions/sample/v1alpha2).
use Prim.Native.String.{String}
use mathlib.Core.Option.{Option}
use mathlib.Core.List.{List}
use bad_pen.Base.Result.{Error, Result, Checked}
use bad_pen.Time.{Duration}
use bad_pen.Lister.{Selector}
use bad_pen.Factory.Greeters.{Tweak}
use bad_pen.Sample.{v1alpha2, cluster_wide}
use bad_pen.Sample.Lister.{Indexer, ClusterLister, list_cluster, get_cluster}
use bad_pen.Sample.Informers.{
  Client, Cache, SampleFactory, ResourceInformer, resource_informer, new_filtered_informer,
  new_informer, default_informer, informer, cluster_lister,
}
use bad_pen.Sample.V2.Cluster.{ClusterResource}

abbrev pub ClusterResourceLister : Type 0
ClusterResourceLister = ClusterLister v1alpha2

abbrev pub new_cluster_resource_lister : Indexer → ClusterResourceLister
new_cluster_resource_lister indexer = record { indexer = indexer }

abbrev pub list : ClusterResourceLister → Selector → Checked (List ClusterResource × Option Error)
list l selector = list_cluster l selector

abbrev pub get : ClusterResourceLister → String → Checked (Result ClusterResource)
get l name = get_cluster l name

abbrev pub ClusterResourceInformer : Type 0
ClusterResourceInformer = ResourceInformer v1alpha2 cluster_wide

-- `ClusterResources` of the version's informers
abbrev pub cluster_resources_informer :
    {Watch I : Type 0} → SampleFactory Watch I → ClusterResourceInformer
cluster_resources_informer factory = resource_informer v1alpha2 cluster_wide factory

module _ {Watch I : Type 0} (cache : Cache Watch I) where
  abbrev pub new_filtered_cluster_resource_informer :
      Client Watch → Duration → List String → Option Tweak → I
  new_filtered_cluster_resource_informer client resync_period indexers tweak =
      new_filtered_informer cache v1alpha2 cluster_wide client tt resync_period indexers tweak

  abbrev pub new_cluster_resource_informer : Client Watch → Duration → List String → I
  new_cluster_resource_informer client resync_period indexers =
      new_informer cache v1alpha2 cluster_wide client tt resync_period indexers

  abbrev pub default_cluster_resource_informer :
      ClusterResourceInformer → Client Watch → Duration → I
  default_cluster_resource_informer f client resync_period =
      default_informer cache v1alpha2 cluster_wide f client resync_period

  abbrev pub cluster_resource_informer :
      ClusterResourceInformer → SampleFactory Watch I → I × SampleFactory Watch I
  cluster_resource_informer f factory = informer cache v1alpha2 cluster_wide f factory

  abbrev pub cluster_resource_lister :
      ClusterResourceInformer
      → SampleFactory Watch I
      → ClusterResourceLister × SampleFactory Watch I
  cluster_resource_lister f factory = cluster_lister cache v1alpha2 f factory
