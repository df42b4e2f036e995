-- ===== src/Sample.antt =====
-- The resources of sample-controller (sample-controller/pkg/apis/sample, under kubernetes/
-- programming-k8s/programming_k8s): a namespaced and a cluster-wide one, in two versions. The four
-- types have the same fields, and the code that is generated for them differs in the names and in
-- whether it has a namespace, so that they are one family here, by version and scope; `V1` and `V2`
-- have the functions of each version under their own names.
pub mod Typed
pub mod Fake
pub mod Lister
pub mod Apply
pub mod Informers
pub mod SharedFactory
pub mod Clientset
pub mod Accessors
pub mod Copies
pub mod V1
pub mod V2
pub mod Requests
pub mod Agreement
mod Tests
use Prim.Native.String.{String}
use mathlib.Core.List.{List}
use bad_pen.Base.Int.{ℤ}
use bad_pen.Kube.{TypeMeta, ObjectMeta}

pub data Version : Type 0 where
  v1alpha1 v1alpha2 : Version

pub data Scope : Type 0 where
  namespaced cluster_wide : Scope

pub record ResourceSpec (v : Version) (s : Scope) : Type 0 where
  pub name : String
  pub replicas : ℤ

pub record ResourceStatus (v : Version) (s : Scope) : Type 0 where
  pub available_replicas : ℤ

pub record Resource (v : Version) (s : Scope) : Type 0 where
  pub type_meta : TypeMeta
  pub meta : ObjectMeta
  pub spec : ResourceSpec v s
  pub status : ResourceStatus v s

-- With the one field of its metadata that is copied as a whole.
pub record ResourceList (v : Version) (s : Scope) : Type 0 where
  pub type_meta : TypeMeta
  pub resource_version : String
  pub items : List (Resource v s)

-- What a client of a scope is for: a namespace, or nothing more.
abbrev pub Within : Scope → Type 0
Within namespaced = String
Within cluster_wide = Unit

-- `GroupName`
abbrev pub group_name : String
group_name = "sample.example.org"

abbrev pub version_name : Version → String
version_name v1alpha1 = "v1alpha1"
version_name v1alpha2 = "v1alpha2"

abbrev pub group_version : Version → String
group_version v1alpha1 = "sample.example.org/v1alpha1"
group_version v1alpha2 = "sample.example.org/v1alpha2"

abbrev pub kind_name : Scope → String
kind_name namespaced = "NamespacedResource"
kind_name cluster_wide = "ClusterResource"

abbrev pub resource_name : Scope → String
resource_name namespaced = "namespacedresources"
resource_name cluster_wide = "clusterresources"
