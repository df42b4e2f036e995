-- ===== src/Sample/V2.antt =====
-- The generated code of the version v1alpha2 (sample-controller/pkg): what the parts of the family of
-- resources are for each of its two resources, under the names of the source.
pub mod Cluster
pub mod ClusterFake
pub mod ClusterApply
pub mod ClusterCache
pub mod ClusterCopies
pub mod GroupClient
pub mod Namespaced
pub mod NamespacedFake
pub mod NamespacedApply
pub mod NamespacedCache
pub mod NamespacedCopies
