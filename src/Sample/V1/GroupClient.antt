-- ===== src/Sample/V1/GroupClient.antt =====
-- The group client of the version v1alpha1 (sample-controller/pkg/clientset/versioned/typed/sample/
-- v1alpha1/sample_client.go).
use bad_pen.Sample.Clientset
use bad_pen.Sample.Accessors
use Prim.Native.String.{String}
use mathlib.Core.Option.{Option}
use bad_pen.Base.Result.{Result, Checked}
use bad_pen.Client.Clientset.{Config, ClientGo}
use bad_pen.Sample.{v1alpha1, namespaced, cluster_wide}
use bad_pen.Sample.Typed.{Server}
use bad_pen.Sample.Clientset.{group_client_for_config, group_client_for_config_and_client}
use bad_pen.Sample.Accessors.{group_client_for_config_or_die}
use bad_pen.Sample.V1.Cluster.{ClusterResources, new_cluster_resources}
use bad_pen.Sample.V1.Namespaced.{NamespacedResources, new_namespaced_resources}

module _ {L Q H C D : Type 0} (go : ClientGo L Q H C D) where
  abbrev pub set_config_defaults : Config L Q → Config L Q
  set_config_defaults c = Clientset.set_config_defaults go v1alpha1 c

  abbrev pub new_for_config : Config L Q → Result C
  new_for_config c = group_client_for_config go v1alpha1 c

  abbrev pub new_for_config_and_client : Config L Q → H → Result C
  new_for_config_and_client c h = group_client_for_config_and_client go v1alpha1 c h

  abbrev pub new_for_config_or_die : Config L Q → Checked C
  new_for_config_or_die c = group_client_for_config_or_die go v1alpha1 c

abbrev pub rest_client : {C : Type 0} → Option C → Option C
rest_client c = Accessors.rest_client c

module _ {Watch : Type 0} where
  -- `ClusterResources` and `NamespacedResources` of the group client
  abbrev pub cluster_resources : Server Watch v1alpha1 cluster_wide → ClusterResources Watch
  cluster_resources c = new_cluster_resources c

  abbrev pub namespaced_resources :
      Server Watch v1alpha1 namespaced → String → NamespacedResources Watch
  namespaced_resources c namespace = new_namespaced_resources c namespace
