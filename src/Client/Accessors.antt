-- ===== src/Client/Accessors.antt =====
-- What the clientset and its group client hand out (greeter/pkg/generated/clientset/versioned:
-- clientset.go, and typed/greeter/v1alpha1/greeter_client.go).
use Prim.Native.String.{String}
use mathlib.Core.Option.{Option, none, some}
use bad_pen.Base.Result.{Result, ok, err, Checked, returned, panicked}
use bad_pen.Client.Clientset.{Config, ClientGo, Clientset, group_client_for_config}
use bad_pen.Client.Rest.{Server, Greeters, new_greeters}

module _ {C D : Type 0} where
  -- `GreeterV1alpha1` of a clientset
  abbrev pub greeter_v1alpha1_client : Clientset C D → C
  greeter_v1alpha1_client c = c.greeter_v1alpha1

  -- `Discovery` of a clientset: a nil clientset has a nil client.
  abbrev pub discovery_client : Option (Clientset C D) → Option D
  discovery_client none = none
  discovery_client (some c) = some c.discovery

-- `RESTClient` of a group client, which is the REST client in it.
abbrev pub rest_client : {C : Type 0} → Option C → Option C
rest_client none = none
rest_client (some c) = some c

group_or_die : {C : Type 0} → Result C → Checked C
group_or_die (ok c) = returned c
group_or_die (err e) = panicked

-- `NewForConfigOrDie` of the group client
unfoldable pub group_client_for_config_or_die :
    {L Q H C D : Type 0} → ClientGo L Q H C D → Config L Q → Checked C
unfolding group_client_for_config group_or_die
group_client_for_config_or_die go c = group_or_die (group_client_for_config go c)

-- `New` and `Greeters` of the group client, which is its REST client here.
abbrev pub new_group_client : {Watch : Type 0} → Server Watch → Server Watch
new_group_client c = c

abbrev pub greeters_of : {Watch : Type 0} → Server Watch → String → Greeters Watch
greeters_of c namespace = new_greeters c namespace
