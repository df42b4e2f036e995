-- ===== src/Sample/Accessors.antt =====
-- What the clientset and its group clients hand out (sample-controller/pkg/clientset/versioned:
-- clientset.go, and sample_client.go of both versions).
use mathlib.Core.Option.{Option, none, some}
use bad_pen.Base.Result.{Result, ok, err, Checked, returned, panicked}
use bad_pen.Client.Clientset.{Config, ClientGo}
use bad_pen.Sample.{Version}
use bad_pen.Sample.Clientset.{Clientset, group_client_for_config}

module _ {C D : Type 0} where
  -- `SampleV1alpha1` and `SampleV1alpha2` of a clientset
  abbrev pub sample_v1alpha1_client : Clientset C D → C
  sample_v1alpha1_client c = c.sample_v1alpha1

  abbrev pub sample_v1alpha2_client : Clientset C D → C
  sample_v1alpha2_client c = c.sample_v1alpha2

  -- `Discovery` of a clientset: a nil clientset has a nil client.
  abbrev pub discovery_client : Option (Clientset C D) → Option D
  discovery_client none = none
  discovery_client (some c) = some c.discovery

-- `RESTClient` of a group client, which is the REST client in it.
abbrev pub rest_client : {C : Type 0} → Option C → Option C
rest_client none = none
rest_client (some c) = some c

group_or_die : {C : Type 0} → Result C → Checked C
group_or_die (ok c) = returned c
group_or_die (err e) = panicked

-- `NewForConfigOrDie` of a group client
unfoldable pub group_client_for_config_or_die :
    {L Q H C D : Type 0} → ClientGo L Q H C D → Version → Config L Q → Checked C
unfolding group_client_for_config group_or_die
group_client_for_config_or_die go v c = group_or_die (group_client_for_config go v c)
