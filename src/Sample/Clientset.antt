-- ===== src/Sample/Clientset.antt =====
-- How a clientset of sample-controller is made from a configuration (sample-controller/pkg/clientset/
-- versioned: clientset.go, and sample_client.go of both versions). It has a client for each version;
-- client-go's own functions are the parameters that `bad_pen.Client.Clientset` names.
use mathlib.Core.Path.{◌≡◌, refl}
use mathlib.Core.Logic.{inl, inr}
use mathlib.Core.Option.{none, some}
use native.Mathlib.Omega.{arith}
use text.Mathlib.Text.{◌==◌}
use bad_pen.Base.{if◌then◌else◌}
use bad_pen.Base.Int.{pos, ltb_ℤ}
use bad_pen.Base.Result.{Result, Result-cases, ok, err, Checked, returned, panicked}
use bad_pen.Client.Clientset.{Config, ClientGo, burst_required}
use bad_pen.Sample.{Version, v1alpha1, v1alpha2, group_version}

-- The two group clients are REST clients.
pub record Clientset (C D : Type 0) : Type 0 where
  pub discovery : D
  pub sample_v1alpha1 : C
  pub sample_v1alpha2 : C

module _ {L Q H C D : Type 0} (go : ClientGo L Q H C D) where
  named_agent : Config L Q → Config L Q
  named_agent c = if c.user_agent == "" then record c { user_agent = go.default_user_agent } else c

  -- `setConfigDefaults` of a version, which returns no error
  unfoldable pub set_config_defaults : Version → Config L Q → Config L Q
  unfolding named_agent
  set_config_defaults v c =
      named_agent (record c { group_version = group_version v; api_path = "/apis" })

  -- The group client's `NewForConfigAndClient`, `NewForConfig` and `NewForConfigOrDie`.
  unfoldable pub group_client_for_config_and_client : Version → Config L Q → H → Result C
  unfolding set_config_defaults
  group_client_for_config_and_client v c h = go.rest_client_for (set_config_defaults v c) h

  group_client_with : Version → Config L Q → Result H → Result C
  unfolding group_client_for_config_and_client
  group_client_with v c (err e) = err e
  group_client_with v c (ok h) = group_client_for_config_and_client v c h

  unfoldable pub group_client_for_config : Version → Config L Q → Result C
  unfolding set_config_defaults group_client_with
  group_client_for_config v c =
      let config = set_config_defaults v c in group_client_with v config (go.http_client_for config)

  -- The test of the rate limit, and the limiter that is made.
  unfoldable pub limit_rate : Config L Q → Result (Config L Q)
  limit_rate c = elim c.rate_limiter [
    | some limiter ↦ ok c
    | none ↦
        if go.is_positive c.qps
        then (if ltb_ℤ (pos 0) c.burst
            then ok (record c { rate_limiter = some (go.new_token_bucket c.qps c.burst) })
            else err burst_required)
        else ok c
  ]

  with_discovery : C → C → Result D → Result (Clientset C D)
  with_discovery a b (err e) = err e
  with_discovery a b (ok d) =
      ok (record { discovery = d; sample_v1alpha1 = a; sample_v1alpha2 = b })

  with_second : Config L Q → H → C → Result C → Result (Clientset C D)
  unfolding with_discovery
  with_second c h a (err e) = err e
  with_second c h a (ok b) = with_discovery a b (go.new_discovery_for c h)

  with_first : Config L Q → H → Result C → Result (Clientset C D)
  unfolding with_second group_client_for_config_and_client
  with_first c h (err e) = err e
  with_first c h (ok a) = with_second c h a (group_client_for_config_and_client v1alpha2 c h)

  with_limit : H → Result (Config L Q) → Result (Clientset C D)
  unfolding with_first group_client_for_config_and_client
  with_limit h (err e) = err e
  with_limit h (ok c) = with_first c h (group_client_for_config_and_client v1alpha1 c h)

  -- `NewForConfigAndClient`
  unfoldable pub new_for_config_and_client : Config L Q → H → Result (Clientset C D)
  unfolding with_limit limit_rate
  new_for_config_and_client c h = with_limit h (limit_rate c)

  with_http : Config L Q → Result H → Result (Clientset C D)
  unfolding new_for_config_and_client
  with_http c (err e) = err e
  with_http c (ok h) = new_for_config_and_client c h

  -- `NewForConfig`
  unfoldable pub new_for_config : Config L Q → Result (Clientset C D)
  unfolding with_http named_agent
  new_for_config c = let config = named_agent c in with_http config (go.http_client_for config)

  or_die : Result (Clientset C D) → Checked (Clientset C D)
  or_die (ok cs) = returned cs
  or_die (err e) = panicked

  -- `NewForConfigOrDie`
  unfoldable pub new_for_config_or_die : Config L Q → Checked (Clientset C D)
  unfolding or_die new_for_config
  new_for_config_or_die c = or_die (new_for_config c)

  -- `New`
  unfoldable pub new : C → Clientset C D
  new client = record {
    discovery = go.new_discovery client;
    sample_v1alpha1 = client;
    sample_v1alpha2 = client;
  }

  made_from :
      (c : Config L Q) (h : H) (a b : Result C) (cs : Clientset C D)
      → with_first c h a ≡ ok cs
      → group_client_for_config_and_client v1alpha2 c h ≡ b
      → (a ≡ ok cs.sample_v1alpha1)
        × (b ≡ ok cs.sample_v1alpha2)
        × (go.new_discovery_for c h ≡ ok cs.discovery)
  unfolding with_first with_second with_discovery
  made_from c h a b cs e same = ground arith

  -- The clients of both versions and of the discovery are made with one HTTP client and one
  -- configuration, so that they share its rate limiter: the given one, or a new one if none is
  -- given and QPS is positive. Each version's client differs in its defaults only.
  pub new_for_config_and_client-one_limiter :
      (c : Config L Q) (h : H) (cs : Clientset C D)
      → new_for_config_and_client c h ≡ ok cs
      → (config : Config L Q) × (limit_rate c ≡ ok config)
        × (go.rest_client_for (set_config_defaults v1alpha1 config) h ≡ ok cs.sample_v1alpha1)
        × (go.rest_client_for (set_config_defaults v1alpha2 config) h ≡ ok cs.sample_v1alpha2)
        × (go.new_discovery_for config h ≡ ok cs.discovery)
  unfolding new_for_config_and_client with_limit group_client_for_config_and_client
  new_for_config_and_client-one_limiter c h cs e = elim (Result-cases (limit_rate c)) [
    | inl (config, limited) ↦
        let (a, b, d) =
          made_from config h (group_client_for_config_and_client v1alpha1 config h)
            (group_client_for_config_and_client v1alpha2 config h) cs (ground arith) refl in
        (config, limited, a, b, d)
    | inr (x, refused) ↦ absurd (ground arith)
  ]
