-- ===== src/Client/Clientset.antt =====
-- How a clientset is made from a configuration (greeter/pkg/generated/clientset/versioned:
-- clientset.go, and typed/greeter/v1alpha1/greeter_client.go). client-go's clients, its rate
-- limiters and the number type of QPS are parameters.
use Prim.Native.String.{String}
use mathlib.Core.Path.{◌≡◌}
use mathlib.Core.Logic.{inl, inr}
use mathlib.Core.Bool.{Bool}
use mathlib.Core.Option.{Option, none, some}
use native.Mathlib.Omega.{arith}
use text.Mathlib.Text.{◌==◌}
use bad_pen.Base.{if◌then◌else◌}
use bad_pen.Base.Int.{ℤ, pos, ltb_ℤ}
use bad_pen.Base.Result.{Error, failed, Result, Result-cases, ok, err, Checked, returned, panicked}

-- rest.Config, with the fields that are read or set.
pub record Config (L Q : Type 0) : Type 0 where
  pub user_agent : String
  pub rate_limiter : Option L
  pub qps : Q
  pub burst : ℤ
  pub group_version : String
  pub api_path : String

-- What is taken of client-go: HTTP clients `H`, REST clients `C`, discovery clients `D`.
pub record ClientGo (L Q H C D : Type 0) : Type 0 where
  pub default_user_agent : String
  pub is_positive : Q → Bool
  pub new_token_bucket : Q → ℤ → L
  pub http_client_for : Config L Q → Result H
  pub rest_client_for : Config L Q → H → Result C
  pub new_discovery_for : Config L Q → H → Result D
  pub new_discovery : C → D

pub record Clientset (C D : Type 0) : Type 0 where
  pub discovery : D
  pub greeter_v1alpha1 : C

abbrev pub burst_required : Error
burst_required =
    failed
      "burst is required to be greater than 0 when RateLimiter is not set and QPS is set to greater than 0"

module _ {L Q H C D : Type 0} (go : ClientGo L Q H C D) where
  named_agent : Config L Q → Config L Q
  named_agent c = if c.user_agent == "" then record c { user_agent = go.default_user_agent } else c

  -- `setConfigDefaults`, which returns no error
  unfoldable pub set_config_defaults : Config L Q → Config L Q
  unfolding named_agent
  set_config_defaults c =
      named_agent (record c { group_version = "example.org/v1alpha1"; api_path = "/apis" })

  -- The group client's `NewForConfigAndClient` and `NewForConfig`.
  unfoldable pub group_client_for_config_and_client : Config L Q → H → Result C
  unfolding set_config_defaults
  group_client_for_config_and_client c h = go.rest_client_for (set_config_defaults c) h

  group_client_with : Config L Q → Result H → Result C
  unfolding group_client_for_config_and_client
  group_client_with c (err e) = err e
  group_client_with c (ok h) = group_client_for_config_and_client c h

  unfoldable pub group_client_for_config : Config L Q → Result C
  unfolding set_config_defaults group_client_with
  group_client_for_config c =
      let config = set_config_defaults c in group_client_with config (go.http_client_for config)

  -- The test of the rate limit, and the limiter that is made.
  unfoldable pub limit_rate : Config L Q → Result (Config L Q)
  limit_rate c = elim c.rate_limiter [
    | some limiter ↦ ok c
    | none ↦
        if go.is_positive c.qps
        then (if ltb_ℤ (pos 0) c.burst
            then ok (record c { rate_limiter = some (go.new_token_bucket c.qps c.burst) })
            else err burst_required)
        else ok c
  ]

  with_discovery : C → Result D → Result (Clientset C D)
  with_discovery client (err e) = err e
  with_discovery client (ok d) = ok (record { discovery = d; greeter_v1alpha1 = client })

  with_group : Config L Q → H → Result C → Result (Clientset C D)
  unfolding with_discovery
  with_group c h (err e) = err e
  with_group c h (ok client) = with_discovery client (go.new_discovery_for c h)

  with_limit : H → Result (Config L Q) → Result (Clientset C D)
  unfolding with_group group_client_for_config_and_client
  with_limit h (err e) = err e
  with_limit h (ok c) = with_group c h (group_client_for_config_and_client c h)

  -- `NewForConfigAndClient`
  unfoldable pub new_for_config_and_client : Config L Q → H → Result (Clientset C D)
  unfolding with_limit limit_rate
  new_for_config_and_client c h = with_limit h (limit_rate c)

  with_http : Config L Q → Result H → Result (Clientset C D)
  unfolding new_for_config_and_client
  with_http c (err e) = err e
  with_http c (ok h) = new_for_config_and_client c h

  -- `NewForConfig`
  unfoldable pub new_for_config : Config L Q → Result (Clientset C D)
  unfolding with_http named_agent
  new_for_config c = let config = named_agent c in with_http config (go.http_client_for config)

  or_die : Result (Clientset C D) → Checked (Clientset C D)
  or_die (ok cs) = returned cs
  or_die (err e) = panicked

  -- `NewForConfigOrDie`
  unfoldable pub new_for_config_or_die : Config L Q → Checked (Clientset C D)
  unfolding or_die new_for_config
  new_for_config_or_die c = or_die (new_for_config c)

  -- `New`
  unfoldable pub new : C → Clientset C D
  new client = record { discovery = go.new_discovery client; greeter_v1alpha1 = client }

  from_group :
      (c : Config L Q) (h : H) (r : Result C) (cs : Clientset C D)
      → with_group c h r ≡ ok cs
      → (r ≡ ok cs.greeter_v1alpha1) × (go.new_discovery_for c h ≡ ok cs.discovery)
  unfolding with_group with_discovery
  from_group c h r cs e = ground arith

  -- A clientset that was made from a configuration has one HTTP client and one rate limit for both
  -- of its clients: they are made from one configuration, whose limiter is the given one, or a
  -- new one if none is given and QPS is positive.
  pub new_for_config_and_client-shared :
      (c : Config L Q) (h : H) (cs : Clientset C D)
      → new_for_config_and_client c h ≡ ok cs
      → (config : Config L Q) × (limit_rate c ≡ ok config)
        × (go.rest_client_for (set_config_defaults config) h ≡ ok cs.greeter_v1alpha1)
        × (go.new_discovery_for config h ≡ ok cs.discovery)
  unfolding new_for_config_and_client with_limit group_client_for_config_and_client
  new_for_config_and_client-shared c h cs e = elim (Result-cases (limit_rate c)) [
    | inl (config, limited) ↦
        let (a, b) =
          from_group config h (group_client_for_config_and_client config h) cs (ground arith) in
        (config, limited, a, b)
    | inr (x, refused) ↦ absurd (ground arith)
  ]
