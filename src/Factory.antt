-- ===== src/Factory.antt =====
-- The shared informer factory (greeter/pkg/generated/informers/externalversions/factory.go). Each
-- method holds the factory's lock, so that it is one step. The types of the client, of an informer
-- (cache.SharedIndexInformer) and of the function that tweaks list options are parameters; a
-- reflect.Type is its name.
pub mod Start
pub mod Synced
pub mod Registry
pub mod Greeters
pub mod Generic
mod Tests
use Prim.Native.Nat.{ℕ, suc, ◌-◌}
use Prim.Native.String.{String}
use mathlib.Core.Bool.{Bool, true, false}
use mathlib.Core.Option.{Option, none, some}
use mathlib.Core.List.{List, [], ◌∷◌, ◌++◌}
use bad_pen.Base.{if◌then◌else◌, lookup, insert, insert_all}
use bad_pen.Time.{Duration}

pub record Factory (C I T : Type 0) : Type 0 where
  pub client : C
  pub namespace : String
  pub tweak_list_options : Option T
  pub default_resync : Duration
  pub custom_resync : List (String × Duration)
  pub informers : List (String × I)
  pub started_informers : List (String × Bool)
  -- The informers whose `Run` a goroutine was started for, the latest first, and how many of
  -- those goroutines have not ended (the wait group).
  pub launched : List (String × I)
  pub waiting : ℕ
  pub shutting_down : Bool

-- A map of booleans reads as false where it has no key.
unfoldable pub marked : String → List (String × Bool) → Bool
unfolding lookup
marked t m = elim (lookup t m) [ none ↦ false | some b ↦ b ]

module _ {I : Type 0} where
  -- The informers that `WaitForCacheSync` waits for.
  unfoldable pub started_of : List (String × Bool) → List (String × I) → List (String × I)
  unfolding marked
  started_of started [] = []
  started_of started ((t, informer) ∷ rest) =
      let kept = started_of started rest in if marked t started then (t, informer) ∷ kept else kept

  sync_each : (I → Bool) → List (String × I) → List (String × Bool)
  sync_each has_synced [] = []
  sync_each has_synced ((t, informer) ∷ rest) = (t, has_synced informer) ∷ sync_each has_synced rest

-- SharedInformerOption
abbrev pub SharedInformerOption : Type 0 → Type 0 → Type 0 → Type 0
SharedInformerOption C I T = Factory C I T → Factory C I T

module _ {C I T : Type 0} where
  unfoldable pub with_custom_resync_config : List (String × Duration) → SharedInformerOption C I T
  with_custom_resync_config config factory = record factory {
    custom_resync = insert_all config factory.custom_resync;
  }

  unfoldable pub with_tweak_list_options : Option T → SharedInformerOption C I T
  with_tweak_list_options tweak factory = record factory { tweak_list_options = tweak }

  unfoldable pub with_namespace : String → SharedInformerOption C I T
  with_namespace namespace factory = record factory { namespace = namespace }

  unfoldable pub apply_options : List (SharedInformerOption C I T) → Factory C I T → Factory C I T
  apply_options [] factory = factory
  apply_options (opt ∷ options) factory = apply_options options (opt factory)

  unfoldable pub new_shared_informer_factory_with_options :
      C → Duration → List (SharedInformerOption C I T) → Factory C I T
  unfolding apply_options
  new_shared_informer_factory_with_options client default_resync options =
      apply_options options (record {
        client = client;
        namespace = "";
        tweak_list_options = none;
        default_resync = default_resync;
        custom_resync = [];
        informers = [];
        started_informers = [];
        launched = [];
        waiting = 0;
        shutting_down = false;
      })

  unfoldable pub new_shared_informer_factory : C → Duration → Factory C I T
  unfolding new_shared_informer_factory_with_options
  new_shared_informer_factory client default_resync =
      new_shared_informer_factory_with_options client default_resync []

  unfoldable pub new_filtered_shared_informer_factory :
      C → Duration → String → Option T → Factory C I T
  unfolding new_shared_informer_factory_with_options with_namespace with_tweak_list_options
  new_filtered_shared_informer_factory client default_resync namespace tweak =
      new_shared_informer_factory_with_options client default_resync
        (with_namespace namespace ∷ with_tweak_list_options tweak ∷ [])

  -- The goroutine that runs one informer.
  unfoldable pub launch : String → I → Factory C I T → Factory C I T
  unfolding insert
  launch t informer f = record f {
    launched = (t, informer) ∷ f.launched;
    waiting = suc f.waiting;
    started_informers = insert t true f.started_informers;
  }

  -- The loop of `Start`.
  unfoldable pub start_each : List (String × I) → Factory C I T → Factory C I T
  unfolding launch marked
  start_each [] f = f
  start_each ((t, informer) ∷ rest) f =
      start_each rest (if marked t f.started_informers then f else launch t informer f)

  -- `Start`
  unfoldable pub start : Factory C I T → Factory C I T
  unfolding start_each
  start f = if f.shutting_down then f else start_each f.informers f

  -- `Shutdown`, up to its `Wait`, which returns once nothing is waiting; and the `Done` of a
  -- goroutine that has ended.
  unfoldable pub shutdown : Factory C I T → Factory C I T
  shutdown f = record f { shutting_down = true }

  unfoldable pub finish : Factory C I T → Factory C I T
  finish f = record f { waiting = f.waiting - 1 }

  -- `WaitForCacheSync`, by what `cache.WaitForCacheSync` says of each informer.
  unfoldable pub wait_for_cache_sync : (I → Bool) → Factory C I T → List (String × Bool)
  unfolding sync_each started_of
  wait_for_cache_sync has_synced f =
      sync_each has_synced (started_of f.started_informers f.informers)

  -- The custom resync period of a type, or the default one.
  unfoldable pub resync_period : Factory C I T → String → Duration
  unfolding lookup
  resync_period f t = elim (lookup t f.custom_resync) [ none ↦ f.default_resync | some d ↦ d ]

  unfoldable pub found_or_new :
      String → (C → Duration → I) → Factory C I T → Option I → I × Factory C I T
  unfolding resync_period insert
  found_or_new t new_func f (some informer) = (informer, f)
  found_or_new t new_func f none =
      let informer = new_func f.client (resync_period f t) in
      (informer, record f { informers = insert t informer f.informers })

  -- `InformerFor`
  unfoldable pub informer_for : String → (C → Duration → I) → Factory C I T → I × Factory C I T
  unfolding found_or_new lookup
  informer_for t new_func f = found_or_new t new_func f (lookup t f.informers)
