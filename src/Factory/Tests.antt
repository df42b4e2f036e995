-- ===== src/Factory/Tests.antt =====
-- The theorems on the factory, for one with a single informer.
use Prim.Native.String.{String}
use mathlib.Core.Path.{◌≡◌, refl}
use mathlib.Core.Bool.{Bool, false}
use mathlib.Core.Option.{none}
use bad_pen.Base.{lookup}
use bad_pen.Base.Int.{pos}
use bad_pen.Time.{Duration}
use bad_pen.Factory.{
  Factory, marked, start, start_each, launch, wait_for_cache_sync, informer_for,
  new_filtered_shared_informer_factory,
}
use bad_pen.Factory.Registry.{synced_of}
use bad_pen.Factory.Synced.{wait_for_cache_sync-start}
use bad_pen.Factory.Start.{launches, once, Step, Steps, launched_once}

abbrev Small : Type 0
Small = Factory String Duration Unit

-- An informer is its resync period here.
abbrev made : String → Duration → Duration
made client d = d

abbrev fresh : Small
fresh = new_filtered_shared_informer_factory "client" (pos 30) "default" none

abbrev asked : Small
asked = (informer_for "Greeter" made fresh).1

steps : Steps fresh (start (start asked))
steps = Steps.cons fresh asked (start (start asked)) (Step.requesting fresh "Greeter" made) (
    Steps.cons asked (start asked) (start (start asked)) (Step.starting asked) (
      Steps.cons (start asked) (start (start asked)) (start (start asked))
        (Step.starting (start asked)) (Steps.nil (start (start asked)))))

launched_once_example :
    launches "Greeter" (Factory.launched (start (start asked)))
    ≡ once (marked "Greeter" (Factory.started_informers (start (start asked))))
launched_once_example =
    launched_once "client" (pos 30) "default" none (start (start asked)) "Greeter" steps

-- The informer of Greeters was started, that of pods was requested later.
abbrev both : Small
both = (informer_for "Pod" made (start asked)).1

-- No cache has synced yet.
abbrev has_synced : Duration → Bool
has_synced d = false

wait_for_cache_sync-start_example :
    lookup "Pod" (wait_for_cache_sync has_synced (start both))
    ≡ synced_of has_synced (lookup "Pod" (Factory.informers both))
unfolding start start_each launch informer_for new_filtered_shared_informer_factory
wait_for_cache_sync-start_example = wait_for_cache_sync-start has_synced both "Pod" refl
