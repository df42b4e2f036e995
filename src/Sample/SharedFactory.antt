-- ===== src/Sample/SharedFactory.antt =====
-- The shared informer factory of sample-controller (sample-controller/pkg/informers/externalversions/
-- factory.go). Its text is that of the Greeter factory but for the imports and the group's name, so
-- that its methods are those of `bad_pen.Factory`, at this factory's clients.
use bad_pen.Factory
use Prim.Native.String.{String}
use mathlib.Core.Bool.{Bool}
use mathlib.Core.Option.{Option}
use mathlib.Core.List.{List}
use bad_pen.Time.{Duration}
use bad_pen.Factory.{SharedInformerOption}
use bad_pen.Factory.Greeters.{Tweak}
use bad_pen.Sample.Informers.{Client, SampleFactory}

abbrev pub SampleOption : Type 0 → Type 0 → Type 0
SampleOption Watch I = SharedInformerOption (Client Watch) I Tweak

module _ {Watch I : Type 0} where
  abbrev pub with_custom_resync_config : List (String × Duration) → SampleOption Watch I
  with_custom_resync_config config = Factory.with_custom_resync_config config

  abbrev pub with_tweak_list_options : Option Tweak → SampleOption Watch I
  with_tweak_list_options tweak = Factory.with_tweak_list_options tweak

  abbrev pub with_namespace : String → SampleOption Watch I
  with_namespace namespace = Factory.with_namespace namespace

  abbrev pub new_shared_informer_factory : Client Watch → Duration → SampleFactory Watch I
  new_shared_informer_factory client default_resync =
      Factory.new_shared_informer_factory client default_resync

  abbrev pub new_filtered_shared_informer_factory :
      Client Watch → Duration → String → Option Tweak → SampleFactory Watch I
  new_filtered_shared_informer_factory client default_resync namespace tweak =
      Factory.new_filtered_shared_informer_factory client default_resync namespace tweak

  abbrev pub new_shared_informer_factory_with_options :
      Client Watch → Duration → List (SampleOption Watch I) → SampleFactory Watch I
  new_shared_informer_factory_with_options client default_resync options =
      Factory.new_shared_informer_factory_with_options client default_resync options

  abbrev pub start : SampleFactory Watch I → SampleFactory Watch I
  start f = Factory.start f

  abbrev pub shutdown : SampleFactory Watch I → SampleFactory Watch I
  shutdown f = Factory.shutdown f

  abbrev pub wait_for_cache_sync : (I → Bool) → SampleFactory Watch I → List (String × Bool)
  wait_for_cache_sync has_synced f = Factory.wait_for_cache_sync has_synced f

  abbrev pub informer_for :
      String → (Client Watch → Duration → I) → SampleFactory Watch I → I × SampleFactory Watch I
  informer_for t new_func f = Factory.informer_for t new_func f
