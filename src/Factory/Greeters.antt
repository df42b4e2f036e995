-- ===== src/Factory/Greeters.antt =====
-- The informer of Greeters (greeter/pkg/generated/informers/externalversions: greeter/v1alpha1/
-- greeter.go, generic.go, and `Greeter` of factory.go).
use Prim.Native.String
use Prim.Native.String.{String}
use mathlib.Core.Path.{◌≡◌, ap}
use mathlib.Core.Option.{Option, none, some}
use mathlib.Core.List.{List, [], ◌∷◌}
use text.Mathlib.Text.{◌==◌}
use bad_pen.Base.{if◌then◌else◌}
use bad_pen.Base.Result.{Error, failed, Result, ok, err}
use bad_pen.Time.{Duration}
use bad_pen.Client.{ListOptions, GreeterList}
use bad_pen.Client.Rest.{Server, Pointed, new_greeters, list_greeters, watch_greeters}
use bad_pen.Client.Fake.{GroupVersionResource}
use bad_pen.Factory.{Factory, informer_for}
use bad_pen.Factory.Registry.{informer_for_shared}
use bad_pen.Lister.{Indexer, GreeterLister, new_greeter_lister}

-- TweakListOptionsFunc
abbrev pub Tweak : Type 0
Tweak = ListOptions → ListOptions

-- cache.ListWatch
pub record ListWatch (Watch : Type 0) : Type 0 where
  pub list_func : ListOptions → Pointed GreeterList
  pub watch_func : ListOptions → Watch × Option Error

-- cache.NewSharedIndexInformer, for Greeters and by namespace, and an informer's `GetIndexer`.
pub record Cache (Watch I : Type 0) : Type 0 where
  pub new_shared_index_informer : ListWatch Watch → Duration → List String → I
  pub get_indexer : I → Indexer

-- `if tweakListOptions != nil { tweakListOptions(&options) }`
unfoldable pub tweaked : Option Tweak → ListOptions → ListOptions
tweaked none options = options
tweaked (some tweak) options = tweak options

-- greeterInformer, without its factory, which its methods are given.
pub record GreeterInformer : Type 0 where
  pub namespace : String
  pub tweak_list_options : Option Tweak

module _ {Watch I : Type 0} (cache : Cache Watch I) where
  -- `NewFilteredGreeterInformer`
  unfoldable pub new_filtered_greeter_informer :
      Server Watch → String → Duration → List String → Option Tweak → I
  unfolding tweaked new_greeters list_greeters watch_greeters
  new_filtered_greeter_informer client namespace resync_period indexers tweak =
      cache.new_shared_index_informer
        (record {
          list_func =
              λ options. list_greeters (new_greeters client namespace) (tweaked tweak options);
          watch_func =
              λ options. watch_greeters (new_greeters client namespace) (tweaked tweak options);
        })
        resync_period indexers

  -- `NewGreeterInformer`
  unfoldable pub new_greeter_informer : Server Watch → String → Duration → List String → I
  unfolding new_filtered_greeter_informer
  new_greeter_informer client namespace resync_period indexers =
      new_filtered_greeter_informer client namespace resync_period indexers none

  -- `defaultInformer`
  unfoldable pub default_informer : GreeterInformer → Server Watch → Duration → I
  unfolding new_filtered_greeter_informer
  default_informer f client resync_period =
      new_filtered_greeter_informer client f.namespace resync_period ("namespace" ∷ [])
        f.tweak_list_options

  -- `Informer`
  unfoldable pub informer :
      GreeterInformer → Factory (Server Watch) I Tweak → I × Factory (Server Watch) I Tweak
  unfolding informer_for default_informer
  informer f factory = informer_for "v1alpha1.Greeter" (default_informer f) factory

  -- `Lister`
  unfoldable pub lister :
      GreeterInformer
      → Factory (Server Watch) I Tweak
      → GreeterLister × Factory (Server Watch) I Tweak
  unfolding informer new_greeter_lister
  lister f factory =
      let (i, factory') = informer f factory in (new_greeter_lister (cache.get_indexer i), factory')

  -- `factory.Greeter().V1alpha1().Greeters()`
  unfoldable pub greeters : Factory (Server Watch) I Tweak → GreeterInformer
  greeters factory = record {
    namespace = factory.namespace;
    tweak_list_options = factory.tweak_list_options;
  }

  -- `ForResource`: the informer of the one resource that there is.
  unfoldable pub for_resource :
      GroupVersionResource
      → Factory (Server Watch) I Tweak
      → Result I × Factory (Server Watch) I Tweak
  unfolding greeters informer
  for_resource r factory =
      let (i, factory') = informer (greeters factory) factory in
      if r.group == "example.org"
      then (if r.version == "v1alpha1"
          then (if r.resource == "greeters"
              then (ok i, factory')
              else (err (no_informer r), factory))
          else (err (no_informer r), factory))
      else (err (no_informer r), factory)
    where
      no_informer : GroupVersionResource → Error
      no_informer r = failed (
          String.◌++◌ "no informer found for " (
            String.◌++◌ r.group
              (String.◌++◌ "/" (String.◌++◌ r.version (String.◌++◌ ", Resource=" r.resource)))))

  -- The informer and the lister of Greeters share one informer: the lister reads the cache that
  -- the informer fills, whichever of the two is asked for first.
  pub lister-informer :
      (f g : GreeterInformer) (factory : Factory (Server Watch) I Tweak)
      → ((lister f (informer g factory).1).0
          ≡ new_greeter_lister (cache.get_indexer (informer g factory).0))
        × ((informer g (lister f factory).1).0 ≡ (informer f factory).0)
  unfolding lister informer new_greeter_lister
  lister-informer f g factory = (
    ap (λ x. record { indexer = cache.get_indexer x.0 })
        (informer_for_shared "v1alpha1.Greeter" factory (default_informer g) (default_informer f)),
    ap (λ x. x.0)
        (informer_for_shared "v1alpha1.Greeter" factory (default_informer f) (default_informer g)),
  )
