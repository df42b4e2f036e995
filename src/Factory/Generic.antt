-- ===== src/Factory/Generic.antt =====
-- The generic informer (greeter/pkg/generated/informers/externalversions/generic.go), and the way
-- from the factory to the informer of Greeters (greeter/interface.go and greeter/v1alpha1/
-- interface.go there). The factory itself is an argument of the informer's methods.
use Prim.Native.String.{String}
use mathlib.Core.Path.{◌≡◌, refl}
use mathlib.Core.Option.{Option}
use bad_pen.Client.Rest.{Server}
use bad_pen.Factory.{Factory}
use bad_pen.Factory.Greeters
use bad_pen.Factory.Greeters.{Tweak, Cache, GreeterInformer}
use bad_pen.Lister.{Indexer}

-- genericInformer, with its resource as a group and a name
pub record GenericInformer (I : Type 0) : Type 0 where
  pub shared_informer : I
  pub group : String
  pub resource : String

-- `Informer`
abbrev pub informer_of : {I : Type 0} → GenericInformer I → I
informer_of f = f.shared_informer

-- `Lister`, by cache.NewGenericLister
abbrev pub generic_lister :
    {Watch I L : Type 0} → (Indexer → String → String → L) → Cache Watch I → GenericInformer I → L
generic_lister new_generic_lister cache f =
    new_generic_lister (cache.get_indexer (informer_of f)) f.group f.resource

-- The group's and the version's interface: both keep what the factory was made with.
pub record Group : Type 0 where
  pub namespace : String
  pub tweak_list_options : Option Tweak

pub record VersionOf : Type 0 where
  pub namespace : String
  pub tweak_list_options : Option Tweak

-- `New` of the group, as `Greeter` of the factory calls it
abbrev pub new_group : String → Option Tweak → Group
new_group namespace tweak = record { namespace = namespace; tweak_list_options = tweak }

-- `V1alpha1`, which is `New` of the version
abbrev pub v1alpha1_of : Group → VersionOf
v1alpha1_of g = record { namespace = g.namespace; tweak_list_options = g.tweak_list_options }

-- `Greeters`
abbrev pub greeters_of_version : VersionOf → GreeterInformer
greeters_of_version v = record {
  namespace = v.namespace;
  tweak_list_options = v.tweak_list_options;
}

-- `factory.Greeter().V1alpha1().Greeters()` keeps the factory's namespace and tweak on the way.
pub greeters_of_version-greeters :
    {Watch I : Type 0} (cache : Cache Watch I) (factory : Factory (Server Watch) I Tweak)
    → greeters_of_version (v1alpha1_of (new_group factory.namespace factory.tweak_list_options))
      ≡ Greeters.greeters cache factory
unfolding Greeters.greeters
greeters_of_version-greeters cache factory = refl
