-- ===== src/Sample/Informers/Laws.antt =====
-- Which informers there are, and what they ask the server (sample-controller/pkg/informers/
-- externalversions).
use Prim.Native.String.{String}
use mathlib.Core.Path.{◌≡◌, refl, ap, sym, ◌∙◌}
use mathlib.Core.Logic.{◌≢◌, inl, inr}
use mathlib.Core.Option.{Option, none, some}
use native.Mathlib.Omega.{arith}
use text.Mathlib.Text.{◌==◌}
use text.Mathlib.TextEquality.{eq_iff}
use bad_pen.Base.{Option-cases, if◌then◌else◌}
use bad_pen.Base.Result.{ok, err}
use bad_pen.Client.{ListOptions}
use bad_pen.Client.Rest.{Verb, filled}
use bad_pen.Client.Fake.{GroupVersionResource}
use bad_pen.Factory.Registry.{informer_for_kept, informer_for_independent}
use bad_pen.Sample.{
  Version, v1alpha1, v1alpha2, Scope, namespaced, cluster_wide, group_name, version_name,
  resource_name,
}
use bad_pen.Sample.Typed.{
  list_resources, list_request, watch_resources, watch_request, new_resources,
}
use bad_pen.Sample.Requests.{Agrees, addressed-IsWithin}
use bad_pen.Sample.Informers.{
  ListWatch, list_watch, Client, Cache, SampleFactory, matched, no_informer, type_name,
  resource_informer, place_of, default_informer, informer, informer_of, for_resource,
}

-- The group, version and name of each of the four resources.
abbrev pub resource_at : Version → Scope → GroupVersionResource
resource_at v s = record {
  group = group_name;
  version = version_name v;
  resource = resource_name s;
}

matched-resource_at : (v : Version) (s : Scope) → matched (resource_at v s) ≡ some (v, s)
unfolding matched
matched-resource_at v1alpha1 namespaced = refl
matched-resource_at v1alpha1 cluster_wide = refl
matched-resource_at v1alpha2 namespaced = refl
matched-resource_at v1alpha2 cluster_wide = refl

matched-eq :
    (r : GroupVersionResource) (v : Version) (s : Scope)
    → matched r ≡ some (v, s)
    → r ≡ resource_at v s
unfolding matched
matched-eq r v s h = ground (
  arith,
  eq_iff r.group group_name,
  eq_iff r.version "v1alpha1",
  eq_iff r.version "v1alpha2",
  eq_iff r.resource "clusterresources",
  eq_iff r.resource "namespacedresources",
)

-- The resource that a type is for.
abbrev resource_named : String → Option GroupVersionResource
resource_named t =
    if t == "v1alpha1.NamespacedResource"
    then some (resource_at v1alpha1 namespaced)
    else if t == "v1alpha1.ClusterResource"
    then some (resource_at v1alpha1 cluster_wide)
    else if t == "v1alpha2.NamespacedResource"
    then some (resource_at v1alpha2 namespaced)
    else some (resource_at v1alpha2 cluster_wide)

resource_named-type_name :
    (v : Version) (s : Scope) → resource_named (type_name v s) ≡ some (resource_at v s)
resource_named-type_name v1alpha1 namespaced = refl
resource_named-type_name v1alpha1 cluster_wide = refl
resource_named-type_name v1alpha2 namespaced = refl
resource_named-type_name v1alpha2 cluster_wide = refl

-- Different resources have informers under different types.
type_name-ne :
    (v w : Version) (s t : Scope)
    → resource_at v s ≢ resource_at w t
    → type_name v s ≢ type_name w t
type_name-ne v w s t other same = other (
    some_eq
      (sym (resource_named-type_name v s) ∙ ap resource_named same ∙ resource_named-type_name w t))
  where
    some_eq :
        {a b : GroupVersionResource}
        → ◌≡◌ {A = Option GroupVersionResource} (some a) (some b)
        → a ≡ b
    some_eq e = cc

module _ {Watch I : Type 0} (cache : Cache Watch I) (f : SampleFactory Watch I) where
  resource_informer_kept :
      (v w : Version) (s t : Scope)
      → resource_informer w t (informer cache v s (resource_informer v s f) f).1
        ≡ resource_informer w t f
  unfolding resource_informer informer
  resource_informer_kept v w s t =
      let (same_namespace, same_tweak) =
        informer_for_kept (type_name v s) f
          (default_informer cache v s (resource_informer v s f)) in
      λ i. record { place = place_of t (same_namespace i); tweak_list_options = same_tweak i }

  informer_separate :
      (v w : Version) (s t : Scope)
      → resource_at v s ≢ resource_at w t
      → (informer cache w t
          (resource_informer w t (informer cache v s (resource_informer v s f) f).1)
          (informer cache v s (resource_informer v s f) f).1).0
        ≡ (informer cache w t (resource_informer w t f) f).0
  unfolding informer
  informer_separate v w s t other =
      ap (λ x. (informer cache w t x (informer cache v s (resource_informer v s f) f).1).0)
        (resource_informer_kept v w s t)
      ∙ informer_for_independent (type_name v s) (type_name w t) f
          (default_informer cache v s (resource_informer v s f))
          (default_informer cache w t (resource_informer w t f)) (type_name-ne v w s t other)

  separate_from :
      (r r' : GroupVersionResource) (v : Version) (s : Scope) (o : Option (Version × Scope))
      → r ≢ r'
      → matched r ≡ some (v, s)
      → matched r' ≡ o
      → (informer_of cache r' (informer cache v s (resource_informer v s f) f).1 o).0
        ≡ (informer_of cache r' f o).0
  unfolding informer_of
  separate_from r r' v s none other m m' = refl
  separate_from r r' v s (some (w, t)) other m m' =
      ap (λ i. ok (record { informer = i; group = r'.group; resource = r'.resource }))
        (informer_separate v w s t
          (λ e. other (matched-eq r v s m ∙ e ∙ sym (matched-eq r' w t m'))))

  separate_after :
      (r r' : GroupVersionResource) (o : Option (Version × Scope))
      → r ≢ r'
      → matched r ≡ o
      → (for_resource cache r' (informer_of cache r f o).1).0 ≡ (for_resource cache r' f).0
  unfolding for_resource informer_of
  separate_after r r' none other m = refl
  separate_after r r' (some (v, s)) other m = separate_from r r' v s (matched r') other m refl

  -- `ForResource` answers for exactly the four resources: for each of these with its informer, and
  -- for any other with an error, which leaves the factory as it is.
  pub for_resource_lem :
      ((v : Version) (s : Scope)
        → (for_resource cache (resource_at v s) f).0
          ≡ ok (record {
            informer = (informer cache v s (resource_informer v s f) f).0;
            group = "sample.example.org";
            resource = resource_name s;
          }))
      × ((r : GroupVersionResource)
          → ((v : Version) (s : Scope) → r ≢ resource_at v s)
          → for_resource cache r f ≡ (err (no_informer r), f))
  unfolding for_resource informer_of
  for_resource_lem = (
    λ v s. ap (λ o. (informer_of cache (resource_at v s) f o).0) (matched-resource_at v s),
    λ r other. elim (Option-cases (matched r)) [
      | inl unknown ↦ ap (informer_of cache r f) unknown
      | inr ((v, s), known) ↦ absurd (other v s (matched-eq r v s known))
    ],
  )

  -- What `ForResource` answers for a resource does not depend on which other resource was asked
  -- for before.
  pub for_resource_separate :
      (r r' : GroupVersionResource)
      → r ≢ r'
      → (for_resource cache r' (for_resource cache r f).1).0 ≡ (for_resource cache r' f).0
  unfolding for_resource
  for_resource_separate r r' other = separate_after r r' (matched r) other refl

-- The informers of a factory that is limited to a namespace list and watch within it, and those of
-- cluster-wide resources in the whole cluster: whatever else a server holds, two servers that
-- answer alike the requests for the resource in its place give an informer the same lists and the
-- same watches, with the factory's tweak or without.
pub list_watch_scoped :
    {Watch I : Type 0} (v : Version) (s : Scope) (f : SampleFactory Watch I) (c d : Client Watch)
    (options : ListOptions)
    → Agrees (place_of s f.namespace) (c.server v s) (d.server v s)
    → (ListWatch.list_func (list_watch v s c (place_of s f.namespace) f.tweak_list_options) options
        ≡ ListWatch.list_func
            (list_watch v s d (place_of s f.namespace) f.tweak_list_options)
            options)
      × (ListWatch.watch_func
            (list_watch v s c (place_of s f.namespace) f.tweak_list_options)
            options
          ≡ ListWatch.watch_func
              (list_watch v s d (place_of s f.namespace) f.tweak_list_options)
              options)
unfolding list_watch list_resources list_request watch_resources watch_request new_resources filled
list_watch_scoped v s f c d options agrees =
    let place = place_of s f.namespace in
    (
      ap filled (agrees.on_list _ (addressed-IsWithin s Verb.get place _ refl refl)),
      agrees.on_watch _ (addressed-IsWithin s Verb.get place _ refl refl),
    )
