-- ===== src/Factory/Registry.antt =====
-- `InformerFor` and `WaitForCacheSync` of the informer factory
-- (greeter/pkg/generated/informers/externalversions/factory.go).
use Prim.Native.String.{String}
use mathlib.Core.Path.{◌≡◌, refl, ap, ◌∙◌}
use mathlib.Core.Logic.{◌≢◌, inl, inr}
use mathlib.Core.Bool.{Bool}
use mathlib.Core.Option.{Option, none, some}
use mathlib.Core.List.{List, [], ◌∷◌}
use native.Mathlib.Omega.{arith}
use text.Mathlib.TextEquality.{eq_iff}
use bad_pen.Base.{Option-cases, if◌then◌else◌, lookup, lookup-insert}
use bad_pen.Time.{Duration}
use bad_pen.Factory.{
  Factory, marked, started_of, wait_for_cache_sync, resync_period, informer_for, sync_each,
  found_or_new,
}

module _ {C I T : Type 0} (t : String) (f : Factory C I T) (new_func : C → Duration → I) where
  found_after :
      (o : Option I)
      → lookup t f.informers ≡ o
      → lookup t (Factory.informers (found_or_new t new_func f o).1)
        ≡ some (found_or_new t new_func f o).0
  unfolding found_or_new
  found_after none missing =
      let informer = new_func f.client (resync_period f t) in
      lookup-insert t t informer f.informers ∙ ground (arith, eq_iff t t)
  found_after (some informer) found = found

  informer_for_after :
      lookup t (Factory.informers (informer_for t new_func f).1)
      ≡ some (informer_for t new_func f).0
  unfolding informer_for
  informer_for_after = found_after (lookup t f.informers) refl

  pub informer_for_kept :
      (Factory.namespace (informer_for t new_func f).1 ≡ f.namespace)
      × (Factory.tweak_list_options (informer_for t new_func f).1 ≡ f.tweak_list_options)
  unfolding informer_for found_or_new
  informer_for_kept = elim (Option-cases (lookup t f.informers)) [
    | inl missing ↦ rw (missing, found_or_new) (refl, refl)
    | inr (informer, found) ↦ rw (found, found_or_new) (refl, refl)
  ]

  -- A second request for a type, with whatever function, gets the informer that the first one
  -- got, and changes nothing.
  pub informer_for_shared :
      (later_func : C → Duration → I)
      → informer_for t later_func (informer_for t new_func f).1 ≡ informer_for t new_func f
  unfolding informer_for found_or_new
  informer_for_shared later_func =
      ap (found_or_new t later_func (informer_for t new_func f).1) informer_for_after

  -- A request for one type leaves the informers of the others as they are.
  pub informer_for_other :
      (s : String)
      → t ≢ s
      → lookup s (Factory.informers (informer_for t new_func f).1) ≡ lookup s f.informers
  unfolding informer_for found_or_new
  informer_for_other s other = elim (Option-cases (lookup t f.informers)) [
    | inl missing ↦
        ground
          (arith, eq_iff t s, lookup-insert t s (new_func f.client (resync_period f t)) f.informers)
    | inr (informer, found) ↦ ground arith
  ]

module _ {C I T : Type 0} (t s : String) (f : Factory C I T)
    (new_func other_func : C → Duration → I) where
  -- What a type's informer is does not depend on whether another type was asked for before.
  pub informer_for_independent :
      t ≢ s
      → (informer_for s other_func (informer_for t new_func f).1).0
        ≡ (informer_for s other_func f).0
  unfolding informer_for found_or_new resync_period
  informer_for_independent other = elim (Option-cases (lookup t f.informers)) [
    | inl missing ↦
        ground
          (arith, eq_iff t s, lookup-insert t s (new_func f.client (resync_period f t)) f.informers)
    | inr (informer, found) ↦ ground arith
  ]

abbrev pub synced_of : {I : Type 0} → (I → Bool) → Option I → Option Bool
synced_of has_synced none = none
synced_of has_synced (some informer) = some (has_synced informer)

module _ {I : Type 0} (t : String) where
  lookup-started_of :
      (started : List (String × Bool)) (informers : List (String × I))
      → lookup t (started_of started informers)
        ≡ (if marked t started then lookup t informers else none)
  unfolding lookup started_of marked
  lookup-started_of started [] = ground arith
  lookup-started_of started ((s, informer) ∷ rest) =
      ground (arith, lookup-started_of started rest, eq_iff s t)

  lookup-sync_each :
      (has_synced : I → Bool) (informers : List (String × I))
      → lookup t (sync_each has_synced informers) ≡ synced_of has_synced (lookup t informers)
  unfolding lookup sync_each
  lookup-sync_each has_synced [] = refl
  lookup-sync_each has_synced ((s, informer) ∷ rest) =
      ground (arith, lookup-sync_each has_synced rest)

module _ {C I T : Type 0} (has_synced : I → Bool) (t : String) where
  -- `WaitForCacheSync` reports on a type exactly if its informer was started, and then whether
  -- that informer's cache has synced.
  pub wait_for_cache_sync_lem :
      (f : Factory C I T)
      → lookup t (wait_for_cache_sync has_synced f) ≡ (
          if marked t f.started_informers
          then synced_of has_synced (lookup t f.informers)
          else none)
  unfolding wait_for_cache_sync
  wait_for_cache_sync_lem f = ground (
    arith,
    lookup-sync_each t has_synced (started_of f.started_informers f.informers),
    lookup-started_of t f.started_informers f.informers,
  )
