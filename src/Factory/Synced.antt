-- ===== src/Factory/Synced.antt =====
-- What `WaitForCacheSync` reports after `Start`
-- (greeter/pkg/generated/informers/externalversions/factory.go).
use Prim.Native.String.{String}
use mathlib.Core.Path.{◌≡◌, refl, ap, ◌∙◌}
use mathlib.Core.Logic.{inl, inr}
use mathlib.Core.Bool.{Bool, false}
use mathlib.Core.Option.{none}
use native.Mathlib.Omega.{arith}
use bad_pen.Base.{Option-cases, lookup, if◌then◌else◌}
use bad_pen.Factory.{Factory, marked, start, wait_for_cache_sync}
use bad_pen.Factory.Registry.{synced_of, wait_for_cache_sync_lem}
use bad_pen.Factory.Start.{start-marked, start_each-informers}

module _ {C I T : Type 0} where
  start-informers : (f : Factory C I T) → Factory.informers (start f) ≡ f.informers
  unfolding start
  start-informers f = ground (arith, start_each-informers f.informers f)

  -- After `Start` of a factory that is not shutting down, `WaitForCacheSync` reports on exactly the
  -- types whose informers were requested, also where some of them had been started before, and of
  -- each whether its informer's cache has synced.
  pub wait_for_cache_sync-start :
      (has_synced : I → Bool) (f : Factory C I T) (t : String)
      → f.shutting_down ≡ false
      → lookup t (wait_for_cache_sync has_synced (start f))
        ≡ synced_of has_synced (lookup t f.informers)
  wait_for_cache_sync-start has_synced f t up =
      wait_for_cache_sync_lem has_synced t (start f)
      ∙ ap
          (λ l.
            if marked t (Factory.started_informers (start f))
            then synced_of has_synced (lookup t l)
            else none)
          (start-informers f)
      ∙ elim (Option-cases (lookup t f.informers)) [
        | inl missing ↦ rw missing (ground arith)
        | inr (informer, requested) ↦ rw (start-marked f t informer up requested) refl
      ]
