-- ===== src/Greeter/Sync/Effects.antt =====
-- What a sync leaves alone: it does not touch the work queue, and it panics only by way of the
-- cache (greeter/internal/greeter/controller.go).
use Prim.Native.String.{String}
use mathlib.Core.Path.{◌≡◌, refl}
use mathlib.Core.Logic.{◌≢◌}
use mathlib.Core.List.{List, [], ◌∷◌}
use native.Mathlib.Omega.{arith}
use bad_pen.Base.Exec.{Keeps, Keeps-bind, Returns, Returns-bind}
use bad_pen.Base.Result.{Result, ok, err, Checked, returned, panicked}
use bad_pen.Greeter.{Greeter, greeter_object, deep_copy}
use bad_pen.Greeter.Env.{
  Call, get_item, done, forget, add, add_rate_limited, add_after, shut_down, read_greeter, Env, Run,
}
use bad_pen.Greeter.Sync.{
  default_phase, time_until_schedule, sync_pending, ensure_pod, check_controlled, sync_running,
  advance, store, sync_greeter, sync_handler, synced_greeter, sync_split, or_fail,
}
use bad_pen.Lister
use bad_pen.Lister.Laws.{IsTyped, get_returns}

-- The calls of the work queue in a history.
abbrev pub queue_calls : List Call → List Call
queue_calls [] = []
queue_calls (c ∷ h) =
    let rest = queue_calls h in
    elim c [
      | get_item ↦ get_item ∷ rest
      | done object ↦ done object ∷ rest
      | forget object ↦ forget object ∷ rest
      | add key ↦ add key ∷ rest
      | add_rate_limited key ↦ add_rate_limited key ∷ rest
      | add_after key when ↦ add_after key when ∷ rest
      | shut_down ↦ shut_down ∷ rest
      | _ ↦ rest
    ]

abbrev KeepsQueue : {R A : Type 0} → Run R A → Type 0
KeepsQueue m = (q : List Call) → Keeps (λ h. queue_calls h ≡ q) m

module _ (env : Env) where
  queue_calls-advance : (g : Greeter) → KeepsQueue (advance env g)
  unfolding advance sync_pending time_until_schedule sync_running ensure_pod check_controlled
  queue_calls-advance g q h e = ground arith

  queue_calls-store : (g g' : Greeter) → KeepsQueue (store env g g')
  unfolding store
  queue_calls-store g g' q h e = ground arith

  queue_calls-or_fail : {A : Type 0} (r : Result A) → KeepsQueue (or_fail r)
  unfolding or_fail
  queue_calls-or_fail (ok a) q h e = e
  queue_calls-or_fail (err x) q h e = e

  queue_calls-sync_greeter : (g : Greeter) → KeepsQueue (sync_greeter env g)
  unfolding sync_greeter
  queue_calls-sync_greeter g q =
      let P = λ (h : List Call). queue_calls h ≡ q in
      Keeps-bind P (or_fail (env.key_of (greeter_object g))) _ (queue_calls-or_fail _ q) (λ key.
        Keeps-bind P (advance env (default_phase (deep_copy g))) _ (queue_calls-advance _ q)
          (λ g'. queue_calls-store g g' q))

  queue_calls-synced :
      (key : String) (got : Checked (Result Greeter)) → KeepsQueue (synced_greeter env key got)
  unfolding synced_greeter
  queue_calls-synced key panicked q h e = e
  queue_calls-synced key (returned (ok g)) q h e = queue_calls-sync_greeter g q h e
  queue_calls-synced key (returned (err x)) q h e = ground arith

  queue_calls-split :
      (key : String) (split : Result (String × String)) → KeepsQueue (sync_split env key split)
  unfolding sync_split
  queue_calls-split key (err x) q h e = e
  queue_calls-split key (ok (namespace, name)) q h e =
      let got =
        Lister.get (Lister.greeters (Lister.new_greeter_lister (env.greeter_cache h)) namespace)
          name in
      queue_calls-synced key got q (read_greeter namespace name ∷ h) e

  -- A sync leaves the queue alone.
  pub queue_calls-sync_handler :
      (key : String) (h : List Call) → queue_calls (sync_handler env key h).1 ≡ queue_calls h
  unfolding sync_handler
  queue_calls-sync_handler key h = queue_calls-split key (env.split_key key) (queue_calls h) h refl

  advance-Returns : (g : Greeter) → Returns (advance env g)
  unfolding advance sync_pending time_until_schedule sync_running ensure_pod check_controlled
  advance-Returns g h e = ground arith

  store-Returns : (g g' : Greeter) → Returns (store env g g')
  unfolding store
  store-Returns g g' h e = ground arith

  or_fail-Returns : {A : Type 0} (r : Result A) → Returns (or_fail r)
  unfolding or_fail
  or_fail-Returns (ok a) h e = cc e
  or_fail-Returns (err x) h e = cc e

  sync_greeter-Returns : (g : Greeter) → Returns (sync_greeter env g)
  unfolding sync_greeter
  sync_greeter-Returns g =
      Returns-bind (or_fail (env.key_of (greeter_object g))) _ (or_fail-Returns _) (λ key.
        Returns-bind (advance env (default_phase (deep_copy g))) (store env g) (advance-Returns _)
          (store-Returns g))

  synced_greeter-Returns :
      (key : String) (got : Checked (Result Greeter))
      → got ≢ panicked
      → Returns (synced_greeter env key got)
  unfolding synced_greeter
  synced_greeter-Returns key panicked here h e = absurd (here refl)
  synced_greeter-Returns key (returned (ok g)) here h e = sync_greeter-Returns g h e
  synced_greeter-Returns key (returned (err x)) here h e = ground arith

  sync_split-Returns :
      ((h : List Call) → IsTyped (env.greeter_cache h))
      → (key : String) (split : Result (String × String)) → Returns (sync_split env key split)
  unfolding sync_split Lister.greeters Lister.new_greeter_lister
  sync_split-Returns typed key (err x) h e = cc e
  sync_split-Returns typed key (ok (namespace, name)) h e =
      let lister = Lister.greeters (Lister.new_greeter_lister (env.greeter_cache h)) namespace in
      synced_greeter-Returns key (Lister.get lister name) (get_returns lister name (typed h))
        (read_greeter namespace name ∷ h) e

  -- If the cache holds Greeters only, no sync panics.
  pub sync_handler-Returns :
      ((h : List Call) → IsTyped (env.greeter_cache h))
      → (key : String) → Returns (sync_handler env key)
  unfolding sync_handler
  sync_handler-Returns typed key = sync_split-Returns typed key (env.split_key key)
