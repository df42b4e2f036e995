-- ===== src/Greeter/Sync/Phases.antt =====
-- The phases of a Greeter as a state machine, and which of its steps `syncGreeter` stores
-- (greeter/internal/greeter/controller.go).
use Prim.Native.String.{String}
use mathlib.Core.Path.{◌≡◌, refl, sym, ap, ◌∙◌, subst, subst₂}
use mathlib.Core.Logic.{◌⊎◌, ◌≢◌, inl, inr}
use mathlib.Core.List.{List, [], ◌∷◌}
use native.Mathlib.Omega.{arith}
use text.Mathlib.Text.{◌==◌}
use text.Mathlib.TextEquality.{eq_iff}
use bad_pen.Base.Exec.{Outcome, ◌>>◌, ◌>>=◌, pure, value, reply, panics, continue, bind_value}
use bad_pen.Base.Result.{Result, ok, err}
use bad_pen.Kube.{Pod, pod_succeeded, pod_failed}
use bad_pen.Greeter.{
  Greeter, phase_pending, phase_running, phase_succeeded, phase_failed, set_phase, deep_copy,
  greeter_object, deep_equal_iff,
}
use bad_pen.Greeter.Env.{Call, read_pod, update_status, Env}
use bad_pen.Greeter.Sync.{
  Synced, or_fail, default_phase, terminate, time_until_schedule, sync_pending, owned_pod,
  ensure_pod, check_controlled, sync_running, advance, store, sync_greeter,
}

-- The Greeters whose status was written, the latest first.
abbrev pub updates : List Call → List Greeter
updates [] = []
updates (c ∷ h) = let rest = updates h in elim c [ update_status g ↦ g ∷ rest | _ ↦ rest ]

-- The steps from one phase to the next; a Greeter with no phase is a pending one.
pub data Transition : String → String → Type 0 where
  start_new : Transition "" phase_running
  start : Transition phase_pending phase_running
  succeed : Transition phase_running phase_succeeded
  give_up : Transition phase_running phase_failed

-- A step changes nothing but the phase.
pub record IsStep (old new : Greeter) : Type 0 where
  pub transition : Transition old.status.phase new.status.phase
  pub same_rest : new ≡ set_phase new.status.phase old

-- What a history has written beyond these Greeters is one step of that Greeter, or nothing.
abbrev WritesStep : Greeter → List Greeter → List Call → Type 0
WritesStep g before h =
    (updates h ≡ before) ⊎ ((g' : Greeter) × (updates h ≡ g' ∷ before) × IsStep g g')

IsStep-of :
    (old new : Greeter) {p q : String}
    → Transition p q
    → old.status.phase ≡ p
    → new ≡ set_phase q old
    → IsStep old new
IsStep-of old new t from_p same = record {
  transition = subst₂ Transition (sym from_p) (sym (ap (λ g. g.status.phase) same)) t;
  same_rest = same ∙ ap (λ x. set_phase x old) (sym (ap (λ g. g.status.phase) same));
}

module _ (env : Env) where
  updates-advance : (g : Greeter) (h : List Call) → updates (advance env g h).1 ≡ updates h
  unfolding advance sync_pending time_until_schedule sync_running ensure_pod check_controlled
  updates-advance g h = ground arith

  pending-value :
      (g g' : Greeter) (h : List Call)
      → (sync_pending env g h).0 ≡ value g'
      → g' ≡ set_phase phase_running g
  unfolding sync_pending time_until_schedule
  pending-value g g' h e = ground arith

  terminate-value :
      (found : Pod) (g : Greeter)
      → (terminate found g ≡ g)
        ⊎ ((terminate found g ≡ set_phase phase_failed g)
            ⊎ (terminate found g ≡ set_phase phase_succeeded g))
  unfolding terminate
  terminate-value found g =
      ground (arith, eq_iff found.phase pod_failed, eq_iff found.phase pod_succeeded)

  controlled-value :
      (g g' : Greeter) (pod found : Pod) (h : List Call)
      → ((check_controlled env g pod found >> pure (terminate found g)) h).0 ≡ value g'
      → g' ≡ terminate found g
  unfolding check_controlled
  controlled-value g g' pod found h e = ground arith

  running-value :
      (g g' : Greeter) (h : List Call)
      → (sync_running env g h).0 ≡ value g'
      → (g' ≡ g) ⊎ ((g' ≡ set_phase phase_failed g) ⊎ (g' ≡ set_phase phase_succeeded g))
  unfolding sync_running
  running-value g g' h e =
      let pod = owned_pod env g in
      let (found, _, e') =
        bind_value (ensure_pod env pod (env.pod_get h pod.meta.namespace pod.meta.name))
          (λ found. check_controlled env g pod found >> pure (terminate found g))
          (read_pod pod.meta.namespace pod.meta.name ∷ h) e in
      ground (arith, controlled-value g g' pod found _ e', terminate-value found g)

  advance-value :
      (g g' : Greeter) (h : List Call)
      → (advance env g h).0 ≡ value g'
      → (g' ≡ g) × (g.status.phase ≢ phase_pending)
        ⊎ ((g.status.phase ≡ phase_pending) × (g' ≡ set_phase phase_running g)
            ⊎ (g.status.phase ≡ phase_running)
              × ((g' ≡ g) ⊎ ((g' ≡ set_phase phase_failed g) ⊎ (g' ≡ set_phase phase_succeeded g))))
  unfolding advance
  advance-value g g' h e = ground (
    arith,
    eq_iff g.status.phase phase_pending,
    eq_iff g.status.phase phase_running,
    pending-value g g' h,
    running-value g g' h,
  )

  fresh-IsStep :
      (g g' : Greeter) (h : List Call)
      → g.status.phase ≡ ""
      → (advance env (set_phase phase_pending g) h).0 ≡ value g'
      → IsStep g g'
  fresh-IsStep g g' h fresh e = elim (advance-value (set_phase phase_pending g) g' h e) [
    | inl (_, other) ↦ absurd (other refl)
    | inr (inl (_, started)) ↦ IsStep-of g g' start_new fresh started
    | inr (inr (running, _)) ↦ absurd (cc (ap (λ s. s == phase_pending) running))
  ]

  old-IsStep :
      (g g' : Greeter) (h : List Call) → (advance env g h).0 ≡ value g' → g ≢ g' → IsStep g g'
  old-IsStep g g' h e new = elim (advance-value g g' h e) [
    | inl (same, _) ↦ absurd (new (sym same))
    | inr (inl (pending, started)) ↦ IsStep-of g g' start pending started
    | inr (inr (running, inl same)) ↦ absurd (new (sym same))
    | inr (inr (running, inr (inl failed))) ↦ IsStep-of g g' give_up running failed
    | inr (inr (running, inr (inr succeeded))) ↦ IsStep-of g g' succeed running succeeded
  ]

  default_phase-cases :
      (g : Greeter)
      → (g.status.phase ≡ "") × (default_phase (deep_copy g) ≡ set_phase phase_pending g)
        ⊎ (default_phase (deep_copy g) ≡ g)
  unfolding default_phase deep_copy
  default_phase-cases g = ground (arith, eq_iff g.status.phase "")

  default-advance :
      (g g' : Greeter) (h : List Call)
      → (advance env (default_phase (deep_copy g)) h).0 ≡ value g'
      → g ≢ g'
      → IsStep g g'
  default-advance g g' h e new = elim (default_phase-cases g) [
    | inl (fresh, d) ↦ fresh-IsStep g g' h fresh (subst (λ x. (advance env x h).0 ≡ value g') d e)
    | inr d ↦ old-IsStep g g' h (subst (λ x. (advance env x h).0 ≡ value g') d e) new
  ]

  updates-store :
      (g g' : Greeter) (h : List Call)
      → (updates (store env g g' h).1 ≡ updates h)
        ⊎ (g ≢ g') × (updates (store env g g' h).1 ≡ g' ∷ updates h)
  unfolding store
  updates-store g g' h = ground (arith, deep_equal_iff g g')

  stored_step :
      (g : Greeter) (o : Outcome Synced Greeter) (h : List Call)
      → ((g' : Greeter) → o ≡ value g' → g ≢ g' → IsStep g g')
      → WritesStep g (updates h) (continue o (store env g) h).1
  stored_step g (value g') h step = elim (updates-store g g' h) [
    | inl same ↦ inl same
    | inr (new, written) ↦ inr (g', written, step g' refl new)
  ]
  stored_step g (reply r) h step = inl refl
  stored_step g panics h step = inl refl

  keyed_step :
      (g : Greeter) (key : Result String) (h : List Call)
      → WritesStep g
          (updates h)
          ((or_fail key >>= (λ k. advance env (default_phase (deep_copy g)) >>= store env g)) h).1
  unfolding or_fail
  keyed_step g (err e) h = inl refl
  keyed_step g (ok key) h =
      let g0 = default_phase (deep_copy g) in
      subst (λ us. WritesStep g us ((advance env g0 >>= store env g) h).1) (updates-advance g0 h)
        (stored_step g (advance env g0 h).0 (advance env g0 h).1 (λ g'. default-advance g g' h))

  -- Syncing a Greeter writes its status at most once, and what it writes is one step of the state
  -- machine: from no phase or "Pending" to "Running", or from "Running" to a final phase, with the
  -- rest of the Greeter unchanged.
  pub sync_greeter-IsStep :
      (g : Greeter) (h : List Call)
      → (updates (sync_greeter env g h).1 ≡ updates h)
        ⊎ ((g' : Greeter) × (updates (sync_greeter env g h).1 ≡ g' ∷ updates h) × IsStep g g')
  unfolding sync_greeter
  sync_greeter-IsStep g h = keyed_step g (env.key_of (greeter_object g)) h
