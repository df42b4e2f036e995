-- ===== src/Greeter/Sync/Branches.antt =====
-- What `syncGreeter` does for each phase of a Greeter (greeter/internal/greeter/controller.go).
use Prim.Native.String
use Prim.Native.String.{String}
use mathlib.Core.Path.{◌≡◌, refl, sym, ap, ◌∙◌}
use mathlib.Core.Logic.{◌⊎◌, ◌≢◌, inl, inr}
use mathlib.Core.Bool.{true, false}
use mathlib.Core.Option.{none, some}
use mathlib.Core.List.{List, ◌∷◌}
use native.Mathlib.Omega.{arith}
use text.Mathlib.Text.{◌==◌}
use text.Mathlib.TextEquality.{eq_iff}
use bad_pen.Base.{Bool-cases}
use bad_pen.Base.Int.{pos, ltb_ℤ}
use bad_pen.Base.Exec.{reply}
use bad_pen.Base.Result.{Error, message, ok, err, is_not_found}
use bad_pen.Time.{Instant, sub}
use bad_pen.Kube.{Pod, Ownership, OwnershipLaws, pod_succeeded, pod_failed}
use bad_pen.Greeter.{
  Greeter, greeter_object, phase_pending, phase_running, phase_succeeded, phase_failed, set_phase,
  deep_copy, deep_equal, deep_equal_iff,
}
use bad_pen.Greeter.Env.{
  Call, normal, read_pod, create_pod, update_status, record_event, read_clock, handle_error, Env,
}
use bad_pen.Greeter.Sync.{
  success_synced, message_resource_synced, group_version, greeter_kind, default_phase, terminate,
  time_until_schedule, sync_pending, new_pod_for_greeter, owned_pod, ensure_pod, check_controlled,
  sync_running, advance, store, sync_greeter,
}

-- A Greeter with no phase yet is treated as a pending one.
abbrev IsNew : Greeter → Type 0
IsNew g = (g.status.phase ≡ "") ⊎ (g.status.phase ≡ phase_pending)

new_not_running : (g : Greeter) → IsNew g → g.status.phase ≢ phase_running
new_not_running g (inl fresh) r = cc (ap (λ s. s == "") (sym fresh ∙ r))
new_not_running g (inr pending) r = cc (ap (λ s. s == phase_pending) (sym pending ∙ r))

phase_differs :
    (g : Greeter) (phase : String)
    → g.status.phase ≢ phase
    → deep_equal g (set_phase phase g) ≡ false
phase_differs g phase other = elim (Bool-cases (deep_equal g (set_phase phase g))) [
  | inl same ↦ absurd (other (ap (λ x. x.status.phase) ((deep_equal_iff _ _).0 same)))
  | inr differs ↦ differs
]

unchanged : (g : Greeter) → deep_equal g g ≡ true
unchanged g = (deep_equal_iff g g).1 refl

final_test :
    (phase : String)
    → (phase ≡ phase_failed) ⊎ (phase ≡ phase_succeeded)
    → (phase == phase_running) ≡ false
final_test phase (inl e) = rw e refl
final_test phase (inr e) = rw e refl

module _ (env : Env) (g : Greeter) (h : List Call) (key : String)
    (has_key : env.key_of (greeter_object g) ≡ ok key) where
  advance_new :
      IsNew g
      → advance env (default_phase (deep_copy g)) h ≡ sync_pending env (set_phase phase_pending g) h
  unfolding advance default_phase deep_copy
  advance_new (inl fresh) = rw fresh refl
  advance_new (inr pending) = rw pending refl

  -- A new Greeter whose schedule cannot be read is given up with that error; nothing is written.
  pub sync_greeter_unreadable :
      (e : Error)
      → IsNew g
      → env.parse_local g.spec.schedule ≡ err e
      → sync_greeter env g h ≡ (
        reply (pos 0, some e),
        handle_error (String.◌++◌ "schedule parsing failed: " (message e)) ∷ h,
      )
  unfolding sync_greeter sync_pending time_until_schedule
  sync_greeter_unreadable e new unread = ground (arith, advance_new new)

  module _ (t : Instant) (new : IsNew g) (readable : env.parse_local g.spec.schedule ≡ ok t) where
    -- Before its schedule a new Greeter is left alone: the sync asks to come back when it is due.
    pub sync_greeter_waits :
        ltb_ℤ (pos 0) (sub t (env.now h)) ≡ true
        → sync_greeter env g h ≡ (reply (sub t (env.now h), none), read_clock ∷ h)
    unfolding sync_greeter sync_pending time_until_schedule
    sync_greeter_waits early = ground (arith, advance_new new)

    -- From its schedule on it is stored as a running one.
    pub sync_greeter_starts :
        (stored : Greeter)
        → ltb_ℤ (pos 0) (sub t (env.now h)) ≡ false
        → env.update_answer (read_clock ∷ h) (set_phase phase_running g) ≡ ok stored
        → sync_greeter env g h ≡ (
          reply (pos 0, none),
          record_event (set_phase phase_running g) normal success_synced message_resource_synced
              ∷ update_status (set_phase phase_running g)
              ∷ read_clock
              ∷ h,
        )
    unfolding sync_greeter sync_pending time_until_schedule store
    sync_greeter_starts stored due written =
        ground (arith, advance_new new, phase_differs g phase_running (new_not_running g new))

  module _ (running : g.status.phase ≡ phase_running) where
    advance_running : advance env (default_phase (deep_copy g)) h ≡ sync_running env g h
    unfolding advance default_phase deep_copy
    advance_running = rw running refl

    abbrev reading : Call
    reading = read_pod g.meta.namespace (String.◌++◌ g.meta.name "-runner")

    not_final : (phase : String) → (phase == phase_running) ≡ false → g.status.phase ≢ phase
    not_final phase differs e = cc (differs, ap (λ s. s == phase_running) (sym e ∙ running))

    module _ (found : Pod)
        (was_found : env.pod_get h g.meta.namespace (String.◌++◌ g.meta.name "-runner")
          ≡ ok found) where
      -- Once the Greeter's own pod has succeeded or failed, the Greeter gets that phase.
      pub sync_greeter_finishes :
          (stored : Greeter)
          → Ownership.is_controlled_by env.ownership found.meta g.meta ≡ true
          → (found.phase ≡ phase_failed) ⊎ (found.phase ≡ phase_succeeded)
          → env.update_answer (reading ∷ h) (set_phase found.phase g) ≡ ok stored
          → sync_greeter env g h ≡ (
            reply (pos 0, none),
            record_event (set_phase found.phase g) normal success_synced message_resource_synced
                ∷ update_status (set_phase found.phase g)
                ∷ reading
                ∷ h,
          )
      unfolding sync_greeter sync_running owned_pod new_pod_for_greeter ensure_pod check_controlled
          terminate store
      sync_greeter_finishes stored own final written = ground (
        arith,
        advance_running,
        phase_differs g found.phase (λ e. not_final found.phase (final_test found.phase final) e),
        eq_iff found.phase pod_failed,
        eq_iff found.phase pod_succeeded,
      )

      -- While it has done neither, nothing is written.
      pub sync_greeter_runs :
          Ownership.is_controlled_by env.ownership found.meta g.meta ≡ true
          → found.phase ≢ phase_failed
          → found.phase ≢ phase_succeeded
          → sync_greeter env g h ≡ (reply (pos 0, none), reading ∷ h)
      unfolding sync_greeter sync_running owned_pod new_pod_for_greeter ensure_pod check_controlled
          terminate store
      sync_greeter_runs own a b = ground (
        arith,
        advance_running,
        unchanged g,
        eq_iff found.phase pod_failed,
        eq_iff found.phase pod_succeeded,
      )

    -- If there is no pod of that name, it is created with the Greeter as its controller; a created
    -- pod that keeps its owner references is accepted, and the Greeter goes on running.
    pub sync_greeter_creates :
        OwnershipLaws env.ownership
        → (e : Error) (created : Pod)
        → env.pod_get h g.meta.namespace (String.◌++◌ g.meta.name "-runner") ≡ err e
        → is_not_found e ≡ true
        → env.create_answer (reading ∷ h) (owned_pod env g) ≡ ok created
        → created.meta.owner_references ≡ (owned_pod env g).meta.owner_references
        → created.phase ≢ phase_failed
        → created.phase ≢ phase_succeeded
        → sync_greeter env g h ≡ (reply (pos 0, none), create_pod (owned_pod env g) ∷ reading ∷ h)
    unfolding sync_greeter sync_running owned_pod new_pod_for_greeter ensure_pod check_controlled
        terminate store
    sync_greeter_creates laws e created missing gone made kept a b = ground (
      arith,
      advance_running,
      unchanged g,
      OwnershipLaws.new_ref_controls laws created.meta g.meta group_version greeter_kind kept,
      eq_iff created.phase pod_failed,
      eq_iff created.phase pod_succeeded,
    )

  -- A Greeter in any other phase is final: its sync makes no call.
  pub sync_greeter_final :
      g.status.phase ≢ ""
      → g.status.phase ≢ phase_pending
      → g.status.phase ≢ phase_running
      → sync_greeter env g h ≡ (reply (pos 0, none), h)
  unfolding sync_greeter advance default_phase deep_copy store
  sync_greeter_final a b c = ground (
    arith,
    unchanged g,
    eq_iff g.status.phase "",
    eq_iff g.status.phase phase_pending,
    eq_iff g.status.phase phase_running,
  )
