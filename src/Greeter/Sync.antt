-- ===== src/Greeter/Sync.antt =====
-- `syncHandler` and `syncGreeter` of greeter/internal/greeter/controller.go. Logging is left out.
pub mod Phases
pub mod Branches
pub mod Effects
use Prim.Native.String
use Prim.Native.String.{String}
use mathlib.Core.Bool.{◌||◌}
use mathlib.Core.Option.{Option, none, some}
use mathlib.Core.List.{[], ◌∷◌, ◌++◌}
use text.Mathlib.Text.{◌==◌}
use bad_pen.Base.{if◌then◌else◌}
use bad_pen.Base.Int.{pos, ltb_ℤ}
use bad_pen.Base.Exec.{pure, exit, panic, call, ◌>>=◌, ◌>>◌}
use bad_pen.Base.Result.{
  Error, failed, message, is_not_found, Result, ok, err, Checked, returned, panicked,
}
use bad_pen.Time.{Instant, Duration, zero_time, sub}
use bad_pen.Kube.{Pod, Ownership, pod_succeeded, pod_failed, quoted}
use bad_pen.Greeter.{
  Greeter, phase_pending, phase_running, set_phase, deep_copy, deep_equal, greeter_object,
}
use bad_pen.Greeter.Env.{
  normal, warning, read_greeter, read_pod, create_pod, update_status, record_event, read_clock,
  handle_error, Env, Run,
}
use bad_pen.Lister

abbrev pub err_resource_exists : String
err_resource_exists = "ErrResourceExists"

abbrev pub success_synced : String
success_synced = "Synced"

abbrev pub message_resource_synced : String
message_resource_synced = "Greeter synced successfully"

-- `fmt.Sprintf(MessageResourceExists, name)`
abbrev pub message_resource_exists : String → String
message_resource_exists name =
    String.◌++◌ "Resource "
      (String.◌++◌ (quoted name) " already exists and is not managed by Greeter")

-- `v1alpha1.SchemeGroupVersion`, and the kind of the owner reference
abbrev pub group_version : String
group_version = "example.org/v1alpha1"

abbrev pub greeter_kind : String
greeter_kind = "Greeter"

-- `newPodForGreeter`
unfoldable pub new_pod_for_greeter : Greeter → Pod
new_pod_for_greeter greeter = record {
  meta = record {
    name = String.◌++◌ greeter.meta.name "-runner";
    generate_name = "";
    namespace = greeter.meta.namespace;
    uid = "";
    creation_timestamp = zero_time;
    labels = ("app.k8s.io/name", greeter.meta.name) ∷ [];
    annotations = [];
    owner_references = [];
  };
  spec = record {
    containers =
        record {
          image = "busybox";
          name = "greeter";
          command = "sh" ∷ [];
          args = "-c" ∷ String.◌++◌ "echo " greeter.spec.message ∷ [];
        }
        ∷ [];
    restart_policy = "Never";
  };
  phase = "";
  start_time = none;
}

-- What `syncGreeter` and `syncHandler` return: the delay after which to come back, and the error.
abbrev pub Synced : Type 0
Synced = Duration × Option Error

abbrev pub fail : {A : Type 0} → Error → Run Synced A
fail e = exit (pos 0, some e)

abbrev pub finished : {A : Type 0} → Run Synced A
finished = exit (pos 0, none)

or_fail : {A : Type 0} → Result A → Run Synced A
or_fail (ok a) = pure a
or_fail (err e) = fail e

-- The first test of `syncGreeter`.
unfoldable pub default_phase : Greeter → Greeter
default_phase instance' =
    if instance'.status.phase == "" then set_phase phase_pending instance' else instance'

unfoldable pub terminate : Pod → Greeter → Greeter
terminate found instance' =
    if found.phase == pod_failed || found.phase == pod_succeeded
    then set_phase found.phase instance'
    else instance'

module _ (env : Env) where
  clock : {R : Type 0} → Run R Instant
  clock = call read_clock env.now

  -- The clock is read only after the schedule was parsed.
  measure_until : {R : Type 0} → Result Instant → Run R (Result Duration)
  measure_until (err e) = pure (err e)
  measure_until (ok expected) = call read_clock (λ h. ok (sub expected (env.now h)))

  -- `timeUntilSchedule`
  unfoldable pub time_until_schedule : {R : Type 0} → String → Run R (Result Duration)
  unfolding measure_until
  time_until_schedule schedule = measure_until (env.parse_local schedule)

  pending_after : Greeter → Result Duration → Run Synced Greeter
  pending_after instance' (err e) =
      call (handle_error (String.◌++◌ "schedule parsing failed: " (message e))) (λ h. tt) >> fail e
  pending_after instance' (ok when) =
      if ltb_ℤ (pos 0) when then exit (when, none) else pure (set_phase phase_running instance')

  -- case v1alpha1.PhasePending
  unfoldable pub sync_pending : Greeter → Run Synced Greeter
  unfolding time_until_schedule pending_after
  sync_pending instance' = do
    when ← time_until_schedule instance'.spec.schedule
    pending_after instance' when

  -- The pod of a Greeter with its owner reference.
  unfoldable pub owned_pod : Greeter → Pod
  unfolding new_pod_for_greeter
  owned_pod instance' =
      let pod = new_pod_for_greeter instance' in
      record pod {
        meta = record pod.meta {
          owner_references =
              pod.meta.owner_references
              ++ Ownership.new_controller_ref env.ownership instance'.meta group_version
                  greeter_kind
                ∷ [];
        };
      }

  create_missing : Pod → Run Synced Pod
  unfolding or_fail
  create_missing pod = do
    answer ← call (create_pod pod) (λ h. env.create_answer h pod)
    or_fail answer

  -- The pod that was found, or is created if there is none.
  unfoldable pub ensure_pod : Pod → Result Pod → Run Synced Pod
  unfolding create_missing
  ensure_pod pod (ok found) = pure found
  ensure_pod pod (err e) = if is_not_found e then create_missing pod else fail e

  unfoldable pub check_controlled : Greeter → Pod → Pod → Run Synced (Unit {0})
  check_controlled instance' pod found =
      if Ownership.is_controlled_by env.ownership found.meta instance'.meta
      then pure tt
      else (call
            (record_event instance' warning err_resource_exists
              (message_resource_exists pod.meta.name))
            (λ h. tt)
          >> fail (failed (message_resource_exists pod.meta.name)))

  -- case v1alpha1.PhaseRunning
  unfoldable pub sync_running : Greeter → Run Synced Greeter
  unfolding owned_pod ensure_pod check_controlled terminate
  sync_running instance' = do
    let pod = owned_pod instance'
    looked ←
        call (read_pod pod.meta.namespace pod.meta.name)
          (λ h. env.pod_get h pod.meta.namespace pod.meta.name)
    found ← ensure_pod pod looked
    check_controlled instance' pod found
    pure (terminate found instance')

  -- The `switch`: the cases of the final phases only log, and no other phase has a case.
  unfoldable pub advance : Greeter → Run Synced Greeter
  advance instance' =
      if instance'.status.phase == phase_pending
      then sync_pending instance'
      else if instance'.status.phase == phase_running
      then sync_running instance'
      else pure instance'

  after_update : Greeter → Result Greeter → Run Synced ⊥
  after_update instance' (err e) = fail e
  after_update instance' (ok stored) =
      call (record_event instance' normal success_synced message_resource_synced) (λ h. tt)
      >> finished

  -- The status is written only if it has changed.
  unfoldable pub store : Greeter → Greeter → Run Synced ⊥
  unfolding after_update
  store greeter instance' =
      if deep_equal greeter instance'
      then finished
      else (call (update_status instance') (λ h. env.update_answer h instance')
          >>= after_update instance')

  unfoldable pub sync_greeter : Greeter → Run Synced ⊥
  unfolding or_fail
  sync_greeter greeter = do
    key ← or_fail (env.key_of (greeter_object greeter))
    instance' ← advance (default_phase (deep_copy greeter))
    store greeter instance'

  synced_greeter : String → Checked (Result Greeter) → Run Synced ⊥
  synced_greeter key panicked = panic
  synced_greeter key (returned (ok greeter)) = sync_greeter greeter
  synced_greeter key (returned (err e)) =
      if is_not_found e
      then (call
            (handle_error
              (String.◌++◌ "greeter '" (String.◌++◌ key "' in work queue no longer exists")))
            (λ h. tt)
          >> finished)
      else fail e

  sync_split : String → Result (String × String) → Run Synced ⊥
  unfolding synced_greeter
  sync_split key (err e) =
      call (handle_error (String.◌++◌ "invalid resource key: " key)) (λ h. tt) >> finished
  sync_split key (ok (namespace, name)) = do
    got ← call (read_greeter namespace name) (λ h.
        Lister.get (Lister.greeters (Lister.new_greeter_lister (env.greeter_cache h)) namespace)
          name)
    synced_greeter key got

  -- `syncHandler`
  unfoldable pub sync_handler : String → Run Synced ⊥
  unfolding sync_split
  sync_handler key = sync_split key (env.split_key key)
