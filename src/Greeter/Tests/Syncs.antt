-- ===== src/Greeter/Tests/Syncs.antt =====
-- The theorems on a sync, one Greeter for each.
use mathlib.Core.Path.{◌≡◌, refl}
use mathlib.Core.Logic.{◌⊎◌}
use mathlib.Core.Option.{none, some}
use mathlib.Core.List.{[], ◌∷◌}
use bad_pen.Base.Int.{pos}
use bad_pen.Base.Exec.{reply}
use bad_pen.Base.Result.{not_found}
use bad_pen.Greeter.{Greeter, pod_object, other_object}
use bad_pen.Greeter.Env.{Call, add, read_greeter, read_pod, create_pod, Env}
use bad_pen.Greeter.Sync.{owned_pod, sync_greeter}
use bad_pen.Greeter.Sync.Phases.{updates, IsStep, sync_greeter-IsStep}
use bad_pen.Greeter.Feedback.{added, updated, deleted, told, created_pod_returns}
use bad_pen.Greeter.Queue.{pod_handlers}
use bad_pen.Lister
use bad_pen.Greeter.Tests.{
  greeter_in, own_pod, no_pod, cluster, ten_oclock, ownership_laws, reference_laws,
}

abbrev late : Env
late = cluster (greeter_in "") no_pod 36000000000001

sync_greeter-IsStep_example :
    (updates (sync_greeter late (greeter_in "") []).1 ≡ [])
    ⊎ ((g' : Greeter) × (updates (sync_greeter late (greeter_in "") []).1 ≡ g' ∷ [])
        × IsStep (greeter_in "") g')
sync_greeter-IsStep_example = sync_greeter-IsStep late (greeter_in "") []

abbrev early : Env
early = cluster (greeter_in "") no_pod 35000000000000

abbrev reading : Call
reading = read_pod "default" "hello-runner"

abbrev missing : Env
missing = cluster (greeter_in "Running") no_pod ten_oclock

created_pod_returns_example :
    (sync_greeter missing (greeter_in "Running") []
      ≡ (reply (pos 0, none), create_pod (owned_pod missing (greeter_in "Running")) ∷ reading ∷ []))
    × (told (pod_handlers missing) (added (pod_object (own_pod "Succeeded"))) (reading ∷ [])
        ≡ some (reply tt, add "default/hello" ∷ read_greeter "default" "hello" ∷ reading ∷ []))
    × (told
          (pod_handlers missing)
          (updated other_object (pod_object (own_pod "Succeeded")))
          (reading ∷ [])
        ≡ some (reply tt, add "default/hello" ∷ read_greeter "default" "hello" ∷ reading ∷ []))
    × (told (pod_handlers missing) (deleted (pod_object (own_pod "Succeeded"))) (reading ∷ [])
        ≡ none)
unfolding Lister.get Lister.greeters Lister.new_greeter_lister owned_pod
created_pod_returns_example =
    created_pod_returns missing ownership_laws reference_laws (greeter_in "Running") []
      (reading ∷ []) "default/hello" "default/hello" (not_found "pods \"hello-runner\" not found")
      (record (owned_pod missing (greeter_in "Running")) { phase = "Pending" })
      (own_pod "Succeeded") other_object (greeter_in "Running") refl refl refl refl refl refl
      (λ e. cc e) (λ e. cc e) refl refl refl refl refl
