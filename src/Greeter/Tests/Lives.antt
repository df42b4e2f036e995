-- ===== src/Greeter/Tests/Lives.antt =====
-- The life of a Greeter whose schedule is due and whose pod then succeeds
-- (greeter/internal/greeter/controller.go).
use Prim.Native.Nat.{◌+◌, ◌≤◌}
use mathlib.Core.Path.{◌≡◌, refl, ap}
use mathlib.Core.Logic.{inl, inr}
use mathlib.Core.List.{[], ◌∷◌}
use bad_pen.Base.Int.{pos}
use bad_pen.Base.Result.{ok}
use bad_pen.Time.{sub}
use bad_pen.Greeter.Env.{Env}
use bad_pen.Greeter.Sync.{sync_greeter}
use bad_pen.Greeter.Sync.Branches.{sync_greeter_starts, sync_greeter_finishes}
use bad_pen.Greeter.Sync.Phases.{updates}
use bad_pen.Greeter.Lifecycle.{rank, Step, Steps, Steps-rank}
use bad_pen.Greeter.Tests.{greeter_in, own_pod, no_pod, cluster, ten_oclock}

abbrev due : Env
due = cluster (greeter_in "") no_pod 36000000000001

abbrev succeeded : Env
succeeded = cluster (greeter_in "Running") (ok (own_pod "Succeeded")) ten_oclock

starts : updates (sync_greeter due (greeter_in "") []).1 ≡ greeter_in "Running" ∷ []
unfolding sub
starts =
    ap (λ r. updates r.1)
      (sync_greeter_starts due (greeter_in "") [] "default/hello" refl (pos ten_oclock) (inl refl)
        refl (greeter_in "Running") refl refl)

finishes :
    updates (sync_greeter succeeded (greeter_in "Running") []).1 ≡ greeter_in "Succeeded" ∷ []
finishes =
    ap (λ r. updates r.1)
      (sync_greeter_finishes succeeded (greeter_in "Running") [] "default/hello" refl refl
        (own_pod "Succeeded") refl (greeter_in "Succeeded") refl (inr refl) refl)

life : Steps (greeter_in "") 2 (greeter_in "Succeeded")
life =
    Steps.cons (greeter_in "") (greeter_in "Running") (greeter_in "Succeeded") 1 1
      (Step.stored due (greeter_in "") (greeter_in "Running") [] starts)
      (Steps.cons (greeter_in "Running") (greeter_in "Succeeded") (greeter_in "Succeeded") 1 0
        (Step.stored succeeded (greeter_in "Running") (greeter_in "Succeeded") [] finishes)
        (Steps.nil (greeter_in "Succeeded")))

Steps-rank_example : 2 + rank "Succeeded" ≤ rank ""
Steps-rank_example = Steps-rank (greeter_in "") (greeter_in "Succeeded") 2 life
