-- ===== src/Greeter/Lifecycle.antt =====
-- The life of a Greeter over any number of syncs (greeter/internal/greeter/controller.go). Each
-- status that is stored is an event that puts the Greeter back on the queue, so that it matters that
-- there are few of them.
use Prim.Native.Nat.{ℕ, ◌+◌, ◌≤◌}
use Prim.Native.String.{String}
use mathlib.Core.Path.{◌≡◌, refl, sym, ap, ◌∙◌, subst}
use mathlib.Core.Logic.{inl, inr}
use mathlib.Core.List.{List, ◌∷◌}
use native.Mathlib.Omega.{arith}
use bad_pen.Base.{length, if◌then◌else◌}
use text.Mathlib.Text.{◌==◌}
use bad_pen.Greeter.{Greeter, phase_pending, phase_running}
use bad_pen.Greeter.Env.{Call, Env}
use bad_pen.Greeter.Sync.{sync_greeter}
use bad_pen.Greeter.Sync.Phases.{updates, Transition, IsStep, sync_greeter-IsStep}

-- How many phases lie before a Greeter.
abbrev pub rank : String → ℕ
rank phase =
    if phase == ""
    then 2
    else if phase == phase_pending
    then 2
    else if phase == phase_running
    then 1
    else 0

-- What may happen to the Greeter that the server stores, with the number of statuses stored: an
-- edit that leaves its phase alone; a sync, in whatever environment, after which nothing is stored,
-- because nothing was written or the server refused it; a sync whose status is stored.
pub data Step : Greeter → ℕ → Greeter → Type 0 where
  edited : (g g' : Greeter) → g'.status.phase ≡ g.status.phase → Step g 0 g'
  unchanged : (env : Env) (g : Greeter) (h : List Call) → Step g 0 g
  stored :
      (env : Env) (g g' : Greeter) (h : List Call)
      → updates (sync_greeter env g h).1 ≡ g' ∷ updates h
      → Step g 1 g'

pub data Steps : Greeter → ℕ → Greeter → Type 0 where
  nil : (g : Greeter) → Steps g 0 g
  cons : (g1 g2 g3 : Greeter) (n m : ℕ) → Step g1 n g2 → Steps g2 m g3 → Steps g1 (n + m) g3

rank-Transition : (p q : String) → Transition p q → 1 + rank q ≡ rank p
rank-Transition _ _ Transition.start_new = refl
rank-Transition _ _ Transition.start = refl
rank-Transition _ _ Transition.succeed = refl
rank-Transition _ _ Transition.give_up = refl

written-IsStep :
    (env : Env) (g g' : Greeter) (h : List Call)
    → updates (sync_greeter env g h).1 ≡ g' ∷ updates h
    → IsStep g g'
written-IsStep env g g' h written = elim (sync_greeter-IsStep env g h) [
  | inl none ↦ absurd (omega (arith, ap length (sym none ∙ written)))
  | inr (g'', e, step) ↦ subst (IsStep g) (cc (sym e ∙ written)) step
]

Step-rank : (g g' : Greeter) (n : ℕ) → Step g n g' → n + rank g'.status.phase ≤ rank g.status.phase
Step-rank _ _ _ (edited g g' same) = omega (arith, ap rank same)
Step-rank _ _ _ (unchanged env g h) = omega arith
Step-rank _ _ _ (stored env g g' h written) =
    omega (arith, rank-Transition _ _ (IsStep.transition (written-IsStep env g g' h written)))

-- Whatever happens to a Greeter - syncs in any environment, edits that leave its phase alone, and
-- refused writes, in any order - every status that is stored brings it nearer to its end: to one
-- that is new or pending at most two statuses are stored, to a running one at most one, and to one
-- in another phase none.
pub Steps-rank :
    (g g' : Greeter) (n : ℕ) → Steps g n g' → n + rank g'.status.phase ≤ rank g.status.phase
Steps-rank _ _ _ (nil g) = omega arith
Steps-rank _ _ _ (cons g1 g2 g3 n m step rest) =
    omega (arith, Step-rank g1 g2 n step, Steps-rank g2 g3 m rest)
