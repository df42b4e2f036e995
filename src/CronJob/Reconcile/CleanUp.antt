-- ===== src/CronJob/Reconcile/CleanUp.antt =====
-- Stage 3 of `Reconcile`, the history limits
-- (circle/internal/controller/cronjob_controller.go).
use Prim.Native.Nat.{ℕ, zero, suc, ◌+◌, ◌-◌, ◌≤◌, ◌<◌}
use mathlib.Core.Path.{◌≡◌, sym}
use mathlib.Core.Bool.{false}
use mathlib.Core.Option.{some}
use mathlib.Core.List.{List, [], ◌∷◌, ◌++◌}
use native.Mathlib.Omega.{arith}
use native.Mathlib.Decide.{dec_le}
use bad_pen.Base.{length, take, drop, length-drop, take-append-drop, All, All-drop}
use bad_pen.Base.Int.{ℤ, pos, pos_part, neg_part, ◌≤ℤ◌, ◌-ℤ◌, -ℤ_parts}
use bad_pen.Base.Exec.{value, panics}
use bad_pen.Kube.{Pod}
use bad_pen.CronJob.Env.{Call, delete_pod, Env}
use bad_pen.CronJob.Pods.{starts_before}
use bad_pen.CronJob.Reconcile.{delete_old, clean_up}

-- The history after pods were deleted one by one.
abbrev pub deletions : List Pod → List Call → List Call
deletions [] h = h
deletions (pod ∷ pods) h = deletions pods (delete_pod pod ∷ h)

module _ (env : Env) where
  delete_old_none :
      (bound : ℤ) (i : ℕ) (pods : List Pod) (h : List Call)
      → pos_part bound < i + neg_part bound
      → delete_old env bound i pods h ≡ (value tt, h)
  unfolding delete_old
  delete_old_none bound i [] h p = ground arith
  delete_old_none bound i (pod ∷ pods) h p = ground arith

  delete_old_within :
      (bound : ℤ) (d i : ℕ) (pods : List Pod) (h : List Call)
      → pos_part bound + 1 ≡ i + d + neg_part bound
      → d ≤ length pods
      → delete_old env bound i pods h ≡ (value tt, deletions (take d pods) h)
  unfolding delete_old
  delete_old_within bound zero i pods h p k = delete_old_none bound i pods h (omega arith)
  delete_old_within bound (suc d) i [] h p k = absurd (omega arith)
  delete_old_within bound (suc d) i (pod ∷ pods) h p k =
      ground (arith, delete_old_within bound d (i + 1) pods (delete_pod pod ∷ h))

  delete_old_past_end :
      (bound : ℤ) (i : ℕ) (pods : List Pod) (h : List Call)
      → i + length pods + neg_part bound ≤ pos_part bound
      → delete_old env bound i pods h ≡ (panics, deletions pods h)
  unfolding delete_old
  delete_old_past_end bound i [] h p = ground arith
  delete_old_past_end bound i (pod ∷ pods) h p =
      ground (arith, delete_old_past_end bound (i + 1) pods (delete_pod pod ∷ h))

  delete_sorted :
      (limit : ℕ) (sorted : List Pod) (h : List Call)
      → 1 ≤ limit
      → delete_old env (pos (length sorted) -ℤ pos limit) 0 sorted h
        ≡ (value tt, deletions (take (length sorted + 1 - limit) sorted) h)
  delete_sorted limit sorted h p =
      let bound = pos (length sorted) -ℤ pos limit in
      let parts = -ℤ_parts (pos (length sorted)) (pos limit) in
      elim (dec_le limit (length sorted + 1)) [
        | yes q ↦
            delete_old_within bound (length sorted + 1 - limit) 0 sorted h (omega (arith, parts))
              (omega arith)
        | no q ↦
            let none_left : length sorted + 1 - limit ≡ 0 = omega arith in
            rw none_left (delete_old_none bound 0 sorted h (omega (arith, parts)))
      ]

  -- With a history limit of one or more, the clean-up deletes the first pods in the order of their
  -- start times and leaves one pod fewer than the limit: it deletes `length + 1 - limit` of them.
  pub clean_up_lem :
      (limit : ℕ) (pods : List Pod) (h : List Call)
      → 1 ≤ limit
      → let sorted = env.sort_slice starts_before pods in
        clean_up env (some (pos limit)) pods h
        ≡ (value tt, deletions (take (length sorted + 1 - limit) sorted) h)
  unfolding clean_up
  clean_up_lem limit pods h p = delete_sorted limit (env.sort_slice starts_before pods) h p

  -- With a history limit of zero or less, the clean-up deletes every pod and then panics, also if
  -- there is no pod.
  pub clean_up_panics :
      (limit : ℤ) (pods : List Pod) (h : List Call)
      → limit ≤ℤ pos 0
      → clean_up env (some limit) pods h ≡ (panics, deletions (env.sort_slice starts_before pods) h)
  unfolding clean_up
  clean_up_panics limit pods h p =
      delete_old_past_end (pos (length (env.sort_slice starts_before pods)) -ℤ limit) 0
        (env.sort_slice starts_before pods) h
        (omega (arith, -ℤ_parts (pos (length (env.sort_slice starts_before pods))) limit))

-- The order that sort.Slice gives a slice: no pod starts before an earlier one.
abbrev pub Ordered : List Pod → Type 0
Ordered [] = Unit
Ordered (pod ∷ pods) = All (λ q. starts_before q pod ≡ false) pods × Ordered pods

oldest_first :
    (d : ℕ) (sorted : List Pod)
    → Ordered sorted
    → All (λ p. All (λ q. starts_before q p ≡ false) (drop d sorted)) (take d sorted)
oldest_first zero sorted o = tt
oldest_first (suc d) [] o = tt
oldest_first (suc d) (pod ∷ pods) o =
    (All-drop (λ q. starts_before q pod ≡ false) d pods o.0, oldest_first d pods o.1)

-- A clean-up with a limit of one or more deletes old pods: no pod that it keeps started before one
-- that it deletes, where a pod with no start time counts as the oldest. It keeps fewer pods than
-- the limit says.
pub clean_up_oldest :
    (env : Env) (limit : ℕ) (pods : List Pod) (h : List Call)
    → 1 ≤ limit
    → Ordered (env.sort_slice starts_before pods)
    → (deleted kept : List Pod) × (env.sort_slice starts_before pods ≡ deleted ++ kept)
      × (clean_up env (some (pos limit)) pods h ≡ (value tt, deletions deleted h))
      × All (λ p. All (λ q. starts_before q p ≡ false) kept) deleted
      × (length kept < limit)
clean_up_oldest env limit pods h p o =
    let sorted = env.sort_slice starts_before pods in
    let d = length sorted + 1 - limit in
    (
      take d sorted,
      drop d sorted,
      sym (take-append-drop d sorted),
      clean_up_lem env limit pods h p,
      oldest_first d sorted o,
      omega (arith, length-drop d sorted),
    )
