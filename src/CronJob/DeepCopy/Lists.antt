-- ===== src/CronJob/DeepCopy/Lists.antt =====
-- A deep copy of a list of CronJobs shares nothing with the list
-- (circle/api/v1/zz_generated.deepcopy.go).
use Prim.Native.Nat.{ℕ, ◌≤◌}
use mathlib.Core.Path.{◌≡◌, refl, sym, subst}
use mathlib.Core.Option.{Option}
use mathlib.Core.List.{List, [], ◌∷◌, ◌++◌, map}
use bad_pen.Base.{length, All}
use bad_pen.Base.Heap.{Pointer, read, write, IsValid, IsFresh, map-read-write}
use bad_pen.CronJob.DeepCopy.{
  CronJobInMemory, deep_copy_items, deep_copy_cron_job, deep_copy_spec, deep_copy_status,
}
use bad_pen.CronJob.DeepCopy.Cells.{
  Cell, Heap, AreCopies, copy_all, copy_all-AreCopies, copy_all-append,
}
use bad_pen.CronJob.DeepCopy.Isolated.{pointers}

-- The pointers of all CronJobs of a list.
abbrev pub list_pointers : List CronJobInMemory → List Pointer
list_pointers [] = []
list_pointers (c ∷ items) = pointers c ++ list_pointers items

-- What they point to.
abbrev pub list_contents : Heap → List CronJobInMemory → List (Option Cell)
list_contents h items = map (read h) (list_pointers items)

copied_pointers :
    (items : List CronJobInMemory) (h : Heap)
    → (list_pointers (deep_copy_items items h).0, (deep_copy_items items h).1)
      ≡ copy_all (list_pointers items) h
unfolding deep_copy_items deep_copy_cron_job deep_copy_spec deep_copy_status
copied_pointers [] h = refl
copied_pointers (c ∷ items) h =
    let h1 = (deep_copy_cron_job c h).1 in
    rw (copy_all-append (pointers c) (list_pointers items) h, sym (copied_pointers items h1)) refl

module _ (items : List CronJobInMemory) (h : Heap)
    (valid : All (IsValid h) (list_pointers items)) where
  copies :
      AreCopies
        (list_pointers items)
        h
        (list_pointers (deep_copy_items items h).0)
        (deep_copy_items items h).1
  copies =
      subst (λ r. AreCopies (list_pointers items) h r.0 r.1) (sym (copied_pointers items h))
        (copy_all-AreCopies (list_pointers items) h valid)

  -- The copies of a list of CronJobs point to what the CronJobs point to, each of their pointers is
  -- nil or new; and whatever is written to a new cell, the CronJobs point to what they pointed to
  -- before they were copied.
  pub deep_copy_items_isolated :
      (a : ℕ) (value : Cell)
      → length h ≤ a
      → (list_contents (deep_copy_items items h).1 (deep_copy_items items h).0
          ≡ list_contents h items)
        × All (IsFresh (length h)) (list_pointers (deep_copy_items items h).0)
        × (list_contents (write a value (deep_copy_items items h).1) items ≡ list_contents h items)
  deep_copy_items_isolated a value new = (
    copies.same,
    copies.fresh,
    map-read-write (list_pointers items) h (deep_copy_items items h).1 a value copies.grows valid
        new,
  )
