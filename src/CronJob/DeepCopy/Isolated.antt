-- ===== src/CronJob/DeepCopy/Isolated.antt =====
-- A deep copy of a CronJob says the same and shares nothing
-- (circle/api/v1/zz_generated.deepcopy.go).
use Prim.Native.Nat.{ℕ, ◌≤◌}
use mathlib.Core.Path.{◌≡◌, refl}
use mathlib.Core.Option.{Option}
use mathlib.Core.List.{List, [], ◌∷◌, map}
use bad_pen.Base.{length, All}
use bad_pen.CronJob.DeepCopy.{CronJobInMemory, deep_copy_cron_job, deep_copy_spec, deep_copy_status}
use bad_pen.Base.Heap.{Pointer, read, write, IsValid, IsFresh, map-read-write}
use bad_pen.CronJob.DeepCopy.Cells.{Cell, Heap, AreCopies, copy_all-AreCopies}

-- The pointers of a CronJob, in the order in which they are copied.
abbrev pub pointers : CronJobInMemory → List Pointer
pointers c =
    c.spec.starting_deadline_seconds ∷ c.spec.suspend ∷ c.spec.successful_jobs_history_limit
    ∷ c.spec.failed_jobs_history_limit ∷ c.status.active ∷ c.status.last_schedule_time ∷ []

-- What its pointers point to.
abbrev pub contents : Heap → CronJobInMemory → List (Option Cell)
contents h c = map (read h) (pointers c)

module _ (c : CronJobInMemory) (h : Heap) (valid : All (IsValid h) (pointers c)) where
  copies : AreCopies (pointers c) h (pointers (deep_copy_cron_job c h).0) (deep_copy_cron_job c h).1
  unfolding deep_copy_cron_job deep_copy_spec deep_copy_status
  copies = copy_all-AreCopies (pointers c) h valid

  -- A deep copy points to what the CronJob points to, each of its pointers is nil or new, and the
  -- fields that are no pointers are the same.
  pub deep_copy_same :
      (contents (deep_copy_cron_job c h).1 (deep_copy_cron_job c h).0 ≡ contents h c)
      × All (IsFresh (length h)) (pointers (deep_copy_cron_job c h).0)
      × ((deep_copy_cron_job c h).0.meta ≡ c.meta)
      × ((deep_copy_cron_job c h).0.spec.schedule ≡ c.spec.schedule)
      × ((deep_copy_cron_job c h).0.spec.concurrency_policy ≡ c.spec.concurrency_policy)
      × ((deep_copy_cron_job c h).0.spec.job_template ≡ c.spec.job_template)
  unfolding deep_copy_cron_job deep_copy_spec
  deep_copy_same = (copies.same, copies.fresh, refl, refl, refl, refl)

  -- Writing through a deep copy does not change the CronJob: whatever is written to a new cell,
  -- the CronJob points to what it pointed to before it was copied.
  pub deep_copy_isolated :
      (a : ℕ) (value : Cell)
      → length h ≤ a
      → contents (write a value (deep_copy_cron_job c h).1) c ≡ contents h c
  deep_copy_isolated a value new =
      map-read-write (pointers c) h (deep_copy_cron_job c h).1 a value copies.grows valid new
