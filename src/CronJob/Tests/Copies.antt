-- ===== src/CronJob/Tests/Copies.antt =====
-- The theorems on deep copies, for a CronJob with a deadline and an active pod in memory.
use mathlib.Core.Path.{◌≡◌}
use mathlib.Core.Option.{none, some}
use mathlib.Core.List.{[], ◌∷◌}
use native.Mathlib.Omega.{arith}
use bad_pen.Base.{length, All}
use bad_pen.Base.Int.{pos}
use bad_pen.CronJob.{allow_concurrent}
use bad_pen.CronJob.DeepCopy.{CronJobInMemory, deep_copy_items}
use bad_pen.Base.Heap.{write, IsValid, IsFresh}
use bad_pen.CronJob.DeepCopy.Cells.{Heap, int_cell, references_cell}
use bad_pen.CronJob.DeepCopy.Lists.{list_pointers, list_contents, deep_copy_items_isolated}
use bad_pen.CronJob.Tests.{meta_named, no_spec}

abbrev heap : Heap
heap = int_cell (pos 60) ∷ references_cell [] ∷ []

abbrev stored : CronJobInMemory
stored = record {
  type_meta = record { kind = "CronJob"; api_version = "batch.example.org/v1" };
  meta = meta_named "backup";
  spec = record {
    schedule = "@every 1h";
    starting_deadline_seconds = some 0;
    concurrency_policy = allow_concurrent;
    suspend = none;
    job_template = record { labels = []; annotations = []; spec = no_spec };
    successful_jobs_history_limit = none;
    failed_jobs_history_limit = none;
  };
  status = record { active = some 1; last_schedule_time = none };
}

valid : All (IsValid heap) (list_pointers (stored ∷ []))
valid = (omega arith, (tt, (tt, (tt, (omega arith, (tt, tt))))))

deep_copy_items_isolated_example :
    (list_contents (deep_copy_items (stored ∷ []) heap).1 (deep_copy_items (stored ∷ []) heap).0
      ≡ list_contents heap (stored ∷ []))
    × All (IsFresh (length heap)) (list_pointers (deep_copy_items (stored ∷ []) heap).0)
    × (list_contents
          (write 2 (int_cell (pos 5)) (deep_copy_items (stored ∷ []) heap).1)
          (stored ∷ [])
        ≡ list_contents heap (stored ∷ []))
deep_copy_items_isolated_example =
    deep_copy_items_isolated (stored ∷ []) heap valid 2 (int_cell (pos 5)) (omega arith)
