-- ===== src/CronJob/DeepCopy.antt =====
-- The deep copies of a CronJob (circle/api/v1/zz_generated.deepcopy.go), on a heap in which its
-- pointers are addresses. The metadata and the pod template are values here: their deep copies
-- are the libraries'.
pub mod Cells
pub mod Isolated
pub mod Lists
use Prim.Native.Nat.{ℕ}
use Prim.Native.String.{String}
use mathlib.Core.Option.{Option, none, some}
use mathlib.Core.List.{List, [], ◌∷◌}
use bad_pen.Base.Heap.{Pointer}
use bad_pen.Kube.{TypeMeta, ObjectMeta}
use bad_pen.CronJob.{ConcurrencyPolicy, PodTemplateSpec}
use bad_pen.CronJob.DeepCopy.Cells.{Heap, copy_pointer}

-- A CronJob in memory: its pointer fields, and the slice of its active references, are addresses.
pub record SpecInMemory : Type 0 where
  pub schedule : String
  pub starting_deadline_seconds : Pointer
  pub concurrency_policy : ConcurrencyPolicy
  pub suspend : Pointer
  pub job_template : PodTemplateSpec
  pub successful_jobs_history_limit : Pointer
  pub failed_jobs_history_limit : Pointer

pub record StatusInMemory : Type 0 where
  pub active : Pointer
  pub last_schedule_time : Pointer

pub record CronJobInMemory : Type 0 where
  pub type_meta : TypeMeta
  pub meta : ObjectMeta
  pub spec : SpecInMemory
  pub status : StatusInMemory

-- A list of CronJobs; the copy of its metadata is the library's.
pub record CronJobListInMemory : Type 0 where
  pub type_meta : TypeMeta
  pub resource_version : String
  pub items : Option (List CronJobInMemory)

-- `CronJobSpec.DeepCopyInto`
unfoldable pub deep_copy_spec : SpecInMemory → Heap → SpecInMemory × Heap
unfolding copy_pointer
deep_copy_spec s h =
    let (deadline, h1) = copy_pointer s.starting_deadline_seconds h in
    let (suspend, h2) = copy_pointer s.suspend h1 in
    let (successful, h3) = copy_pointer s.successful_jobs_history_limit h2 in
    let (failed, h4) = copy_pointer s.failed_jobs_history_limit h3 in
    (
      record s {
        starting_deadline_seconds = deadline;
        suspend = suspend;
        successful_jobs_history_limit = successful;
        failed_jobs_history_limit = failed;
      },
      h4,
    )

-- `CronJobStatus.DeepCopyInto`
unfoldable pub deep_copy_status : StatusInMemory → Heap → StatusInMemory × Heap
unfolding copy_pointer
deep_copy_status s h =
    let (active, h1) = copy_pointer s.active h in
    let (last, h2) = copy_pointer s.last_schedule_time h1 in
    (record { active = active; last_schedule_time = last }, h2)

-- `CronJob.DeepCopyInto`, for a copy that is a new CronJob.
unfoldable pub deep_copy_cron_job : CronJobInMemory → Heap → CronJobInMemory × Heap
unfolding deep_copy_spec deep_copy_status
deep_copy_cron_job c h =
    let (spec, h1) = deep_copy_spec c.spec h in
    let (status, h2) = deep_copy_status c.status h1 in
    (record c { spec = spec; status = status }, h2)

-- `CronJob.DeepCopy`, which takes a nil pointer to a nil pointer.
unfoldable pub deep_copy : Option CronJobInMemory → Heap → Option CronJobInMemory × Heap
unfolding deep_copy_cron_job
deep_copy none h = (none, h)
deep_copy (some c) h = let (copy, h') = deep_copy_cron_job c h in (some copy, h')

-- The loop of `CronJobList.DeepCopyInto`.
unfoldable pub deep_copy_items : List CronJobInMemory → Heap → List CronJobInMemory × Heap
unfolding deep_copy_cron_job
deep_copy_items [] h = ([], h)
deep_copy_items (c ∷ items) h =
    let (copy, h1) = deep_copy_cron_job c h in
    let (copies, h2) = deep_copy_items items h1 in (copy ∷ copies, h2)

-- `CronJob.DeepCopyObject`: a copy that is nil is returned as nil.
unfoldable pub deep_copy_object : Option CronJobInMemory → Heap → Option CronJobInMemory × Heap
unfolding deep_copy
deep_copy_object c h =
    let (copy, h') = deep_copy c h in (elim copy [ none ↦ none | some d ↦ some d ], h')

-- `CronJobList.DeepCopyInto`, for a copy that is a new list: nil items stay nil.
unfoldable pub deep_copy_list_into : CronJobListInMemory → Heap → CronJobListInMemory × Heap
unfolding deep_copy_items
deep_copy_list_into l h = elim l.items [
  | none ↦ (l, h)
  | some items ↦
      let (copies, h') = deep_copy_items items h in (record l { items = some copies }, h')
]

-- `CronJobList.DeepCopy` and `DeepCopyObject`
unfoldable pub deep_copy_list :
    Option CronJobListInMemory → Heap → Option CronJobListInMemory × Heap
unfolding deep_copy_list_into
deep_copy_list none h = (none, h)
deep_copy_list (some l) h = let (copy, h') = deep_copy_list_into l h in (some copy, h')

unfoldable pub deep_copy_list_object :
    Option CronJobListInMemory → Heap → Option CronJobListInMemory × Heap
unfolding deep_copy_list
deep_copy_list_object l h =
    let (copy, h') = deep_copy_list l h in (elim copy [ none ↦ none | some k ↦ some k ], h')

-- `CronJobSpec.DeepCopy` and `CronJobStatus.DeepCopy`
unfoldable pub deep_copy_of_spec : Option SpecInMemory → Heap → Option SpecInMemory × Heap
unfolding deep_copy_spec
deep_copy_of_spec none h = (none, h)
deep_copy_of_spec (some s) h = let (copy, h') = deep_copy_spec s h in (some copy, h')

unfoldable pub deep_copy_of_status : Option StatusInMemory → Heap → Option StatusInMemory × Heap
unfolding deep_copy_status
deep_copy_of_status none h = (none, h)
deep_copy_of_status (some s) h = let (copy, h') = deep_copy_status s h in (some copy, h')
