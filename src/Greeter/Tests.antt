-- ===== src/Greeter/Tests.antt =====
-- A Greeter in a small cluster, for the theorems on its controller
-- (greeter/internal/greeter/controller.go).
mod Syncs
mod Queues
mod Lives
use Prim.Native.Nat.{ℕ, zero, suc}
use Prim.Native.String.{String}
use mathlib.Core.Path.{◌≡◌, refl, ap, ◌∙◌}
use mathlib.Core.Logic.{◌↔◌}
use mathlib.Core.Bool.{Bool, true, false}
use mathlib.Core.Option.{Option, none, some}
use mathlib.Core.List.{List, [], ◌∷◌}
use native.Mathlib.Omega.{arith}
use package.text.Mathlib.Text.{◌==◌}
use package.text.Mathlib.TextEquality.{eq_iff}
use bad_pen.Base.{if◌then◌else◌}
use bad_pen.Base.Int.{pos}
use bad_pen.Base.Result.{Result, ok, err, failed, not_found}
use bad_pen.Time.{zero_time}
use bad_pen.Kube.{ObjectMeta, OwnerReference, Ownership, OwnershipLaws, Pod}
use bad_pen.Greeter.{Greeter, Object, greeter_object, text}
use bad_pen.Greeter.Feedback.{ReferenceLaws}
use bad_pen.Greeter.Env.{Call, Env}
use bad_pen.Greeter.Queue.Worker.{gets}
use bad_pen.Lister.{Indexer}
use bad_pen.Lister.Laws.{IsTyped}

abbrev pub meta_named : String → List OwnerReference → ObjectMeta
meta_named name refs = record {
  name = name;
  generate_name = "";
  namespace = "default";
  uid = "7";
  creation_timestamp = zero_time;
  labels = [];
  annotations = [];
  owner_references = refs;
}

abbrev pub greeter_in : String → Greeter
greeter_in phase = record {
  type_meta = record { kind = "Greeter"; api_version = "example.org/v1alpha1" };
  meta = meta_named "hello" [];
  spec = record { schedule = "2024-01-01 10:00:00"; message = "good morning" };
  status = record { phase = phase };
}

abbrev pub pod_in : List OwnerReference → String → Pod
pod_in refs phase = record {
  meta = meta_named "hello-runner" refs;
  spec = record { containers = []; restart_policy = "Never" };
  phase = phase;
  start_time = none;
}

-- The first reference counts, if it is a controller's.
abbrev first_controller : List OwnerReference → Option OwnerReference
first_controller [] = none
first_controller (ref ∷ refs) = elim ref.controller [
  | none ↦ none
  | some b ↦ if b then some ref else none
]

abbrev owns : ObjectMeta → Option OwnerReference → Bool
owns owner none = false
owns owner (some ref) = ref.uid == owner.uid

abbrev pub ref_to : ObjectMeta → String → String → OwnerReference
ref_to owner api_version kind = record {
  api_version = api_version;
  kind = kind;
  name = owner.name;
  uid = owner.uid;
  controller = some true;
}

abbrev pub ownership : Ownership
ownership = record {
  get_controller_of = λ object. first_controller object.owner_references;
  is_controlled_by = λ object owner. owns owner (first_controller object.owner_references);
  new_controller_ref = ref_to;
}

owns_iff :
    (owner : ObjectMeta) (o : Option OwnerReference)
    → (owns owner o ≡ true) ↔ ((ref : OwnerReference) × (o ≡ some ref) × (ref.uid ≡ owner.uid))
owns_iff owner none = (λ e. cc e, λ (r, e, same). cc e)
owns_iff owner (some ref) = (
  λ e. (ref, refl, (eq_iff ref.uid owner.uid).0 e),
  λ (r, e, same). (eq_iff ref.uid owner.uid).1 (cc (e, same)),
)

pub ownership_laws : OwnershipLaws ownership
ownership_laws = record {
  controlled_iff = λ object owner. owns_iff owner (first_controller object.owner_references);
  new_ref_controls = λ object owner api_version kind e.
      ap (λ refs. owns owner (first_controller refs)) e ∙ (eq_iff owner.uid owner.uid).1 refl;
}

pub reference_laws : ReferenceLaws ownership
reference_laws = record {
  ref_kind = λ owner api_version kind. refl;
  ref_name = λ owner api_version kind. refl;
  ref_uid = λ owner api_version kind. refl;
  found_ref = λ object owner api_version kind e. ap first_controller e;
}

-- A cache of one Greeter.
abbrev pub cache : Greeter → Indexer
cache g = record {
  get_by_key = λ key. if key == "default/hello" then ok (some (greeter_object g)) else ok none;
  list_all = λ selector. (greeter_object g ∷ [], none);
  list_all_by_namespace = λ namespace selector. (greeter_object g ∷ [], none);
}

pub cache-IsTyped : (g : Greeter) → IsTyped (cache g)
cache-IsTyped g key object found = (g, ground arith)

abbrev pub ten_oclock : ℕ
ten_oclock = 36000000000000

-- A cluster with that Greeter, whose pod may exist, and a clock; its queue has one item.
abbrev pub cluster : Greeter → Result Pod → ℕ → Env
cluster g pod time = record {
  queue_get = λ h. elim (gets h) [ zero ↦ some (text "default/hello") | suc n ↦ none ];
  greeter_cache = λ h. cache g;
  pod_get = λ h namespace name. pod;
  create_answer = λ h created. ok (record created { phase = "Pending" });
  update_answer = λ h updated. ok updated;
  caches_synced = λ h. true;
  now = λ h. pos time;
  parse_local = λ schedule.
      if schedule == "2024-01-01 10:00:00" then ok (pos ten_oclock) else err (failed "no time");
  key_of = λ object. ok "default/hello";
  split_key = λ key. ok ("default", "hello");
  ownership = ownership;
  go_syntax = λ object. "object";
}

abbrev pub no_pod : Result Pod
no_pod = err (not_found "pods \"hello-runner\" not found")

abbrev pub own_pod : String → Pod
own_pod phase = pod_in (ref_to (meta_named "hello" []) "example.org/v1alpha1" "Greeter" ∷ []) phase
