-- ===== src/Greeter.antt =====
-- The Greeter API type and its phases (greeter/pkg/apis/greeter/v1alpha1/types_greeter.go, types.go
-- and zz_generated.deepcopy.go), and what a cache or a queue of the controller holds.
pub mod Copies
pub mod Env
pub mod Sync
pub mod Queue
pub mod Feedback
pub mod Lifecycle
mod Tests
use Prim.Native.String.{String}
use mathlib.Core.Path.{◌≡◌, refl}
use mathlib.Core.Logic.{◌↔◌}
use mathlib.Core.Bool.{Bool, true, decide, decide_iff}
use native.Mathlib.Decide.{ℕ_discrete}
use bad_pen.Base.{String-discrete}
use bad_pen.Kube.{TypeMeta, ObjectMeta, Pod}

pub record GreeterSpec : Type 0 where
  pub schedule : String
  pub message : String

pub record GreeterStatus : Type 0 where
  pub phase : String

pub record Greeter : Type 0 where
  pub type_meta : TypeMeta
  pub meta : ObjectMeta
  pub spec : GreeterSpec
  pub status : GreeterStatus

abbrev pub phase_pending : String
phase_pending = "Pending"

abbrev pub phase_running : String
phase_running = "Running"

abbrev pub phase_succeeded : String
phase_succeeded = "Succeeded"

abbrev pub phase_failed : String
phase_failed = "Failed"

-- `DeepCopy`: a value has no address, so that the copy of each part is the part.
unfoldable pub deep_copy : Greeter → Greeter
deep_copy greeter = record {
  type_meta = greeter.type_meta;
  meta = greeter.meta;
  spec = greeter.spec;
  status = greeter.status;
}

abbrev pub set_phase : String → Greeter → Greeter
set_phase phase greeter = record greeter { status = record { phase = phase } }

unfoldable pub Greeter-discrete : Discrete Greeter
unfolding String-discrete ℕ_discrete
Greeter-discrete = hlevel (ℕ_discrete, String-discrete)

-- `reflect.DeepEqual` on two Greeters.
unfoldable pub deep_equal : Greeter → Greeter → Bool
unfolding Greeter-discrete decide
deep_equal a b = decide (Greeter-discrete a b)

pub deep_equal_iff : (a b : Greeter) → (deep_equal a b ≡ true) ↔ (a ≡ b)
unfolding deep_equal
deep_equal_iff a b = decide_iff (Greeter-discrete a b)

-- A Go value of type `any`.
pub data Object : Type 0 where
  greeter_object : Greeter → Object
  pod_object : Pod → Object
  tombstone : Object → Object  -- cache.DeletedFinalStateUnknown, with its field Obj
  text : String → Object
  other_object : Object
