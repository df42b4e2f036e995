-- ===== src/Kube.antt =====
-- The Kubernetes objects that both controllers handle, with the fields that the program names,
-- and the library functions on owner references that it calls (apimachinery's meta/v1).
use Prim.Native.String
use Prim.Native.String.{String}
use mathlib.Core.Path.{◌≡◌}
use mathlib.Core.Logic.{◌↔◌}
use mathlib.Core.Bool.{Bool, true}
use mathlib.Core.Option.{Option, some}
use mathlib.Core.List.{List, [], ◌∷◌}
use bad_pen.Base.Result.{Error, not_found}
use bad_pen.Time.{Instant}

pub record TypeMeta : Type 0 where
  pub kind : String
  pub api_version : String

pub record OwnerReference : Type 0 where
  pub api_version : String
  pub kind : String
  pub name : String
  pub uid : String
  pub controller : Option Bool

pub record ObjectMeta : Type 0 where
  pub name : String
  pub generate_name : String
  pub namespace : String
  pub uid : String
  pub creation_timestamp : Instant
  pub labels : List (String × String)
  pub annotations : List (String × String)
  pub owner_references : List OwnerReference

pub record Container : Type 0 where
  pub image : String
  pub name : String
  pub command : List String
  pub args : List String

pub record PodSpec : Type 0 where
  pub containers : List Container
  pub restart_policy : String

pub record Pod : Type 0 where
  pub meta : ObjectMeta
  pub spec : PodSpec
  pub phase : String  -- Status.Phase
  pub start_time : Option Instant  -- Status.StartTime

-- corev1's phases of a pod
abbrev pub pod_succeeded : String
pod_succeeded = "Succeeded"

abbrev pub pod_failed : String
pod_failed = "Failed"

-- `metav1.GetControllerOf`, `metav1.IsControlledBy` and `metav1.NewControllerRef`.
pub record Ownership : Type 0 where
  pub get_controller_of : ObjectMeta → Option OwnerReference
  pub is_controlled_by : ObjectMeta → ObjectMeta → Bool
  pub new_controller_ref : ObjectMeta → String → String → OwnerReference

-- What the library documents of them.
pub record OwnershipLaws (o : Ownership) : Type 0 where
  -- An object is controlled by an owner exactly if its controller reference has the owner's UID.
  pub controlled_iff :
      (object owner : ObjectMeta)
      → (Ownership.is_controlled_by o object owner ≡ true) ↔ (
          (ref : OwnerReference) × (Ownership.get_controller_of o object ≡ some ref)
          × (ref.uid ≡ owner.uid))
  -- A single controller reference is the object's controller.
  pub new_ref_controls :
      (object owner : ObjectMeta) (api_version kind : String)
      → object.owner_references ≡ Ownership.new_controller_ref o owner api_version kind ∷ []
      → Ownership.is_controlled_by o object owner ≡ true

-- `errors.NewNotFound(resource, name)`
abbrev pub new_not_found : String → String → Error
new_not_found resource name =
    not_found (String.◌++◌ resource (String.◌++◌ " \"" (String.◌++◌ name "\" not found")))

-- `fmt`'s verb %q, for a name with no character that is escaped.
abbrev pub quoted : String → String
quoted s = String.◌++◌ "\"" (String.◌++◌ s "\"")
