-- ===== src/Client.antt =====
-- The typed client of Greeters (greeter/pkg/generated/clientset/versioned/typed/greeter/v1alpha1/
-- greeter.go): the requests that its methods build, and what they return. client-go, which sends a
-- request, and encoding/json are parameters.
pub mod Rest
pub mod Fake
pub mod Agreement
pub mod Results
pub mod Clientset
pub mod Accessors
pub mod Simple
mod Tests
use Prim.Native.String.{String}
use mathlib.Core.Bool.{Bool}
use mathlib.Core.Option.{Option}
use mathlib.Core.List.{List}
use bad_pen.Base.Int.{ℤ}
use bad_pen.Base.Result.{Error, Result}
use bad_pen.Greeter.{Greeter}
use bad_pen.ApplyConfig.{GreeterApply}

-- The options of apimachinery's meta/v1, with the fields that bear on a request.
pub record GetOptions : Type 0 where
  pub resource_version : String

pub record ListOptions : Type 0 where
  pub label_selector : String
  pub field_selector : String
  pub watch : Bool
  pub resource_version : String
  pub timeout_seconds : Option ℤ

pub record CreateOptions : Type 0 where
  pub dry_run : List String
  pub field_manager : String

pub record UpdateOptions : Type 0 where
  pub dry_run : List String
  pub field_manager : String

pub record DeleteOptions : Type 0 where
  pub dry_run : List String
  pub grace_period_seconds : Option ℤ

pub record PatchOptions : Type 0 where
  pub dry_run : List String
  pub force : Option Bool
  pub field_manager : String

pub record ApplyOptions : Type 0 where
  pub dry_run : List String
  pub force : Bool
  pub field_manager : String

-- The operations of GreeterInterface that answer with a Greeter, with their arguments. The
-- configuration that is applied may be a nil pointer.
pub data Operation : Type 0 where
  get : String → GetOptions → Operation
  create : Greeter → CreateOptions → Operation
  update : Greeter → UpdateOptions → Operation
  update_status : Greeter → UpdateOptions → Operation
  patch : String → String → String → PatchOptions → List String → Operation
  apply : Option GreeterApply → ApplyOptions → Operation
  apply_status : Option GreeterApply → ApplyOptions → Operation

-- `GreeterList`, with the one field of its metadata that is copied as a whole.
pub record GreeterList : Type 0 where
  pub resource_version : String
  pub items : List Greeter

-- What both clients need of the libraries.
pub record Encoding : Type 0 where
  -- `json.Marshal` on a configuration
  pub marshal : GreeterApply → Result String
  -- `opts.ToPatchOptions()`
  pub to_patch_options : ApplyOptions → PatchOptions

-- types.ApplyPatchType
abbrev pub apply_patch_type : String
apply_patch_type = "application/apply-patch+yaml"

abbrev pub apply_nil : Error
apply_nil = bad_pen.Base.Result.failed "greeter provided to Apply must not be nil"

abbrev pub apply_nameless : Error
apply_nameless = bad_pen.Base.Result.failed "greeter.Name must be provided to Apply"
