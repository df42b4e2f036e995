-- ===== src/Base/Result.antt =====
-- Errors as the program tells them apart: the API server's NotFound, and any other, each with its
-- message; and results of calls.
use Prim.Native.String.{String}
use mathlib.Core.Path.{◌≡◌, refl}
use mathlib.Core.Logic.{◌⊎◌, inl, inr}
use mathlib.Core.Bool.{Bool, true, false}
use mathlib.Core.Option.{Option, none, some}

pub data Error : Type 0 where
  not_found failed : String → Error

-- `err.Error()`
abbrev pub message : Error → String
message (not_found s) = s
message (failed s) = s

-- `errors.IsNotFound(err)`
abbrev pub is_not_found : Error → Bool
is_not_found (not_found s) = true
is_not_found (failed s) = false

-- `client.IgnoreNotFound(err)`
abbrev pub ignore_not_found : Option Error → Option Error
ignore_not_found none = none
ignore_not_found (some (not_found s)) = none
ignore_not_found (some (failed s)) = some (failed s)

pub data Result (A : Type 0) : Type 0 where
  ok : A → Result A
  err : Error → Result A

pub Result-cases :
    {A : Type 0} (r : Result A) → ((a : A) × (r ≡ ok a)) ⊎ ((e : Error) × (r ≡ err e))
Result-cases (ok a) = inl (a, refl)
Result-cases (err e) = inr (e, refl)

-- What a function that may panic has returned.
pub data Checked (A : Type 0) : Type 0 where
  returned : A → Checked A
  panicked : Checked A

pub Checked-cases : {A : Type 0} (r : Checked A) → ((a : A) × (r ≡ returned a)) ⊎ (r ≡ panicked)
Checked-cases (returned a) = inl (a, refl)
Checked-cases panicked = inr refl
