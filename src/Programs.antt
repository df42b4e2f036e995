-- ===== src/Programs.antt =====
-- The main functions of the programs (greeter/main.go with NewController, and
-- sample-controller/cmd/sample_controller/main.go). A flag, a signal handler and a log line are left
-- out; what the libraries answer is the environment's.
mod Attempts
pub mod CircleProgram
pub mod GreeterProgram
pub mod SampleProgram
pub mod Machinery
pub mod PodPrograms
use Prim.Native.Nat.{ℕ}
use mathlib.Core.Option.{Option, none, some}
use bad_pen.Base.Exec
use bad_pen.Base.Exec.{pure, exit, panic}
use bad_pen.Base.Result.{Error}

-- A program that makes calls, and may end with a status.
abbrev pub Run : Type 0 → Type 0 → Type 0
Run E A = Exec.Exec E ℕ A

-- `if err != nil { ... os.Exit(1) }`, which is also what klog.FlushAndExit does.
unfoldable pub exit_on_error : {E : Type 0} → Option Error → Run E (Unit {0})
exit_on_error none = pure tt
exit_on_error (some e) = exit 1

-- `utilruntime.Must`
unfoldable pub must : {E : Type 0} → Option Error → Run E (Unit {0})
must none = pure tt
must (some e) = panic
