-- ===== src/Programs/GreeterProgram/Tests.antt =====
-- The order of `main`, for a program whose handlers of pods cannot be added
-- (greeter/main.go).
use mathlib.Core.Option.{Option, none, some}
use mathlib.Core.List.{[]}
use bad_pen.Base.Int.{pos}
use bad_pen.Base.Result.{Error, failed, ok}
use bad_pen.Time.{Duration}
use bad_pen.Greeter.{Greeter}
use bad_pen.Lister.{Indexer}
use bad_pen.Client.Rest.{Server}
use bad_pen.Factory.Greeters.{Cache}
use bad_pen.Programs.GreeterProgram.{Call, add_pod_handlers, Env, main}
use bad_pen.Programs.Attempts.{InOrder, Runs}
use bad_pen.Programs.GreeterProgram.Startup.{plan, main-Runs}
use bad_pen.Programs.GreeterProgram.Ends.{ended_by}

abbrev no_greeter : Greeter
no_greeter = record {
  type_meta = record { kind = "Greeter"; api_version = "example.org/v1alpha1" };
  meta = record {
    name = "";
    generate_name = "";
    namespace = "";
    uid = "";
    creation_timestamp = pos 0;
    labels = [];
    annotations = [];
    owner_references = [];
  };
  spec = record { schedule = ""; message = "" };
  status = record { phase = "" };
}

abbrev server : Server Unit
server = record {
  into_greeter = λ r. (no_greeter, none);
  into_list = λ r. (record { resource_version = ""; items = [] }, none);
  watching = λ r. (tt, none);
  error = λ r. none;
}

abbrev empty : Indexer
empty = record {
  get_by_key = λ key. ok none;
  list_all = λ selector. ([], none);
  list_all_by_namespace = λ namespace selector. ([], none);
}

-- An informer is its resync period here.
abbrev cache : Cache Unit Duration
cache = record {
  new_shared_index_informer = λ list_watch resync_period indexers. resync_period;
  get_indexer = λ i. empty;
}

abbrev error_of : Call Duration → Option Error
error_of add_pod_handlers = some (failed "stopped")
error_of c = none

abbrev env : Env Unit Duration
env = record { error_of = λ h c. error_of c; cache = cache; client = server }

main-Runs_example :
    Runs (ended_by env) (plan env) [] (main env []) × InOrder (plan env) [] (main env [])
main-Runs_example = main-Runs env []
