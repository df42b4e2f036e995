-- ===== src/Client/Tests.antt =====
-- The theorems on the clients, for a server and a tracker on one small store.
use Prim.Native.String.{String}
use mathlib.Core.Path.{◌≡◌, refl, ap}
use mathlib.Core.Bool.{Bool, true, false}
use mathlib.Core.Option.{Option, none, some}
use mathlib.Core.List.{List, [], ◌∷◌}
use text.Mathlib.Text.{◌==◌}
use bad_pen.Base.{if◌then◌else◌}
use bad_pen.Base.Result.{Error, Result, not_found, ok, err}
use bad_pen.Greeter.{Greeter}
use bad_pen.Time.{zero_time}
use bad_pen.Client.{Operation, ListOptions, ApplyOptions, GreeterList, Encoding}
use bad_pen.Client.Rest.{Server, Greeters}
use bad_pen.Client.Fake.{Tracker, FakeGreeters, Action, Answer, a_greeter, a_list, Default}
use bad_pen.Client.Agreement.{
  Target, request_target, action_target, client_run, fake_run, nil_on_error, fake_run-client_run,
}
use bad_pen.Base.Int.{pos}
use bad_pen.Client.Clientset.{
  Config, ClientGo, set_config_defaults, limit_rate, group_client_for_config_and_client,
  new_for_config_and_client,
}

abbrev hello_in : List (String × String) → Greeter
hello_in labels = record {
  type_meta = record { kind = "Greeter"; api_version = "example.org/v1alpha1" };
  meta = record {
    name = "hello";
    generate_name = "";
    namespace = "default";
    uid = "7";
    creation_timestamp = zero_time;
    labels = labels;
    annotations = [];
    owner_references = [];
  };
  spec = record { schedule = ""; message = "" };
  status = record { phase = "" };
}

-- A store that knows one Greeter.
abbrev store : Target → Result Greeter
store t = if t.name == "hello" then ok (hello_in []) else err (not_found "none")

-- What the server leaves in the result of a request that fails.
abbrev partly_read : Result Greeter → Greeter × Option Error
partly_read (ok g) = (g, none)
partly_read (err e) = (hello_in (("partly", "read") ∷ []), some e)

abbrev tracked : Result Greeter → Option Answer × Option Error
tracked (ok g) = (some (a_greeter g), none)
tracked (err e) = (none, some e)

abbrev both : GreeterList
both = record { resource_version = "1"; items = hello_in (("app", "a") ∷ []) ∷ hello_in [] ∷ [] }

abbrev server : Server Unit
server = record {
  into_greeter = λ r. partly_read (store (request_target r));
  into_list = λ r. (both, none);
  watching = λ r. (tt, none);
  error = λ r. none;
}

abbrev answer : Action → Default → Option Answer × Option Error
answer a Default.empty_greeter = tracked (store (action_target a))
answer a Default.empty_list = (some (a_list both), none)

abbrev is_labelled : List (String × String) → Bool
is_labelled labels = elim labels [ [] ↦ false | l ∷ ls ↦ true ]

abbrev tracker : Tracker Unit
tracker = record {
  invokes = answer;
  invokes_watch = λ a. (tt, none);
  extract_label = λ opts. some is_labelled;
}

abbrev client : Greeters Unit
client = record { client = server; ns = "default" }

abbrev fake : FakeGreeters Unit
fake = record { fake = tracker; ns = "default" }

abbrev encoding : Encoding
encoding = record {
  marshal = λ b. ok "{}";
  to_patch_options = λ opts. record {
    dry_run = opts.dry_run;
    force = some opts.force;
    field_manager = opts.field_manager;
  };
}

abbrev opts : ApplyOptions
opts = record { dry_run = []; force = true; field_manager = "tests" }

-- Both clients fail to read a Greeter that is not there.
fake_run-client_run_example :
    fake_run encoding fake (Operation.get "other" (record { resource_version = "" }))
    ≡ nil_on_error
        (client_run encoding client (Operation.get "other" (record { resource_version = "" })))
fake_run-client_run_example =
    fake_run-client_run encoding store client fake
      (record {
        server_succeeds = λ r g found. ap partly_read found;
        server_fails = λ r e failed. ap (λ x. (partly_read x).1) failed;
        tracker_succeeds = λ a g found. ap tracked found;
        tracker_fails = λ a e failed. ap tracked failed;
      })
      refl (Operation.get "other" (record { resource_version = "" }))

abbrev list_options : ListOptions
list_options = record {
  label_selector = "app";
  field_selector = "";
  watch = false;
  resource_version = "";
  timeout_seconds = none;
}

-- client-go with names for its clients.
abbrev go : ClientGo String Bool String String String
go = record {
  default_user_agent = "bad-pen";
  is_positive = λ qps. qps;
  new_token_bucket = λ qps burst. "bucket";
  http_client_for = λ c. ok "http";
  rest_client_for = λ c h. ok c.api_path;
  new_discovery_for = λ c h. ok c.user_agent;
  new_discovery = λ c. c;
}

abbrev config : Config String Bool
config = record {
  user_agent = "tests";
  rate_limiter = none;
  qps = true;
  burst = pos 10;
  group_version = "";
  api_path = "";
}

made :
    new_for_config_and_client go config "http"
    ≡ ok (record { discovery = "tests"; greeter_v1alpha1 = "/apis" })
unfolding new_for_config_and_client limit_rate group_client_for_config_and_client
    set_config_defaults
made = refl
