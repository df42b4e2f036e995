-- ===== src/Sample/Tests.antt =====
-- A small cluster for the theorems on the resources of sample-controller.
mod Clients
use Prim.Native.String.{String}
use mathlib.Core.Path.{◌≡◌, refl}
use mathlib.Core.Bool.{true}
use mathlib.Core.Option.{Option, none, some}
use mathlib.Core.List.{List, [], ◌∷◌}
use text.Mathlib.Text.{◌==◌}
use bad_pen.Base.{if◌then◌else◌}
use bad_pen.Base.Int.{pos}
use bad_pen.Base.Result.{Error, failed, ok}
use bad_pen.Time.{zero_time}
use bad_pen.Client.{ApplyOptions}
use bad_pen.Sample.{
  Version, v1alpha2, Scope, namespaced, Resource, ResourceList, kind_name, group_version,
}
use bad_pen.Sample.Typed.{Encoding, Server}
use bad_pen.Sample.Requests.{namespaces, Agrees}
use bad_pen.Sample.V2.Namespaced.{NamespacedResource}

abbrev disk_of : (v : Version) (s : Scope) → Resource v s
disk_of v s = record {
  type_meta = record { kind = kind_name s; api_version = group_version v };
  meta = record {
    name = "disk";
    generate_name = "";
    namespace = "team";
    uid = "3";
    creation_timestamp = zero_time;
    labels = [];
    annotations = [];
    owner_references = [];
  };
  spec = record { name = "disk"; replicas = pos 2 };
  status = record { available_replicas = pos 0 };
}

abbrev disk : NamespacedResource
disk = disk_of v1alpha2 namespaced

abbrev disks_of : (v : Version) (s : Scope) → ResourceList v s
disks_of v s = record {
  type_meta = record { kind = "List"; api_version = group_version v };
  resource_version = "1";
  items = disk_of v s ∷ [];
}

abbrev encoding : Encoding v1alpha2 namespaced
encoding = record {
  marshal = λ b. ok "{}";
  to_patch_options = λ opts. record {
    dry_run = opts.dry_run;
    force = some opts.force;
    field_manager = opts.field_manager;
  };
}

abbrev opts : ApplyOptions
opts = record { dry_run = []; force = true; field_manager = "tests" }

abbrev server_of : (v : Version) (s : Scope) → Server Unit v s
server_of v s = record {
  into_resource = λ r. (disk_of v s, none);
  into_list = λ r. (disks_of v s, none);
  watching = λ r. (tt, none);
  error = λ r. none;
}

abbrev only_team : List String → Option Error
only_team [] = some (failed "forbidden")
only_team (ns ∷ []) = if ns == "team" then none else some (failed "forbidden")
only_team (ns ∷ other ∷ more) = some (failed "forbidden")

-- A server that refuses what is not for the namespace "team".
abbrev strict_of : (v : Version) (s : Scope) → Server Unit v s
strict_of v s = record {
  into_resource = λ r. (disk_of v s, only_team (namespaces r));
  into_list = λ r. (disks_of v s, only_team (namespaces r));
  watching = λ r. (tt, only_team (namespaces r));
  error = λ r. only_team (namespaces r);
}

abbrev server : Server Unit v1alpha2 namespaced
server = server_of v1alpha2 namespaced

abbrev strict : Server Unit v1alpha2 namespaced
strict = strict_of v1alpha2 namespaced

strict-Agrees : Agrees "team" server strict
strict-Agrees = record {
  on_resource = λ r within. rw within.0 refl;
  on_list = λ r within. rw within.0 refl;
  on_watch = λ r within. rw within.0 refl;
  on_error = λ r within. rw within.0 refl;
}
