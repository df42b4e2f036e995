-- ===== src/ApplyConfig.antt =====
-- The builders of apply configurations (greeter/pkg/generated/applyconfiguration): greeter.go,
-- greeterspec.go, greeterstatus.go and utils.go. A builder returns its receiver, which it has
-- changed; here it returns the new value. An optional field or a nil map is an option.
pub mod Laws
mod Tests
use Prim.Native.String.{String}
use mathlib.Core.Bool.{true}
use mathlib.Core.Option.{Option, none, some}
use mathlib.Core.List.{List, [], ◌∷◌, ◌++◌}
use text.Mathlib.Text.{◌==◌}
use bad_pen.Base.{if◌then◌else◌, insert_all}
use bad_pen.Base.Int.{ℤ}
use bad_pen.Base.Result.{Checked, returned, panicked}
use bad_pen.Time.{Instant}
use bad_pen.Kube.{OwnerReference}

-- The fields of client-go's ObjectMetaApplyConfiguration that the builders set.
pub record ObjectMetaApply : Type 0 where
  pub name : Option String
  pub generate_name : Option String
  pub namespace : Option String
  pub uid : Option String
  pub resource_version : Option String
  pub generation : Option ℤ
  pub creation_timestamp : Option Instant
  pub deletion_timestamp : Option Instant
  pub deletion_grace_period_seconds : Option ℤ
  pub labels : Option (List (String × String))
  pub annotations : Option (List (String × String))
  pub owner_references : List OwnerReference
  pub finalizers : List String

pub record GreeterSpecApply : Type 0 where
  pub schedule : Option String
  pub message : Option String

pub record GreeterStatusApply : Type 0 where
  pub phase : Option String

pub record GreeterApply : Type 0 where
  pub kind : Option String
  pub api_version : Option String
  pub meta : Option ObjectMetaApply
  pub spec : Option GreeterSpecApply
  pub status : Option GreeterStatusApply

abbrev pub no_meta : ObjectMetaApply
no_meta = record {
  name = none;
  generate_name = none;
  namespace = none;
  uid = none;
  resource_version = none;
  generation = none;
  creation_timestamp = none;
  deletion_timestamp = none;
  deletion_grace_period_seconds = none;
  labels = none;
  annotations = none;
  owner_references = [];
  finalizers = [];
}

abbrev pub empty : GreeterApply
empty = record { kind = none; api_version = none; meta = none; spec = none; status = none }

-- `ensureObjectMetaApplyConfigurationExists`, and the metadata that there is then.
unfoldable pub ensure_meta : GreeterApply → ObjectMetaApply
ensure_meta b = elim b.meta [ none ↦ no_meta | some meta ↦ meta ]

abbrev set_meta : GreeterApply → ObjectMetaApply → GreeterApply
set_meta b meta = record b { meta = some meta }

unfoldable pub with_kind : String → GreeterApply → GreeterApply
with_kind value b = record b { kind = some value }

unfoldable pub with_api_version : String → GreeterApply → GreeterApply
with_api_version value b = record b { api_version = some value }

unfoldable pub with_name : String → GreeterApply → GreeterApply
with_name value b = set_meta b (record (ensure_meta b) { name = some value })

unfoldable pub with_generate_name : String → GreeterApply → GreeterApply
with_generate_name value b = set_meta b (record (ensure_meta b) { generate_name = some value })

unfoldable pub with_namespace : String → GreeterApply → GreeterApply
with_namespace value b = set_meta b (record (ensure_meta b) { namespace = some value })

unfoldable pub with_uid : String → GreeterApply → GreeterApply
with_uid value b = set_meta b (record (ensure_meta b) { uid = some value })

unfoldable pub with_resource_version : String → GreeterApply → GreeterApply
with_resource_version value b =
    set_meta b (record (ensure_meta b) { resource_version = some value })

unfoldable pub with_generation : ℤ → GreeterApply → GreeterApply
with_generation value b = set_meta b (record (ensure_meta b) { generation = some value })

unfoldable pub with_creation_timestamp : Instant → GreeterApply → GreeterApply
with_creation_timestamp value b =
    set_meta b (record (ensure_meta b) { creation_timestamp = some value })

unfoldable pub with_deletion_timestamp : Instant → GreeterApply → GreeterApply
with_deletion_timestamp value b =
    set_meta b (record (ensure_meta b) { deletion_timestamp = some value })

unfoldable pub with_deletion_grace_period_seconds : ℤ → GreeterApply → GreeterApply
with_deletion_grace_period_seconds value b =
    set_meta b (record (ensure_meta b) { deletion_grace_period_seconds = some value })

-- A nil map is made only if there is an entry to put into it.
unfoldable pub put_entries :
    List (String × String) → Option (List (String × String)) → Option (List (String × String))
put_entries [] none = none
put_entries (entry ∷ entries) none = some (insert_all (entry ∷ entries) [])
put_entries [] (some m) = some m
put_entries (entry ∷ entries) (some m) = some (insert_all (entry ∷ entries) m)

unfoldable pub with_labels : List (String × String) → GreeterApply → GreeterApply
with_labels entries b =
    let meta = ensure_meta b in
    set_meta b (record meta { labels = put_entries entries meta.labels })

unfoldable pub with_annotations : List (String × String) → GreeterApply → GreeterApply
with_annotations entries b =
    let meta = ensure_meta b in
    set_meta b (record meta { annotations = put_entries entries meta.annotations })

-- The loop of `WithOwnerReferences`.
unfoldable pub append_references :
    List (Option OwnerReference) → List OwnerReference → Checked (List OwnerReference)
append_references [] refs = returned refs
append_references (none ∷ values) refs = panicked
append_references (some value ∷ values) refs = append_references values (refs ++ value ∷ [])

unfoldable pub set_references : GreeterApply → Checked (List OwnerReference) → Checked GreeterApply
set_references b (returned refs) =
    returned (set_meta b (record (ensure_meta b) { owner_references = refs }))
set_references b panicked = panicked

unfoldable pub with_owner_references :
    List (Option OwnerReference) → GreeterApply → Checked GreeterApply
unfolding set_references
with_owner_references values b =
    set_references b (append_references values (ObjectMetaApply.owner_references (ensure_meta b)))

-- The loop of `WithFinalizers`.
unfoldable pub append_finalizers : List String → List String → List String
append_finalizers [] finalizers = finalizers
append_finalizers (value ∷ values) finalizers = append_finalizers values (finalizers ++ value ∷ [])

unfoldable pub with_finalizers : List String → GreeterApply → GreeterApply
with_finalizers values b =
    let meta = ensure_meta b in
    set_meta b (record meta { finalizers = append_finalizers values meta.finalizers })

unfoldable pub with_spec : Option GreeterSpecApply → GreeterApply → GreeterApply
with_spec value b = record b { spec = value }

unfoldable pub with_status : Option GreeterStatusApply → GreeterApply → GreeterApply
with_status value b = record b { status = value }

-- `Greeter(name, namespace)`
unfoldable pub greeter : String → String → GreeterApply
unfolding with_name with_namespace with_kind with_api_version
greeter name namespace =
    with_api_version "example.org/v1alpha1"
      (with_kind "Greeter" (with_namespace namespace (with_name name empty)))

unfoldable pub greeter_spec : GreeterSpecApply
greeter_spec = record { schedule = none; message = none }

unfoldable pub with_schedule : String → GreeterSpecApply → GreeterSpecApply
with_schedule value b = record b { schedule = some value }

unfoldable pub with_message : String → GreeterSpecApply → GreeterSpecApply
with_message value b = record b { message = some value }

unfoldable pub greeter_status : GreeterStatusApply
greeter_status = record { phase = none }

unfoldable pub with_phase : String → GreeterStatusApply → GreeterStatusApply
with_phase value b = record b { phase = some value }

-- What `ForKind` returns.
pub data Configuration : Type 0 where
  greeter_configuration : GreeterApply → Configuration
  spec_configuration : GreeterSpecApply → Configuration
  status_configuration : GreeterStatusApply → Configuration

pub record GroupVersionKind : Type 0 where
  pub group : String
  pub version : String
  pub kind : String

of_kind : String → Option Configuration
of_kind kind =
    if kind == "Greeter"
    then some (greeter_configuration empty)
    else if kind == "GreeterSpec"
    then some (spec_configuration (record { schedule = none; message = none }))
    else if kind == "GreeterStatus"
    then some (status_configuration (record { phase = none }))
    else none

unfoldable pub for_kind : GroupVersionKind → Option Configuration
unfolding of_kind
for_kind k =
    if k.group == "example.org"
    then (if k.version == "v1alpha1" then of_kind k.kind else none)
    else none
