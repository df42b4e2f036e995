-- ===== src/Sample/Apply/Built.antt =====
-- Configurations that are built with the builders (sample-controller/pkg/applyconfiguration/sample),
-- and what the typed client applies.
use Prim.Native.String.{String}
use mathlib.Core.Path.{◌≡◌, refl, ap}
use mathlib.Core.Option.{Option, none, some}
use mathlib.Core.List.{List}
use native.Mathlib.Omega.{arith}
use bad_pen.Base.Int.{ℤ}
use bad_pen.Base.Result.{Result, ok, err, Checked, returned}
use bad_pen.Time.{Instant}
use bad_pen.Kube.{OwnerReference}
use bad_pen.ApplyConfig.{ObjectMetaApply}
use bad_pen.Client.{ApplyOptions}
use bad_pen.Client.Rest.{Pointed, filled}
use bad_pen.Sample.{Version, Scope, namespaced, cluster_wide, Resource, Within}
use bad_pen.Sample.Apply.{
  SpecApply, StatusApply, ResourceApply, ensure_meta, with_kind, with_api_version, with_name,
  with_generate_name, with_namespace, with_uid, with_resource_version, with_generation,
  with_creation_timestamp, with_deletion_timestamp, with_deletion_grace_period_seconds, with_labels,
  with_annotations, with_owner_references, set_references, with_finalizers, with_spec, with_status,
  with_place, configuration,
}
use bad_pen.Sample.Typed.{
  Encoding, Resources, applied_name, named, marshalled, to_apply, sent, apply_request,
  apply_resource,
}

-- How a configuration is built: by the constructor, and then by any of the builders; with the name
-- that was given last.
pub data Built {v : Version} {s : Scope} : String → ResourceApply v s → Type 0 where
  constructed : (n : String) (place : Within s) → Built n (configuration n place)
  kinded :
      {n : String} {b : ResourceApply v s} (value : String)
      → Built n b
      → Built n (with_kind value b)
  versioned :
      {n : String} {b : ResourceApply v s} (value : String)
      → Built n b
      → Built n (with_api_version value b)
  renamed :
      {n : String} {b : ResourceApply v s} (value : String)
      → Built n b
      → Built value (with_name value b)
  generated :
      {n : String} {b : ResourceApply v s} (value : String)
      → Built n b
      → Built n (with_generate_name value b)
  placed :
      {n : String} {b : ResourceApply v s} (value : String)
      → Built n b
      → Built n (with_namespace value b)
  identified :
      {n : String} {b : ResourceApply v s} (value : String) → Built n b → Built n (with_uid value b)
  resource_versioned :
      {n : String} {b : ResourceApply v s} (value : String)
      → Built n b
      → Built n (with_resource_version value b)
  counted :
      {n : String} {b : ResourceApply v s} (value : ℤ)
      → Built n b
      → Built n (with_generation value b)
  created :
      {n : String} {b : ResourceApply v s} (value : Instant)
      → Built n b
      → Built n (with_creation_timestamp value b)
  deleted :
      {n : String} {b : ResourceApply v s} (value : Instant)
      → Built n b
      → Built n (with_deletion_timestamp value b)
  given_grace :
      {n : String} {b : ResourceApply v s} (value : ℤ)
      → Built n b
      → Built n (with_deletion_grace_period_seconds value b)
  labelled :
      {n : String} {b : ResourceApply v s} (entries : List (String × String))
      → Built n b
      → Built n (with_labels entries b)
  annotated :
      {n : String} {b : ResourceApply v s} (entries : List (String × String))
      → Built n b
      → Built n (with_annotations entries b)
  owned :
      {n : String} {b : ResourceApply v s} (values : List (Option OwnerReference))
      (b' : ResourceApply v s)
      → with_owner_references values b ≡ returned b'
      → Built n b
      → Built n b'
  finalized :
      {n : String} {b : ResourceApply v s} (values : List String)
      → Built n b
      → Built n (with_finalizers values b)
  specified :
      {n : String} {b : ResourceApply v s} (value : Option (SpecApply v s))
      → Built n b
      → Built n (with_spec value b)
  reported :
      {n : String} {b : ResourceApply v s} (value : Option (StatusApply v s))
      → Built n b
      → Built n (with_status value b)

module _ {v : Version} {s : Scope} where
  -- The name can be read, and is this one.
  abbrev IsNamed : String → ResourceApply v s → Type 0
  IsNamed n b = applied_name b ≡ returned (some n)

  IsNamed-ensure_meta :
      (n : String) (b : ResourceApply v s)
      → IsNamed n b
      → ObjectMetaApply.name (ensure_meta b) ≡ some n
  unfolding applied_name ensure_meta
  IsNamed-ensure_meta n b h = ground arith

  set_references-IsNamed :
      (n : String) (b b' : ResourceApply v s) (refs : Checked (List OwnerReference))
      → IsNamed n b
      → set_references b refs ≡ returned b'
      → IsNamed n b'
  unfolding set_references applied_name
  set_references-IsNamed n b b' refs h e = ground (arith, IsNamed-ensure_meta n b h)

-- The constructor's `WithNamespace` keeps the name.
with_place-IsNamed :
    {v : Version} (s : Scope) (n : String) (b : ResourceApply v s) (place : Within s)
    → IsNamed n b
    → IsNamed n (with_place s place b)
unfolding with_place with_namespace applied_name
with_place-IsNamed namespaced n b place h = ground (arith, IsNamed-ensure_meta n b h)
with_place-IsNamed cluster_wide n b place h = h

module _ {v : Version} {s : Scope} where
  Built-IsNamed : {n : String} {b : ResourceApply v s} → Built n b → IsNamed n b
  unfolding applied_name configuration with_kind with_api_version with_name with_generate_name
      with_namespace with_uid with_resource_version with_generation with_creation_timestamp
      with_deletion_timestamp with_deletion_grace_period_seconds with_labels with_annotations
      with_owner_references with_finalizers with_spec with_status
  Built-IsNamed (constructed n place) = with_place-IsNamed s n _ place refl
  Built-IsNamed (kinded value h) = Built-IsNamed h
  Built-IsNamed (versioned value h) = Built-IsNamed h
  Built-IsNamed (renamed value h) = refl
  Built-IsNamed (generated {n} {b} value h) =
      ap returned (IsNamed-ensure_meta n b (Built-IsNamed h))
  Built-IsNamed (placed {n} {b} value h) = ap returned (IsNamed-ensure_meta n b (Built-IsNamed h))
  Built-IsNamed (identified {n} {b} value h) =
      ap returned (IsNamed-ensure_meta n b (Built-IsNamed h))
  Built-IsNamed (resource_versioned {n} {b} value h) =
      ap returned (IsNamed-ensure_meta n b (Built-IsNamed h))
  Built-IsNamed (counted {n} {b} value h) = ap returned (IsNamed-ensure_meta n b (Built-IsNamed h))
  Built-IsNamed (created {n} {b} value h) = ap returned (IsNamed-ensure_meta n b (Built-IsNamed h))
  Built-IsNamed (deleted {n} {b} value h) = ap returned (IsNamed-ensure_meta n b (Built-IsNamed h))
  Built-IsNamed (given_grace {n} {b} value h) =
      ap returned (IsNamed-ensure_meta n b (Built-IsNamed h))
  Built-IsNamed (labelled {n} {b} entries h) =
      ap returned (IsNamed-ensure_meta n b (Built-IsNamed h))
  Built-IsNamed (annotated {n} {b} entries h) =
      ap returned (IsNamed-ensure_meta n b (Built-IsNamed h))
  Built-IsNamed (owned {n} {b} values b' e h) = set_references-IsNamed n b b' _ (Built-IsNamed h) e
  Built-IsNamed (finalized {n} {b} values h) =
      ap returned (IsNamed-ensure_meta n b (Built-IsNamed h))
  Built-IsNamed (specified value h) = Built-IsNamed h
  Built-IsNamed (reported value h) = Built-IsNamed h

  -- What `Apply` returns, by what `json.Marshal` makes of the configuration.
  abbrev pub applied_as :
      {Watch : Type 0}
      → Encoding v s
      → Resources Watch v s
      → ApplyOptions
      → String
      → Result String
      → Checked (Pointed (Resource v s))
  applied_as encoding c opts n (err e) = returned (none, some e)
  applied_as encoding c opts n (ok content) =
      returned (filled (c.client.into_resource (apply_request encoding c opts (n, content))))

  marshalled-applied_as :
      {Watch : Type 0} (encoding : Encoding v s) (c : Resources Watch v s) (opts : ApplyOptions)
      (n : String) (b : ResourceApply v s) (data' : Result String)
      → IsNamed n b
      → sent encoding c (apply_request encoding c opts) (marshalled b data')
        ≡ applied_as encoding c opts n data'
  unfolding sent marshalled
  marshalled-applied_as encoding c opts n b (err e) h = refl
  marshalled-applied_as encoding c opts n b (ok content) h =
      ap (λ x. sent encoding c (apply_request encoding c opts) (named s content x)) h

  -- A configuration that was built by the constructor and any of the builders, in any order, is
  -- applied without a panic and under the name that was set last: the answer is the error of
  -- encoding it, or what the server answers to the patch of the resource of that name with the
  -- encoded configuration.
  pub Built-apply_resource :
      {Watch : Type 0} (encoding : Encoding v s) (c : Resources Watch v s) (opts : ApplyOptions)
      {n : String} {b : ResourceApply v s}
      → Built n b
      → apply_resource encoding c (some b) opts ≡ applied_as encoding c opts n (encoding.marshal b)
  unfolding apply_resource to_apply
  Built-apply_resource encoding c opts {n} {b} h =
      marshalled-applied_as encoding c opts n b (encoding.marshal b) (Built-IsNamed h)
