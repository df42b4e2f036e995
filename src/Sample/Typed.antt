-- ===== src/Sample/Typed.antt =====
-- The typed clients of the resources (sample-controller/pkg/clientset/versioned/typed/sample:
-- clusterresource.go and namespacedresource.go of both versions). A request is the calls of its
-- builder, in the order in which they are made; only a namespaced client calls `Namespace`.
use Prim.Native.String.{String}
use mathlib.Core.Bool.{true}
use mathlib.Core.Option.{Option, none, some}
use mathlib.Core.List.{List, [], ◌∷◌}
use bad_pen.Base.Result.{Error, failed, Result, ok, err, Checked, returned, panicked}
use bad_pen.Time.{Duration}
use bad_pen.ApplyConfig.{ObjectMetaApply}
use bad_pen.Client.{
  GetOptions, ListOptions, CreateOptions, UpdateOptions, DeleteOptions, PatchOptions, ApplyOptions,
  apply_patch_type,
}
use bad_pen.Client.Rest.{
  Params, get_params, list_params, create_params, update_params, patch_params, Verb, get, post, put,
  delete, patch, timeout_of, Pointed, filled,
}
use bad_pen.Sample.{Version, Scope, namespaced, cluster_wide, Resource, ResourceList, Within}
use bad_pen.Sample.Apply.{ResourceApply}

pub data Body (v : Version) (s : Scope) : Type 0 where
  resource_body : Resource v s → Body v s
  delete_body : DeleteOptions → Body v s
  data_body : String → Body v s

pub data Step (v : Version) (s : Scope) : Type 0 where
  verb : Verb → Step v s
  namespace resource name : String → Step v s
  sub_resource : List String → Step v s
  versioned_params : Params → Step v s
  timeout : Duration → Step v s
  body : Body v s → Step v s

abbrev pub Request : Version → Scope → Type 0
Request v s = List (Step v s)

-- rest.Interface: how a request ends.
pub record Server (Watch : Type 0) (v : Version) (s : Scope) : Type 0 where
  pub into_resource : Request v s → Resource v s × Option Error
  pub into_list : Request v s → ResourceList v s × Option Error
  pub watching : Request v s → Watch × Option Error
  pub error : Request v s → Option Error

-- What the clients need of the libraries: `json.Marshal` and `opts.ToPatchOptions()`.
pub record Encoding (v : Version) (s : Scope) : Type 0 where
  pub marshal : ResourceApply v s → Result String
  pub to_patch_options : ApplyOptions → PatchOptions

-- `clusterResources` and `namespacedResources`
pub record Resources (Watch : Type 0) (v : Version) (s : Scope) : Type 0 where
  pub client : Server Watch v s
  pub place : Within s

unfoldable pub new_resources :
    {Watch : Type 0} {v : Version} {s : Scope} → Server Watch v s → Within s → Resources Watch v s
new_resources client place = record { client = client; place = place }

-- How a request begins: its verb, the namespace if there is one, and the resource.
unfoldable pub addressed : {v : Version} (s : Scope) → Verb → Within s → Request v s → Request v s
addressed namespaced how ns steps = verb how ∷ namespace ns ∷ resource "namespacedresources" ∷ steps
addressed cluster_wide how place steps = verb how ∷ resource "clusterresources" ∷ steps

module _ {Watch : Type 0} {v : Version} {s : Scope} (c : Resources Watch v s) where
  unfoldable pub get_request : String → GetOptions → Request v s
  unfolding addressed
  get_request n options =
      addressed s get c.place (name n ∷ versioned_params (get_params options) ∷ [])

  -- `Get`
  unfoldable pub get_resource : String → GetOptions → Pointed (Resource v s)
  unfolding get_request filled
  get_resource n options = filled (c.client.into_resource (get_request n options))

  unfoldable pub list_request : ListOptions → Request v s
  unfolding timeout_of addressed
  list_request opts =
      addressed s get c.place (versioned_params (list_params opts) ∷ timeout (timeout_of opts) ∷ [])

  -- `List`
  unfoldable pub list_resources : ListOptions → Pointed (ResourceList v s)
  unfolding list_request filled
  list_resources opts = filled (c.client.into_list (list_request opts))

  unfoldable pub watch_request : ListOptions → Request v s
  unfolding timeout_of addressed
  watch_request opts = addressed s get c.place (
      versioned_params (list_params (record opts { watch = true }))
      ∷ timeout (timeout_of opts)
      ∷ [])

  -- `Watch`
  unfoldable pub watch_resources : ListOptions → Watch × Option Error
  unfolding watch_request
  watch_resources opts = c.client.watching (watch_request opts)

  unfoldable pub create_request : Resource v s → CreateOptions → Request v s
  unfolding addressed
  create_request r opts =
      addressed s post c.place (versioned_params (create_params opts) ∷ body (resource_body r) ∷ [])

  -- `Create`
  unfoldable pub create_resource : Resource v s → CreateOptions → Pointed (Resource v s)
  unfolding create_request filled
  create_resource r opts = filled (c.client.into_resource (create_request r opts))

  unfoldable pub update_request : Resource v s → UpdateOptions → Request v s
  unfolding addressed
  update_request r opts =
      addressed s put c.place
        (name r.meta.name ∷ versioned_params (update_params opts) ∷ body (resource_body r) ∷ [])

  -- `Update`
  unfoldable pub update_resource : Resource v s → UpdateOptions → Pointed (Resource v s)
  unfolding update_request filled
  update_resource r opts = filled (c.client.into_resource (update_request r opts))

  unfoldable pub update_status_request : Resource v s → UpdateOptions → Request v s
  unfolding addressed
  update_status_request r opts = addressed s put c.place (
      name r.meta.name
      ∷ sub_resource ("status" ∷ [])
      ∷ versioned_params (update_params opts)
      ∷ body (resource_body r)
      ∷ [])

  -- `UpdateStatus`
  unfoldable pub update_resource_status : Resource v s → UpdateOptions → Pointed (Resource v s)
  unfolding update_status_request filled
  update_resource_status r opts = filled (c.client.into_resource (update_status_request r opts))

  unfoldable pub delete_request : String → DeleteOptions → Request v s
  unfolding addressed
  delete_request n opts = addressed s delete c.place (name n ∷ body (delete_body opts) ∷ [])

  -- `Delete`
  unfoldable pub delete_resource : String → DeleteOptions → Option Error
  unfolding delete_request
  delete_resource n opts = c.client.error (delete_request n opts)

  unfoldable pub delete_collection_request : DeleteOptions → ListOptions → Request v s
  unfolding timeout_of addressed
  delete_collection_request opts list_opts = addressed s delete c.place (
      versioned_params (list_params list_opts)
      ∷ timeout (timeout_of list_opts)
      ∷ body (delete_body opts)
      ∷ [])

  -- `DeleteCollection`
  unfoldable pub delete_resources : DeleteOptions → ListOptions → Option Error
  unfolding delete_collection_request
  delete_resources opts list_opts = c.client.error (delete_collection_request opts list_opts)

  unfoldable pub patch_request : String → String → String → PatchOptions → List String → Request v s
  unfolding addressed
  patch_request n pt content opts subresources = addressed s (patch pt) c.place (
      name n
      ∷ sub_resource subresources
      ∷ versioned_params (patch_params opts)
      ∷ body (data_body content)
      ∷ [])

  -- `Patch`
  unfoldable pub patch_resource :
      String → String → String → PatchOptions → List String → Pointed (Resource v s)
  unfolding patch_request filled
  patch_resource n pt content opts subresources =
      filled (c.client.into_resource (patch_request n pt content opts subresources))

abbrev pub apply_nil : Scope → Error
apply_nil namespaced = failed "namespacedResource provided to Apply must not be nil"
apply_nil cluster_wide = failed "clusterResource provided to Apply must not be nil"

abbrev pub apply_nameless : Scope → Error
apply_nameless namespaced = failed "namespacedResource.Name must be provided to Apply"
apply_nameless cluster_wide = failed "clusterResource.Name must be provided to Apply"

unfoldable pub named : Scope → String → Checked (Option String) → Checked (Result (String × String))
named s content panicked = panicked
named s content (returned none) = returned (err (apply_nameless s))
named s content (returned (some n)) = returned (ok (n, content))

module _ {v : Version} {s : Scope} where
  -- The field is read through the embedded metadata, which is a pointer.
  unfoldable pub applied_name : ResourceApply v s → Checked (Option String)
  applied_name b = elim b.meta [
    | none ↦ panicked
    | some meta ↦ returned (ObjectMetaApply.name meta)
  ]

  unfoldable pub marshalled : ResourceApply v s → Result String → Checked (Result (String × String))
  unfolding named applied_name
  marshalled b (err e) = returned (err e)
  marshalled b (ok content) = named s content (applied_name b)

  -- What `Apply` and `ApplyStatus` check before they send anything: the name and the data.
  unfoldable pub to_apply :
      Encoding v s → Option (ResourceApply v s) → Checked (Result (String × String))
  unfolding marshalled
  to_apply encoding none = returned (err (apply_nil s))
  to_apply encoding (some b) = marshalled b (encoding.marshal b)

module _ {Watch : Type 0} {v : Version} {s : Scope} (encoding : Encoding v s)
    (c : Resources Watch v s) where
  unfoldable pub apply_request : ApplyOptions → String × String → Request v s
  unfolding addressed
  apply_request opts (n, content) = addressed s (patch apply_patch_type) c.place (
      name n
      ∷ versioned_params (patch_params (encoding.to_patch_options opts))
      ∷ body (data_body content)
      ∷ [])

  unfoldable pub apply_status_request : ApplyOptions → String × String → Request v s
  unfolding addressed
  apply_status_request opts (n, content) = addressed s (patch apply_patch_type) c.place (
      name n
      ∷ sub_resource ("status" ∷ [])
      ∷ versioned_params (patch_params (encoding.to_patch_options opts))
      ∷ body (data_body content)
      ∷ [])

  unfoldable pub sent :
      (String × String → Request v s)
      → Checked (Result (String × String))
      → Checked (Pointed (Resource v s))
  unfolding filled
  sent request panicked = panicked
  sent request (returned (err e)) = returned (none, some e)
  sent request (returned (ok checked)) =
      returned (filled (c.client.into_resource (request checked)))

  -- `Apply`
  unfoldable pub apply_resource :
      Option (ResourceApply v s) → ApplyOptions → Checked (Pointed (Resource v s))
  unfolding to_apply apply_request sent
  apply_resource b opts = sent (apply_request opts) (to_apply encoding b)

  -- `ApplyStatus`
  unfoldable pub apply_resource_status :
      Option (ResourceApply v s) → ApplyOptions → Checked (Pointed (Resource v s))
  unfolding to_apply apply_status_request sent
  apply_resource_status b opts = sent (apply_status_request opts) (to_apply encoding b)
