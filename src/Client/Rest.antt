-- ===== src/Client/Rest.antt =====
-- The methods of `greeters` (greeter/pkg/generated/clientset/versioned/typed/greeter/v1alpha1/
-- greeter.go). A request is the calls of its builder, in the order in which they are made.
use Prim.Native.String.{String}
use mathlib.Core.Bool.{true}
use mathlib.Core.Option.{Option, none, some}
use mathlib.Core.List.{List, [], ◌∷◌}
use bad_pen.Base.Int.{pos}
use bad_pen.Base.Result.{Error, Result, ok, err, Checked, returned, panicked}
use bad_pen.Time.{Duration, seconds}
use bad_pen.Greeter.{Greeter}
use bad_pen.ApplyConfig.{GreeterApply}
use bad_pen.Client.{
  GetOptions, ListOptions, CreateOptions, UpdateOptions, DeleteOptions, PatchOptions, ApplyOptions,
  GreeterList, Encoding, apply_patch_type, apply_nil, apply_nameless,
}

pub data Params : Type 0 where
  get_params : GetOptions → Params
  list_params : ListOptions → Params
  create_params : CreateOptions → Params
  update_params : UpdateOptions → Params
  patch_params : PatchOptions → Params

pub data Body : Type 0 where
  greeter_body : Greeter → Body
  delete_body : DeleteOptions → Body
  data_body : String → Body

pub data Verb : Type 0 where
  get post put delete : Verb
  patch : String → Verb

pub data Step : Type 0 where
  verb : Verb → Step
  namespace resource name : String → Step
  sub_resource : List String → Step
  versioned_params : Params → Step
  timeout : Duration → Step
  body : Body → Step

abbrev pub Request : Type 0
Request = List Step

-- rest.Interface: how a request ends. `Into` has filled in a result also when there is an error.
pub record Server (Watch : Type 0) : Type 0 where
  pub into_greeter : Request → Greeter × Option Error
  pub into_list : Request → GreeterList × Option Error
  pub watching : Request → Watch × Option Error
  pub error : Request → Option Error

pub record Greeters (Watch : Type 0) : Type 0 where
  pub client : Server Watch
  pub ns : String

-- `newGreeters`
unfoldable pub new_greeters : {Watch : Type 0} → Server Watch → String → Greeters Watch
new_greeters client within = record { client = client; ns = within }

-- `timeout = time.Duration(*opts.TimeoutSeconds) * time.Second`, if that is set
unfoldable pub timeout_of : ListOptions → Duration
timeout_of opts = elim opts.timeout_seconds [ none ↦ pos 0 | some n ↦ seconds n ]

-- What a method that returns a pointer and an error returns.
abbrev pub Pointed : Type 0 → Type 0
Pointed A = Option A × Option Error

unfoldable pub filled : {A : Type 0} → A × Option Error → Pointed A
filled (a, e) = (some a, e)

module _ {Watch : Type 0} (c : Greeters Watch) where
  unfoldable pub get_request : String → GetOptions → Request
  get_request greeter_name options =
      verb get
      ∷ namespace c.ns
      ∷ resource "greeters"
      ∷ name greeter_name
      ∷ versioned_params (get_params options)
      ∷ []

  -- `Get`
  unfoldable pub get_greeter : String → GetOptions → Pointed Greeter
  unfolding get_request filled
  get_greeter greeter_name options =
      filled (c.client.into_greeter (get_request greeter_name options))

  unfoldable pub list_request : ListOptions → Request
  unfolding timeout_of
  list_request opts =
      verb get
      ∷ namespace c.ns
      ∷ resource "greeters"
      ∷ versioned_params (list_params opts)
      ∷ timeout (timeout_of opts)
      ∷ []

  -- `List`
  unfoldable pub list_greeters : ListOptions → Pointed GreeterList
  unfolding list_request filled
  list_greeters opts = filled (c.client.into_list (list_request opts))

  unfoldable pub watch_request : ListOptions → Request
  unfolding timeout_of
  watch_request opts =
      verb get
      ∷ namespace c.ns
      ∷ resource "greeters"
      ∷ versioned_params (list_params (record opts { watch = true }))
      ∷ timeout (timeout_of opts)
      ∷ []

  -- `Watch`
  unfoldable pub watch_greeters : ListOptions → Watch × Option Error
  unfolding watch_request
  watch_greeters opts = c.client.watching (watch_request opts)

  unfoldable pub create_request : Greeter → CreateOptions → Request
  create_request greeter opts =
      verb post
      ∷ namespace c.ns
      ∷ resource "greeters"
      ∷ versioned_params (create_params opts)
      ∷ body (greeter_body greeter)
      ∷ []

  -- `Create`
  unfoldable pub create_greeter : Greeter → CreateOptions → Pointed Greeter
  unfolding create_request filled
  create_greeter greeter opts = filled (c.client.into_greeter (create_request greeter opts))

  unfoldable pub update_request : Greeter → UpdateOptions → Request
  update_request greeter opts =
      verb put
      ∷ namespace c.ns
      ∷ resource "greeters"
      ∷ name greeter.meta.name
      ∷ versioned_params (update_params opts)
      ∷ body (greeter_body greeter)
      ∷ []

  -- `Update`
  unfoldable pub update_greeter : Greeter → UpdateOptions → Pointed Greeter
  unfolding update_request filled
  update_greeter greeter opts = filled (c.client.into_greeter (update_request greeter opts))

  unfoldable pub update_status_request : Greeter → UpdateOptions → Request
  update_status_request greeter opts =
      verb put
      ∷ namespace c.ns
      ∷ resource "greeters"
      ∷ name greeter.meta.name
      ∷ sub_resource ("status" ∷ [])
      ∷ versioned_params (update_params opts)
      ∷ body (greeter_body greeter)
      ∷ []

  -- `UpdateStatus`
  unfoldable pub update_greeter_status : Greeter → UpdateOptions → Pointed Greeter
  unfolding update_status_request filled
  update_greeter_status greeter opts =
      filled (c.client.into_greeter (update_status_request greeter opts))

  unfoldable pub delete_request : String → DeleteOptions → Request
  delete_request greeter_name opts =
      verb delete
      ∷ namespace c.ns
      ∷ resource "greeters"
      ∷ name greeter_name
      ∷ body (delete_body opts)
      ∷ []

  -- `Delete`
  unfoldable pub delete_greeter : String → DeleteOptions → Option Error
  unfolding delete_request
  delete_greeter greeter_name opts = c.client.error (delete_request greeter_name opts)

  unfoldable pub delete_collection_request : DeleteOptions → ListOptions → Request
  unfolding timeout_of
  delete_collection_request opts list_opts =
      verb delete
      ∷ namespace c.ns
      ∷ resource "greeters"
      ∷ versioned_params (list_params list_opts)
      ∷ timeout (timeout_of list_opts)
      ∷ body (delete_body opts)
      ∷ []

  -- `DeleteCollection`
  unfoldable pub delete_greeters : DeleteOptions → ListOptions → Option Error
  unfolding delete_collection_request
  delete_greeters opts list_opts = c.client.error (delete_collection_request opts list_opts)

  unfoldable pub patch_request : String → String → String → PatchOptions → List String → Request
  patch_request greeter_name pt content opts subresources =
      verb (patch pt)
      ∷ namespace c.ns
      ∷ resource "greeters"
      ∷ name greeter_name
      ∷ sub_resource subresources
      ∷ versioned_params (patch_params opts)
      ∷ body (data_body content)
      ∷ []

  -- `Patch`
  unfoldable pub patch_greeter :
      String → String → String → PatchOptions → List String → Pointed Greeter
  unfolding patch_request filled
  patch_greeter greeter_name pt content opts subresources =
      filled (c.client.into_greeter (patch_request greeter_name pt content opts subresources))

-- The name under which a configuration is applied: the field is read through the embedded
-- metadata, which is a pointer.
unfoldable pub applied_name : GreeterApply → Checked (Option String)
applied_name greeter = elim greeter.meta [ none ↦ panicked | some meta ↦ returned meta.name ]

-- What `Apply` and `ApplyStatus` of both clients check before they send anything: the name and
-- the data, or the error.
named : String → Checked (Option String) → Checked (Result (String × String))
named content panicked = panicked
named content (returned none) = returned (err apply_nameless)
named content (returned (some greeter_name)) = returned (ok (greeter_name, content))

marshalled : GreeterApply → Result String → Checked (Result (String × String))
unfolding named applied_name
marshalled greeter (err e) = returned (err e)
marshalled greeter (ok content) = named content (applied_name greeter)

unfoldable pub to_apply : Encoding → Option GreeterApply → Checked (Result (String × String))
unfolding marshalled
to_apply encoding none = returned (err apply_nil)
to_apply encoding (some greeter) = marshalled greeter (encoding.marshal greeter)

module _ {Watch : Type 0} (encoding : Encoding) (c : Greeters Watch) where
  unfoldable pub apply_request : ApplyOptions → String × String → Request
  apply_request opts (greeter_name, content) =
      verb (patch apply_patch_type)
      ∷ namespace c.ns
      ∷ resource "greeters"
      ∷ name greeter_name
      ∷ versioned_params (patch_params (encoding.to_patch_options opts))
      ∷ body (data_body content)
      ∷ []

  unfoldable pub apply_status_request : ApplyOptions → String × String → Request
  apply_status_request opts (greeter_name, content) =
      verb (patch apply_patch_type)
      ∷ namespace c.ns
      ∷ resource "greeters"
      ∷ name greeter_name
      ∷ sub_resource ("status" ∷ [])
      ∷ versioned_params (patch_params (encoding.to_patch_options opts))
      ∷ body (data_body content)
      ∷ []

  unfoldable pub sent :
      (String × String → Request) → Checked (Result (String × String)) → Checked (Pointed Greeter)
  unfolding filled
  sent request panicked = panicked
  sent request (returned (err e)) = returned (none, some e)
  sent request (returned (ok checked)) = returned (filled (c.client.into_greeter (request checked)))

  -- `Apply`
  unfoldable pub apply_greeter : Option GreeterApply → ApplyOptions → Checked (Pointed Greeter)
  unfolding to_apply apply_request sent
  apply_greeter greeter opts = sent (apply_request opts) (to_apply encoding greeter)

  -- `ApplyStatus`
  unfoldable pub apply_greeter_status :
      Option GreeterApply → ApplyOptions → Checked (Pointed Greeter)
  unfolding to_apply apply_status_request sent
  apply_greeter_status greeter opts = sent (apply_status_request opts) (to_apply encoding greeter)
