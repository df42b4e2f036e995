-- ===== src/Client/Fake.antt =====
-- The methods of `FakeGreeters` (greeter/pkg/generated/clientset/versioned/typed/greeter/v1alpha1/
-- fake/fake_greeter.go): the actions that they invoke on client-go's testing.Fake, and what they
-- make of its answers.
use Prim.Native.String.{String}
use mathlib.Core.Bool.{true}
use mathlib.Core.Option.{Option, none, some}
use mathlib.Core.List.{List, [], ◌∷◌, ◌++◌}
use bad_pen.Base.{if◌then◌else◌}
use bad_pen.Base.Result.{Error, Result, ok, err, Checked, returned, panicked}
use bad_pen.Greeter.{Greeter}
use bad_pen.ApplyConfig.{GreeterApply, GroupVersionKind}
use bad_pen.Client.{
  GetOptions, ListOptions, CreateOptions, UpdateOptions, DeleteOptions, PatchOptions, ApplyOptions,
  GreeterList, Encoding, apply_patch_type,
}
use bad_pen.Client.Rest.{Pointed, to_apply}
use bad_pen.Lister.{Selector}

pub record GroupVersionResource : Type 0 where
  pub group : String
  pub version : String
  pub resource : String

-- `greetersResource` and `greetersKind`
abbrev pub greeters_resource : GroupVersionResource
greeters_resource = record { group = "example.org"; version = "v1alpha1"; resource = "greeters" }

abbrev pub greeters_kind : GroupVersionKind
greeters_kind = record { group = "example.org"; version = "v1alpha1"; kind = "Greeter" }

-- The actions of client-go's testing package, by the functions that make them.
pub data Action : Type 0 where
  get_action : GroupVersionResource → String → String → Action
  list_action : GroupVersionResource → GroupVersionKind → String → ListOptions → Action
  watch_action : GroupVersionResource → String → ListOptions → Action
  create_action update_action : GroupVersionResource → String → Greeter → Action
  update_subresource_action : GroupVersionResource → String → String → Greeter → Action
  delete_action_with_options : GroupVersionResource → String → String → DeleteOptions → Action
  delete_collection_action : GroupVersionResource → String → ListOptions → Action
  patch_subresource_action :
      GroupVersionResource → String → String → String → String → List String → Action

-- An object that `Invokes` answers with, or the default that it is given.
pub data Answer : Type 0 where
  a_greeter : Greeter → Answer
  a_list : GreeterList → Answer
  another : Answer

pub data Default : Type 0 where
  empty_greeter empty_list : Default

pub record Tracker (Watch : Type 0) : Type 0 where
  pub invokes : Action → Default → Option Answer × Option Error
  pub invokes_watch : Action → Watch × Option Error
  -- the label selector of `testing.ExtractFromListOptions(opts)`
  pub extract_label : ListOptions → Option Selector

pub record FakeGreeters (Watch : Type 0) : Type 0 where
  pub fake : Tracker Watch
  pub ns : String

-- `if obj == nil { return nil, err }; return obj.(*v1alpha1.Greeter), err`
unfoldable pub as_pointed : Option Answer × Option Error → Checked (Pointed Greeter)
as_pointed (none, e) = returned (none, e)
as_pointed (some (a_greeter greeter), e) = returned (some greeter, e)
as_pointed (some (a_list gs), e) = panicked
as_pointed (some another, e) = panicked

-- The loop of `List`.
unfoldable pub append_matching : Selector → List Greeter → List Greeter → List Greeter
append_matching label [] items = items
append_matching label (item ∷ rest) items =
    append_matching label rest (if label item.meta.labels then items ++ item ∷ [] else items)

-- labels.Everything()
abbrev pub everything : Selector
everything labels = true

unfoldable pub label_or_everything : Option Selector → Selector
label_or_everything none = everything
label_or_everything (some label) = label

unfoldable pub matching_list :
    Selector → Option Answer × Option Error → Checked (Pointed GreeterList)
unfolding append_matching
matching_list label (none, e) = returned (none, e)
matching_list label (some (a_greeter greeter), e) = panicked
matching_list label (some (a_list gs), e) =
    returned (some (record gs { items = append_matching label gs.items [] }), e)
matching_list label (some another, e) = panicked

module _ {Watch : Type 0} (c : FakeGreeters Watch) where
  fake_greeter_of : Action → Checked (Pointed Greeter)
  unfolding as_pointed
  fake_greeter_of action = as_pointed (c.fake.invokes action empty_greeter)

  -- `Get`
  unfoldable pub fake_get : String → GetOptions → Checked (Pointed Greeter)
  unfolding fake_greeter_of
  fake_get name options = fake_greeter_of (get_action greeters_resource c.ns name)

  -- `List`
  unfoldable pub fake_list : ListOptions → Checked (Pointed GreeterList)
  unfolding matching_list label_or_everything
  fake_list opts =
      matching_list (label_or_everything (c.fake.extract_label opts))
        (c.fake.invokes (list_action greeters_resource greeters_kind c.ns opts) empty_list)

  -- `Watch`
  unfoldable pub fake_watch : ListOptions → Watch × Option Error
  fake_watch opts = c.fake.invokes_watch (watch_action greeters_resource c.ns opts)

  -- `Create`
  unfoldable pub fake_create : Greeter → CreateOptions → Checked (Pointed Greeter)
  unfolding fake_greeter_of
  fake_create greeter opts = fake_greeter_of (create_action greeters_resource c.ns greeter)

  -- `Update`
  unfoldable pub fake_update : Greeter → UpdateOptions → Checked (Pointed Greeter)
  unfolding fake_greeter_of
  fake_update greeter opts = fake_greeter_of (update_action greeters_resource c.ns greeter)

  -- `UpdateStatus`
  unfoldable pub fake_update_status : Greeter → UpdateOptions → Checked (Pointed Greeter)
  unfolding fake_greeter_of
  fake_update_status greeter opts =
      fake_greeter_of (update_subresource_action greeters_resource "status" c.ns greeter)

  -- `Delete`
  unfoldable pub fake_delete : String → DeleteOptions → Option Error
  fake_delete name opts =
      let (answer, e) =
        c.fake.invokes (delete_action_with_options greeters_resource c.ns name opts)
          empty_greeter in
      e

  -- `DeleteCollection`
  unfoldable pub fake_delete_collection : DeleteOptions → ListOptions → Option Error
  fake_delete_collection opts list_opts =
      let (answer, e) =
        c.fake.invokes (delete_collection_action greeters_resource c.ns list_opts) empty_list in
      e

  -- `Patch`
  unfoldable pub fake_patch :
      String → String → String → PatchOptions → List String → Checked (Pointed Greeter)
  unfolding fake_greeter_of
  fake_patch name pt content opts subresources =
      fake_greeter_of (patch_subresource_action greeters_resource c.ns name pt content subresources)

module _ {Watch : Type 0} (encoding : Encoding) (c : FakeGreeters Watch) where
  unfoldable pub applied :
      List String → Checked (Result (String × String)) → Checked (Pointed Greeter)
  unfolding fake_greeter_of
  applied subresources panicked = panicked
  applied subresources (returned (err e)) = returned (none, some e)
  applied subresources (returned (ok (name, content))) =
      fake_greeter_of c
        (patch_subresource_action greeters_resource c.ns name apply_patch_type content subresources)

  -- `Apply`
  unfoldable pub fake_apply : Option GreeterApply → ApplyOptions → Checked (Pointed Greeter)
  unfolding to_apply applied
  fake_apply greeter opts = applied [] (to_apply encoding greeter)

  -- `ApplyStatus`
  unfoldable pub fake_apply_status : Option GreeterApply → ApplyOptions → Checked (Pointed Greeter)
  unfolding to_apply applied
  fake_apply_status greeter opts = applied ("status" ∷ []) (to_apply encoding greeter)
