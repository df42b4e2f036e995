-- ===== src/Sample/Fake.antt =====
-- The fake clients of the resources (sample-controller/pkg/clientset/versioned/typed/sample, fake of
-- both versions): the actions that they invoke on client-go's testing.Fake, and what they make of
-- its answers. The actions of the cluster-wide clients are those with Root in their names, which
-- take no namespace.
use Prim.Native.String.{String}
use mathlib.Core.Option.{Option, none, some}
use mathlib.Core.List.{List, [], ◌∷◌, ◌++◌}
use bad_pen.Base.{if◌then◌else◌}
use bad_pen.Base.Result.{Error, Result, ok, err, Checked, returned, panicked}
use bad_pen.ApplyConfig.{GroupVersionKind}
use bad_pen.Client.{
  GetOptions, ListOptions, CreateOptions, UpdateOptions, DeleteOptions, PatchOptions, ApplyOptions,
  apply_patch_type,
}
use bad_pen.Client.Rest.{Pointed}
use bad_pen.Client.Fake.{GroupVersionResource, label_or_everything}
use bad_pen.Lister.{Selector}
use bad_pen.Sample.{
  Version, Scope, Resource, ResourceList, Within, group_name, version_name, kind_name,
  resource_name,
}
use bad_pen.Sample.Apply.{ResourceApply}
use bad_pen.Sample.Typed.{Encoding, to_apply}

-- The variables of the package: the resource and the kind.
abbrev pub fake_resource : Version → Scope → GroupVersionResource
fake_resource v s = record {
  group = group_name;
  version = version_name v;
  resource = resource_name s;
}

abbrev pub fake_kind : Version → Scope → GroupVersionKind
fake_kind v s = record { group = group_name; version = version_name v; kind = kind_name s }

pub data Action (v : Version) (s : Scope) : Type 0 where
  get_action : GroupVersionResource → Within s → String → Action v s
  list_action : GroupVersionResource → GroupVersionKind → Within s → ListOptions → Action v s
  watch_action : GroupVersionResource → Within s → ListOptions → Action v s
  create_action update_action : GroupVersionResource → Within s → Resource v s → Action v s
  update_subresource_action : GroupVersionResource → String → Within s → Resource v s → Action v s
  delete_action_with_options : GroupVersionResource → Within s → String → DeleteOptions → Action v s
  delete_collection_action : GroupVersionResource → Within s → ListOptions → Action v s
  patch_subresource_action :
      GroupVersionResource → Within s → String → String → String → List String → Action v s

-- What `Invokes` answers with, and the default that it is given.
pub data Answer (v : Version) (s : Scope) : Type 0 where
  a_resource : Resource v s → Answer v s
  a_list : ResourceList v s → Answer v s
  another : Answer v s

pub data Empty : Type 0 where
  empty_resource empty_list : Empty

pub record Tracker (Watch : Type 0) (v : Version) (s : Scope) : Type 0 where
  pub invokes : Action v s → Empty → Option (Answer v s) × Option Error
  pub invokes_watch : Action v s → Watch × Option Error
  -- the label selector of `testing.ExtractFromListOptions(opts)`
  pub extract_label : ListOptions → Option Selector

-- `FakeClusterResources` and `FakeNamespacedResources`
pub record FakeResources (Watch : Type 0) (v : Version) (s : Scope) : Type 0 where
  pub fake : Tracker Watch v s
  pub place : Within s

module _ {v : Version} {s : Scope} where
  -- `if obj == nil { return nil, err }`, and the type assertion.
  unfoldable pub as_pointed : Option (Answer v s) × Option Error → Checked (Pointed (Resource v s))
  as_pointed (none, e) = returned (none, e)
  as_pointed (some (a_resource r), e) = returned (some r, e)
  as_pointed (some (a_list rs), e) = panicked
  as_pointed (some another, e) = panicked

  -- The loop of `List`.
  unfoldable pub append_matching :
      Selector → List (Resource v s) → List (Resource v s) → List (Resource v s)
  append_matching label [] items = items
  append_matching label (item ∷ rest) items =
      append_matching label rest (if label item.meta.labels then items ++ item ∷ [] else items)

  -- The new list has the metadata of the answer, and no type metadata.
  unfoldable pub matching_list :
      Selector → Option (Answer v s) × Option Error → Checked (Pointed (ResourceList v s))
  unfolding append_matching
  matching_list label (none, e) = returned (none, e)
  matching_list label (some (a_resource r), e) = panicked
  matching_list label (some (a_list rs), e) = returned (
    some (record {
      type_meta = record { kind = ""; api_version = "" };
      resource_version = rs.resource_version;
      items = append_matching label rs.items [];
    }),
    e,
  )
  matching_list label (some another, e) = panicked

module _ {Watch : Type 0} {v : Version} {s : Scope} (c : FakeResources Watch v s) where
  invoked : Action v s → Checked (Pointed (Resource v s))
  unfolding as_pointed
  invoked action = as_pointed (c.fake.invokes action empty_resource)

  -- `Get`
  unfoldable pub fake_get : String → GetOptions → Checked (Pointed (Resource v s))
  unfolding invoked
  fake_get name options = invoked (get_action (fake_resource v s) c.place name)

  -- `List`
  unfoldable pub fake_list : ListOptions → Checked (Pointed (ResourceList v s))
  unfolding matching_list label_or_everything
  fake_list opts =
      matching_list (label_or_everything (c.fake.extract_label opts))
        (c.fake.invokes (list_action (fake_resource v s) (fake_kind v s) c.place opts) empty_list)

  -- `Watch`
  unfoldable pub fake_watch : ListOptions → Watch × Option Error
  fake_watch opts = c.fake.invokes_watch (watch_action (fake_resource v s) c.place opts)

  -- `Create`
  unfoldable pub fake_create : Resource v s → CreateOptions → Checked (Pointed (Resource v s))
  unfolding invoked
  fake_create r opts = invoked (create_action (fake_resource v s) c.place r)

  -- `Update`
  unfoldable pub fake_update : Resource v s → UpdateOptions → Checked (Pointed (Resource v s))
  unfolding invoked
  fake_update r opts = invoked (update_action (fake_resource v s) c.place r)

  -- `UpdateStatus`
  unfoldable pub fake_update_status :
      Resource v s → UpdateOptions → Checked (Pointed (Resource v s))
  unfolding invoked
  fake_update_status r opts =
      invoked (update_subresource_action (fake_resource v s) "status" c.place r)

  -- `Delete`
  unfoldable pub fake_delete : String → DeleteOptions → Option Error
  fake_delete name opts =
      let (answer, e) =
        c.fake.invokes (delete_action_with_options (fake_resource v s) c.place name opts)
          empty_resource in
      e

  -- `DeleteCollection`
  unfoldable pub fake_delete_collection : DeleteOptions → ListOptions → Option Error
  fake_delete_collection opts list_opts =
      let (answer, e) =
        c.fake.invokes (delete_collection_action (fake_resource v s) c.place list_opts)
          empty_list in
      e

  -- `Patch`
  unfoldable pub fake_patch :
      String → String → String → PatchOptions → List String → Checked (Pointed (Resource v s))
  unfolding invoked
  fake_patch name pt content opts subresources =
      invoked (patch_subresource_action (fake_resource v s) c.place name pt content subresources)

module _ {Watch : Type 0} {v : Version} {s : Scope} (encoding : Encoding v s)
    (c : FakeResources Watch v s) where
  unfoldable pub applied :
      List String → Checked (Result (String × String)) → Checked (Pointed (Resource v s))
  unfolding invoked
  applied subresources panicked = panicked
  applied subresources (returned (err e)) = returned (none, some e)
  applied subresources (returned (ok (name, content))) = invoked c (
      patch_subresource_action (fake_resource v s) c.place name apply_patch_type content
        subresources)

  -- `Apply`
  unfoldable pub fake_apply :
      Option (ResourceApply v s) → ApplyOptions → Checked (Pointed (Resource v s))
  unfolding to_apply applied
  fake_apply b opts = applied [] (to_apply encoding b)

  -- `ApplyStatus`
  unfoldable pub fake_apply_status :
      Option (ResourceApply v s) → ApplyOptions → Checked (Pointed (Resource v s))
  unfolding to_apply applied
  fake_apply_status b opts = applied ("status" ∷ []) (to_apply encoding b)
