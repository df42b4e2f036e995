-- ===== src/Sample/Agreement.antt =====
-- The typed clients and their fakes (sample-controller/pkg/clientset/versioned/typed/sample) are two
-- implementations of one interface, for each version and scope.
use Prim.Native.String.{String}
use mathlib.Core.Path.{◌≡◌, refl, ap, sym, ◌∙◌}
use mathlib.Core.Logic.{inl, inr}
use mathlib.Core.Option.{Option, none, some}
use mathlib.Core.List.{List, [], ◌∷◌, ◌++◌}
use bad_pen.Base.Result.{Error, Result, Result-cases, ok, err, Checked, returned, panicked}
use bad_pen.Client.{
  GetOptions, CreateOptions, UpdateOptions, PatchOptions, ApplyOptions, apply_patch_type,
}
use bad_pen.Client.Rest.{Verb, Pointed, filled}
use bad_pen.Client.Fake.{GroupVersionResource}
use bad_pen.Sample.{Version, Scope, namespaced, cluster_wide, Resource, Within, resource_name}
use bad_pen.Sample.Apply.{ResourceApply}
use bad_pen.Sample.Typed.{
  Body, Step, Request, Server, Encoding, Resources, addressed, get_request, create_request,
  update_request, update_status_request, patch_request, apply_request, apply_status_request,
  get_resource, create_resource, update_resource, update_resource_status, patch_resource,
  apply_resource, apply_resource_status, to_apply, sent,
}
use bad_pen.Sample.Fake.{
  Action, Tracker, FakeResources, a_resource, empty_resource, fake_resource, as_pointed, applied,
  fake_get, fake_create, fake_update, fake_update_status, fake_patch, fake_apply, fake_apply_status,
}

-- The methods that answer with a resource.
pub data Operation (v : Version) (s : Scope) : Type 0 where
  get : String → GetOptions → Operation v s
  create : Resource v s → CreateOptions → Operation v s
  update update_status : Resource v s → UpdateOptions → Operation v s
  patch : String → String → String → PatchOptions → List String → Operation v s
  apply apply_status : Option (ResourceApply v s) → ApplyOptions → Operation v s

module _ {Watch : Type 0} {v : Version} {s : Scope} (encoding : Encoding v s) where
  unfoldable pub typed_run : Resources Watch v s → Operation v s → Checked (Pointed (Resource v s))
  typed_run c (Operation.get name opts) = returned (get_resource c name opts)
  typed_run c (Operation.create r opts) = returned (create_resource c r opts)
  typed_run c (Operation.update r opts) = returned (update_resource c r opts)
  typed_run c (Operation.update_status r opts) = returned (update_resource_status c r opts)
  typed_run c (Operation.patch name pt content opts subresources) =
      returned (patch_resource c name pt content opts subresources)
  typed_run c (Operation.apply b opts) = apply_resource encoding c b opts
  typed_run c (Operation.apply_status b opts) = apply_resource_status encoding c b opts

  unfoldable pub tracked_run :
      FakeResources Watch v s → Operation v s → Checked (Pointed (Resource v s))
  tracked_run c (Operation.get name opts) = fake_get c name opts
  tracked_run c (Operation.create r opts) = fake_create c r opts
  tracked_run c (Operation.update r opts) = fake_update c r opts
  tracked_run c (Operation.update_status r opts) = fake_update_status c r opts
  tracked_run c (Operation.patch name pt content opts subresources) =
      fake_patch c name pt content opts subresources
  tracked_run c (Operation.apply b opts) = fake_apply encoding c b opts
  tracked_run c (Operation.apply_status b opts) = fake_apply_status encoding c b opts

-- What an operation acts on: the object's address, and the content.
pub record Target (v : Version) (s : Scope) : Type 0 where
  pub verb : Verb
  pub namespace : String
  pub resource : String
  pub name : String
  pub sub_resources : List String
  pub content : Option (Body v s)

-- Where there is no namespace, it is the empty one.
abbrev pub namespace_of : (s : Scope) → Within s → String
namespace_of namespaced ns = ns
namespace_of cluster_wide place = ""

module _ {v : Version} {s : Scope} where
  abbrev at : Verb → String → String → String → List String → Option (Body v s) → Target v s
  at how ns resource name subs content = record {
    verb = how;
    namespace = ns;
    resource = resource;
    name = name;
    sub_resources = subs;
    content = content;
  }

  abbrev step_target : Target v s → Step v s → Target v s
  step_target t (Step.verb how) = record t { verb = how }
  step_target t (Step.namespace ns) = record t { namespace = ns }
  step_target t (Step.resource resource) = record t { resource = resource }
  step_target t (Step.name name) = record t { name = name }
  step_target t (Step.sub_resource subs) = record t { sub_resources = t.sub_resources ++ subs }
  step_target t (Step.versioned_params params) = t
  step_target t (Step.timeout d) = t
  step_target t (Step.body b) = record t { content = some b }

  abbrev steps_target : Target v s → Request v s → Target v s
  steps_target t [] = t
  steps_target t (step ∷ steps) = steps_target (step_target t step) steps

  abbrev pub request_target : Request v s → Target v s
  request_target = steps_target (at Verb.get "" "" "" [] none)

  abbrev on :
      Verb → GroupVersionResource → Within s → String → List String → Option (Body v s) → Target v s
  on how r place name subs content =
      at how (namespace_of s place) (GroupVersionResource.resource r) name subs content

  abbrev pub action_target : Action v s → Target v s
  action_target (Action.get_action r place name) = on Verb.get r place name [] none
  action_target (Action.list_action r kind place opts) = on Verb.get r place "" [] none
  action_target (Action.watch_action r place opts) = on Verb.get r place "" [] none
  action_target (Action.create_action r place x) =
      on Verb.post r place "" [] (some (Body.resource_body x))
  action_target (Action.update_action r place x) =
      on Verb.put r place x.meta.name [] (some (Body.resource_body x))
  action_target (Action.update_subresource_action r sub place x) =
      on Verb.put r place x.meta.name (sub ∷ []) (some (Body.resource_body x))
  action_target (Action.delete_action_with_options r place name opts) =
      on Verb.delete r place name [] (some (Body.delete_body opts))
  action_target (Action.delete_collection_action r place opts) = on Verb.delete r place "" [] none
  action_target (Action.patch_subresource_action r place name pt content subs) =
      on (Verb.patch pt) r place name subs (some (Body.data_body content))

addressed_target :
    {v : Version} (s : Scope) (how : Verb) (place : Within s) (rest : Request v s)
    → request_target (addressed s how place rest)
      ≡ steps_target (at how (namespace_of s place) (resource_name s) "" [] none) rest
unfolding addressed
addressed_target namespaced how place rest = refl
addressed_target cluster_wide how place rest = refl

-- What a client returns with the result left out where there is an error.
abbrev pub nil_on_error :
    {v : Version} {s : Scope} → Checked (Pointed (Resource v s)) → Checked (Pointed (Resource v s))
nil_on_error panicked = panicked
nil_on_error (returned (result, none)) = returned (result, none)
nil_on_error (returned (result, some e)) = returned (none, some e)

-- The server and the tracker stand on one store, which answers by target. With an error the
-- server's result is any value, and the tracker's object is nil.
pub record IsBacked {Watch : Type 0} {v : Version} {s : Scope}
    (store : Target v s → Result (Resource v s)) (server : Server Watch v s)
    (tracker : Tracker Watch v s) : Type 0 where
  pub server_succeeds :
      (r : Request v s) (x : Resource v s)
      → store (request_target r) ≡ ok x
      → server.into_resource r ≡ (x, none)
  pub server_fails :
      (r : Request v s) (e : Error)
      → store (request_target r) ≡ err e
      → (server.into_resource r).1 ≡ some e
  pub tracker_succeeds :
      (a : Action v s) (x : Resource v s)
      → store (action_target a) ≡ ok x
      → tracker.invokes a empty_resource ≡ (some (a_resource x), none)
  pub tracker_fails :
      (a : Action v s) (e : Error)
      → store (action_target a) ≡ err e
      → tracker.invokes a empty_resource ≡ (none, some e)

module _ {Watch : Type 0} {v : Version} {s : Scope} (encoding : Encoding v s)
    (store : Target v s → Result (Resource v s)) (server : Server Watch v s)
    (tracker : Tracker Watch v s) (backed : IsBacked store server tracker) (place : Within s) where
  abbrev typed : Resources Watch v s
  typed = record { client = server; place = place }

  abbrev tracked : FakeResources Watch v s
  tracked = record { fake = tracker; place = place }

  same_answer :
      (a : Action v s) (r : Request v s)
      → request_target r ≡ action_target a
      → as_pointed (tracker.invokes a empty_resource)
        ≡ nil_on_error (returned (filled (server.into_resource r)))
  unfolding as_pointed filled
  same_answer a r same = elim (Result-cases (store (request_target r))) [
    | inl (x, found) ↦
        rw
          (
            backed.tracker_succeeds a x (ap store (sym same) ∙ found),
            backed.server_succeeds r x found,
          )
          refl
    | inr (e, failed) ↦
        rw (backed.tracker_fails a e (ap store (sym same) ∙ failed), backed.server_fails r e failed)
          refl
  ]

  applied-sent :
      (subs : List String) (request : String × String → Request v s)
      → ((name content : String)
          → request_target (request (name, content))
            ≡ action_target (
                Action.patch_subresource_action
                  (fake_resource v s)
                  place
                  name
                  apply_patch_type
                  content
                  subs))
      → (checked : Checked (Result (String × String)))
      → applied encoding tracked subs checked ≡ nil_on_error (sent encoding typed request checked)
  unfolding applied sent
  applied-sent subs request same panicked = refl
  applied-sent subs request same (returned (err e)) = refl
  applied-sent subs request same (returned (ok (name, content))) =
      same_answer
        (Action.patch_subresource_action (fake_resource v s) place name apply_patch_type content
          subs)
        (request (name, content)) (same name content)

  -- For every operation that answers with a resource, of either version and scope, the fake client
  -- returns what the typed client returns, if the fake's tracker and the server stand on one store
  -- and the namespaces are the same: the same resource where there is no error, the same error, or
  -- the same panic. With an error the fake returns no resource, whatever the typed client has read
  -- into its result.
  pub tracked_run-typed_run :
      (op : Operation v s)
      → tracked_run encoding (record { fake = tracker; place = place }) op
        ≡ nil_on_error (typed_run encoding (record { client = server; place = place }) op)
  unfolding tracked_run typed_run get_resource get_request fake_get create_resource create_request
      fake_create update_resource update_request fake_update update_resource_status
      update_status_request fake_update_status patch_resource patch_request fake_patch
      apply_resource apply_request fake_apply apply_resource_status apply_status_request
      fake_apply_status
  tracked_run-typed_run (Operation.get name opts) =
      same_answer (Action.get_action (fake_resource v s) place name) (get_request typed name opts)
        (addressed_target s Verb.get place _)
  tracked_run-typed_run (Operation.create r opts) =
      same_answer (Action.create_action (fake_resource v s) place r) (create_request typed r opts)
        (addressed_target s Verb.post place _)
  tracked_run-typed_run (Operation.update r opts) =
      same_answer (Action.update_action (fake_resource v s) place r) (update_request typed r opts)
        (addressed_target s Verb.put place _)
  tracked_run-typed_run (Operation.update_status r opts) =
      same_answer (Action.update_subresource_action (fake_resource v s) "status" place r)
        (update_status_request typed r opts) (addressed_target s Verb.put place _)
  tracked_run-typed_run (Operation.patch name pt content opts subresources) =
      same_answer
        (Action.patch_subresource_action (fake_resource v s) place name pt content subresources)
        (patch_request typed name pt content opts subresources)
        (addressed_target s (Verb.patch pt) place _)
  tracked_run-typed_run (Operation.apply b opts) =
      applied-sent [] (apply_request encoding typed opts)
        (λ name content. addressed_target s (Verb.patch apply_patch_type) place _)
        (to_apply encoding b)
  tracked_run-typed_run (Operation.apply_status b opts) =
      applied-sent ("status" ∷ []) (apply_status_request encoding typed opts)
        (λ name content. addressed_target s (Verb.patch apply_patch_type) place _)
        (to_apply encoding b)
