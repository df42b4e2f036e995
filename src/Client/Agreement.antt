-- ===== src/Client/Agreement.antt =====
-- The typed client and its fake (greeter/pkg/generated/clientset/versioned/typed/greeter/v1alpha1)
-- are two implementations of one interface.
use Prim.Native.String.{String}
use mathlib.Core.Path.{◌≡◌, refl, ap, sym, ◌∙◌}
use mathlib.Core.Logic.{inl, inr}
use mathlib.Core.Option.{Option, none, some}
use mathlib.Core.List.{List, [], ◌∷◌, ◌++◌}
use bad_pen.Base.Result.{Error, Result, Result-cases, ok, err, Checked, returned, panicked}
use bad_pen.Greeter.{Greeter}
use bad_pen.Client.{Operation, Encoding, apply_patch_type}
use bad_pen.Client.Rest.{
  Body, Verb, Step, Request, Server, Greeters, Pointed, filled, sent, to_apply, get_greeter,
  create_greeter, update_greeter, update_greeter_status, patch_greeter, apply_greeter,
  apply_greeter_status, get_request, create_request, update_request, update_status_request,
  patch_request, apply_request, apply_status_request,
}
use bad_pen.Client.Fake.{
  GroupVersionResource, Action, Tracker, FakeGreeters, a_greeter, empty_greeter, greeters_resource,
  applied, as_pointed, fake_get, fake_create, fake_update, fake_update_status, fake_patch,
  fake_apply, fake_apply_status,
}

-- The methods of the two clients, by operation.
unfoldable pub client_run :
    {Watch : Type 0} → Encoding → Greeters Watch → Operation → Checked (Pointed Greeter)
client_run encoding c (Operation.get name opts) = returned (get_greeter c name opts)
client_run encoding c (Operation.create greeter opts) = returned (create_greeter c greeter opts)
client_run encoding c (Operation.update greeter opts) = returned (update_greeter c greeter opts)
client_run encoding c (Operation.update_status greeter opts) =
    returned (update_greeter_status c greeter opts)
client_run encoding c (Operation.patch name pt content opts subresources) =
    returned (patch_greeter c name pt content opts subresources)
client_run encoding c (Operation.apply greeter opts) = apply_greeter encoding c greeter opts
client_run encoding c (Operation.apply_status greeter opts) =
    apply_greeter_status encoding c greeter opts

unfoldable pub fake_run :
    {Watch : Type 0} → Encoding → FakeGreeters Watch → Operation → Checked (Pointed Greeter)
fake_run encoding c (Operation.get name opts) = fake_get c name opts
fake_run encoding c (Operation.create greeter opts) = fake_create c greeter opts
fake_run encoding c (Operation.update greeter opts) = fake_update c greeter opts
fake_run encoding c (Operation.update_status greeter opts) = fake_update_status c greeter opts
fake_run encoding c (Operation.patch name pt content opts subresources) =
    fake_patch c name pt content opts subresources
fake_run encoding c (Operation.apply greeter opts) = fake_apply encoding c greeter opts
fake_run encoding c (Operation.apply_status greeter opts) =
    fake_apply_status encoding c greeter opts

-- What an operation acts on: the object's address, and the content.
pub record Target : Type 0 where
  pub verb : Verb
  pub namespace : String
  pub resource : String
  pub name : String
  pub sub_resources : List String
  pub content : Option Body

abbrev blank : Target
blank = record {
  verb = Verb.get;
  namespace = "";
  resource = "";
  name = "";
  sub_resources = [];
  content = none;
}

abbrev step_target : Target → Step → Target
step_target t (Step.verb v) = record t { verb = v }
step_target t (Step.namespace ns) = record t { namespace = ns }
step_target t (Step.resource resource) = record t { resource = resource }
step_target t (Step.name name) = record t { name = name }
step_target t (Step.sub_resource subs) = record t { sub_resources = t.sub_resources ++ subs }
step_target t (Step.versioned_params params) = t
step_target t (Step.timeout d) = t
step_target t (Step.body b) = record t { content = some b }

abbrev steps_target : Target → Request → Target
steps_target t [] = t
steps_target t (s ∷ steps) = steps_target (step_target t s) steps

abbrev pub request_target : Request → Target
request_target = steps_target blank

abbrev at : Verb → GroupVersionResource → String → String → List String → Option Body → Target
at v resource ns name subs content = record {
  verb = v;
  namespace = ns;
  resource = resource.resource;
  name = name;
  sub_resources = subs;
  content = content;
}

abbrev pub action_target : Action → Target
action_target (Action.get_action r ns name) = at Verb.get r ns name [] none
action_target (Action.list_action r kind ns opts) = at Verb.get r ns "" [] none
action_target (Action.watch_action r ns opts) = at Verb.get r ns "" [] none
action_target (Action.create_action r ns g) = at Verb.post r ns "" [] (some (Body.greeter_body g))
action_target (Action.update_action r ns g) =
    at Verb.put r ns g.meta.name [] (some (Body.greeter_body g))
action_target (Action.update_subresource_action r sub ns g) =
    at Verb.put r ns g.meta.name (sub ∷ []) (some (Body.greeter_body g))
action_target (Action.delete_action_with_options r ns name opts) =
    at Verb.delete r ns name [] (some (Body.delete_body opts))
action_target (Action.delete_collection_action r ns opts) = at Verb.delete r ns "" [] none
action_target (Action.patch_subresource_action r ns name pt content subs) =
    at (Verb.patch pt) r ns name subs (some (Body.data_body content))

-- What a client returns with the result left out where there is an error.
abbrev pub nil_on_error : Checked (Pointed Greeter) → Checked (Pointed Greeter)
nil_on_error panicked = panicked
nil_on_error (returned (result, none)) = returned (result, none)
nil_on_error (returned (result, some e)) = returned (none, some e)

-- The server and the tracker stand on one store, which answers by target. With an error the
-- server's result is any value, and the tracker's object is nil.
pub record IsBacked {Watch : Type 0} (store : Target → Result Greeter) (server : Server Watch)
    (tracker : Tracker Watch) : Type 0 where
  pub server_succeeds :
      (r : Request) (g : Greeter)
      → store (request_target r) ≡ ok g
      → Server.into_greeter server r ≡ (g, none)
  pub server_fails :
      (r : Request) (e : Error)
      → store (request_target r) ≡ err e
      → (Server.into_greeter server r).1 ≡ some e
  pub tracker_succeeds :
      (a : Action) (g : Greeter)
      → store (action_target a) ≡ ok g
      → Tracker.invokes tracker a empty_greeter ≡ (some (a_greeter g), none)
  pub tracker_fails :
      (a : Action) (e : Error)
      → store (action_target a) ≡ err e
      → Tracker.invokes tracker a empty_greeter ≡ (none, some e)

module _ {Watch : Type 0} (encoding : Encoding) (store : Target → Result Greeter)
    (c : Greeters Watch) (f : FakeGreeters Watch) (backed : IsBacked store c.client f.fake)
    (same_namespace : f.ns ≡ c.ns) where
  agree :
      (a : String → Action) (r : Request)
      → action_target (a c.ns) ≡ request_target r
      → as_pointed (Tracker.invokes f.fake (a f.ns) empty_greeter)
        ≡ nil_on_error (returned (filled (Server.into_greeter c.client r)))
  unfolding as_pointed filled
  agree a r same = elim (Result-cases (store (request_target r))) [
    | inl (g, found) ↦
        rw
          (
            same_namespace,
            IsBacked.tracker_succeeds backed (a c.ns) g (ap store same ∙ found),
            IsBacked.server_succeeds backed r g found,
          )
          refl
    | inr (e, failed) ↦
        rw
          (
            same_namespace,
            IsBacked.tracker_fails backed (a c.ns) e (ap store same ∙ failed),
            IsBacked.server_fails backed r e failed,
          )
          refl
  ]

  applied-sent :
      (subs : List String) (request : String × String → Request)
      → ((name content : String)
          → request_target (request (name, content))
            ≡ action_target (
                Action.patch_subresource_action greeters_resource c.ns name apply_patch_type content
                  subs))
      → (checked : Checked (Result (String × String)))
      → applied encoding f subs checked ≡ nil_on_error (sent encoding c request checked)
  unfolding applied sent
  applied-sent subs request same panicked = refl
  applied-sent subs request same (returned (err e)) = refl
  applied-sent subs request same (returned (ok (name, content))) =
      agree
        (λ ns.
          Action.patch_subresource_action greeters_resource ns name apply_patch_type content subs)
        (request (name, content)) (sym (same name content))

  -- For every operation that answers with a Greeter, the fake client returns what the typed client
  -- returns, if the fake's tracker and the server stand on one store and the namespaces are the
  -- same: the same Greeter where there is no error, the same error, or the same panic. With an error
  -- the fake returns no Greeter, whatever the typed client has read into its result.
  pub fake_run-client_run :
      (op : Operation) → fake_run encoding f op ≡ nil_on_error (client_run encoding c op)
  unfolding fake_run client_run get_greeter get_request fake_get create_greeter create_request
      fake_create update_greeter update_request fake_update update_greeter_status
      update_status_request fake_update_status patch_greeter patch_request fake_patch apply_greeter
      apply_request fake_apply apply_greeter_status apply_status_request fake_apply_status
  fake_run-client_run (Operation.get name opts) =
      agree (λ ns. Action.get_action greeters_resource ns name) (get_request c name opts) refl
  fake_run-client_run (Operation.create greeter opts) =
      agree (λ ns. Action.create_action greeters_resource ns greeter)
        (create_request c greeter opts) refl
  fake_run-client_run (Operation.update greeter opts) =
      agree (λ ns. Action.update_action greeters_resource ns greeter)
        (update_request c greeter opts) refl
  fake_run-client_run (Operation.update_status greeter opts) =
      agree (λ ns. Action.update_subresource_action greeters_resource "status" ns greeter)
        (update_status_request c greeter opts) refl
  fake_run-client_run (Operation.patch name pt content opts subresources) =
      agree
        (λ ns. Action.patch_subresource_action greeters_resource ns name pt content subresources)
        (patch_request c name pt content opts subresources) refl
  fake_run-client_run (Operation.apply greeter opts) =
      applied-sent [] (apply_request encoding c opts) (λ name content. refl)
        (to_apply encoding greeter)
  fake_run-client_run (Operation.apply_status greeter opts) =
      applied-sent ("status" ∷ []) (apply_status_request encoding c opts) (λ name content. refl)
        (to_apply encoding greeter)
