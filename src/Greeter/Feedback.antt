-- ===== src/Greeter/Feedback.antt =====
-- How the sync of a Greeter and the events of its pod feed one another
-- (greeter/internal/greeter/controller.go): the pod that `syncGreeter` creates leads `enqueuePod`
-- back to the Greeter.
use Prim.Native.String
use Prim.Native.String.{String}
use mathlib.Core.Path.{◌≡◌, refl, ap, ◌∙◌, sym}
use mathlib.Core.Logic.{◌≢◌}
use mathlib.Core.Bool.{true}
use mathlib.Core.Option
use mathlib.Core.Option.{Option, none, some}
use mathlib.Core.List.{List, [], ◌∷◌}
use bad_pen.Base.Int.{pos}
use bad_pen.Base.Exec.{Outcome, reply}
use bad_pen.Base.Result.{Error, ok, err, is_not_found, returned}
use bad_pen.Kube.{Pod, ObjectMeta, OwnerReference, Ownership, OwnershipLaws}
use bad_pen.Greeter.{
  Greeter, Object, greeter_object, pod_object, phase_running, phase_succeeded, phase_failed,
}
use bad_pen.Greeter.Env.{Call, add, read_greeter, read_pod, create_pod, Env}
use bad_pen.Greeter.Sync.{group_version, greeter_kind, owned_pod, new_pod_for_greeter, sync_greeter}
use bad_pen.Greeter.Sync.Branches.{sync_greeter_creates}
use bad_pen.Greeter.Queue.{enqueue_pod, HandlerFuncs, pod_handlers}
use bad_pen.Greeter.Queue.Enqueue.{cached, enqueue_pod_adds}

-- What apimachinery documents of a controller reference: `NewControllerRef` refers to the owner by
-- its kind, name and UID, and `GetControllerOf` finds it.
pub record ReferenceLaws (o : Ownership) : Type 0 where
  pub ref_kind :
      (owner : ObjectMeta) (api_version kind : String)
      → OwnerReference.kind (Ownership.new_controller_ref o owner api_version kind) ≡ kind
  pub ref_name :
      (owner : ObjectMeta) (api_version kind : String)
      → OwnerReference.name (Ownership.new_controller_ref o owner api_version kind) ≡ owner.name
  pub ref_uid :
      (owner : ObjectMeta) (api_version kind : String)
      → OwnerReference.uid (Ownership.new_controller_ref o owner api_version kind) ≡ owner.uid
  pub found_ref :
      (object owner : ObjectMeta) (api_version kind : String)
      → object.owner_references ≡ Ownership.new_controller_ref o owner api_version kind ∷ []
      → Ownership.get_controller_of o object
        ≡ some (Ownership.new_controller_ref o owner api_version kind)

-- An event of an informer.
pub data Event : Type 0 where
  added deleted : Object → Event
  updated : Object → Object → Event

-- What the function that is registered for an event does, if there is one.
abbrev pub told : HandlerFuncs → Event → List Call → Option (Outcome (Unit {0}) ⊥ × List Call)
told handlers (added object) h = Option.map (λ f. f object h) handlers.add_func
told handlers (updated old object) h = Option.map (λ f. f old object h) handlers.update_func
told handlers (deleted object) h = Option.map (λ f. f object h) handlers.delete_func

module _ (env : Env) (laws : OwnershipLaws env.ownership) (refs : ReferenceLaws env.ownership)
    (g : Greeter) where
  -- An event of the Greeter's pod that `enqueuePod` is told of puts the Greeter back on the queue.
  pub enqueue_pod-owned_pod :
      (pod : Pod) (g' : Greeter) (key : String) (h : List Call)
      → pod.meta.owner_references ≡ (owned_pod env g).meta.owner_references
      → pod.meta.namespace ≡ g.meta.namespace
      → cached env h g.meta.namespace g.meta.name ≡ returned (ok g')
      → g'.meta.uid ≡ g.meta.uid
      → env.key_of (greeter_object g') ≡ ok key
      → enqueue_pod env (pod_object pod) h
        ≡ (reply tt, add key ∷ read_greeter g.meta.namespace g.meta.name ∷ h)
  unfolding owned_pod new_pod_for_greeter
  enqueue_pod-owned_pod pod g' key h kept same_namespace found same_uid keyed =
      let ref = Ownership.new_controller_ref env.ownership g.meta group_version greeter_kind in
      let named = refs.ref_name g.meta group_version greeter_kind in
      enqueue_pod_adds env laws pod h ref g' key
        (refs.found_ref pod.meta g.meta group_version greeter_kind kept)
        (refs.ref_kind g.meta group_version greeter_kind)
        (ap (λ ns. cached env h ns ref.name) same_namespace
          ∙ ap (cached env h g.meta.namespace) named
          ∙ found)
        (refs.ref_uid g.meta group_version greeter_kind ∙ sym same_uid) keyed
      ∙ λ i. (reply tt, add key ∷ read_greeter (same_namespace i) (named i) ∷ h)

  -- A running Greeter that has no pod gets one, and hears of it. If the read finds no pod, and the
  -- pod that is created keeps its owner references and is not yet final, then the sync creates the
  -- pod with the Greeter as its controller and ends with no error. Of a pod that has those owner
  -- references, in the Greeter's namespace, the handlers that `NewController` registers put the
  -- Greeter's key back on the work queue when it is added, and each time it is updated, while the
  -- cache has a Greeter of that name and UID and its key can be formed. A deletion of the pod is not
  -- handled.
  pub created_pod_returns :
      (h later : List Call) (key key' : String) (e : Error) (created pod : Pod) (old : Object)
      (g' : Greeter)
      → env.key_of (greeter_object g) ≡ ok key
      → g.status.phase ≡ phase_running
      → env.pod_get h g.meta.namespace (String.◌++◌ g.meta.name "-runner") ≡ err e
      → is_not_found e ≡ true
      → env.create_answer
          (read_pod g.meta.namespace (String.◌++◌ g.meta.name "-runner") ∷ h)
          (owned_pod env g)
        ≡ ok created
      → created.meta.owner_references ≡ (owned_pod env g).meta.owner_references
      → created.phase ≢ phase_failed
      → created.phase ≢ phase_succeeded
      → pod.meta.owner_references ≡ created.meta.owner_references
      → pod.meta.namespace ≡ g.meta.namespace
      → cached env later g.meta.namespace g.meta.name ≡ returned (ok g')
      → g'.meta.uid ≡ g.meta.uid
      → env.key_of (greeter_object g') ≡ ok key'
      → (sync_greeter env g h ≡ (
        reply (pos 0, none),
        create_pod (owned_pod env g)
            ∷ read_pod g.meta.namespace (String.◌++◌ g.meta.name "-runner")
            ∷ h,
      ))
        × (told (pod_handlers env) (added (pod_object pod)) later
            ≡ some (reply tt, add key' ∷ read_greeter g.meta.namespace g.meta.name ∷ later))
        × (told (pod_handlers env) (updated old (pod_object pod)) later
            ≡ some (reply tt, add key' ∷ read_greeter g.meta.namespace g.meta.name ∷ later))
        × (told (pod_handlers env) (deleted (pod_object pod)) later ≡ none)
  unfolding pod_handlers
  created_pod_returns h later key key' e created pod old g' keyed running missing gone made kept a b
        same_owner same_namespace found same_uid keyed' =
      let returns =
        enqueue_pod-owned_pod pod g' key' later (same_owner ∙ kept) same_namespace found same_uid
          keyed' in
      (
        sync_greeter_creates env g h key keyed running laws e created missing gone made kept a b,
        ap some returns,
        ap some returns,
        refl,
      )
